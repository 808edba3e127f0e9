-- ===== src/Client/Config/Examples.antt =====
-- client/src/session.rs: crates that take every text, for the examples.
use moenotes_api.Prelude.{Bool, Option, String, false, some, true}
use moenotes_api.Client.Config.{Url}

abbrev pub plain_url : String → Option Url
plain_url value = some (record {
  scheme = "https";
  has_host = true;
  username = "";
  has_password = false;
  has_query = false;
  has_fragment = false;
  path = "/";
  serialized = value;
})

abbrev pub any_value : String → Bool
any_value v = true
