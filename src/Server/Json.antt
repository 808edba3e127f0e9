-- ===== src/Server/Json.antt =====
-- `serde_json::Value`, of which server/src/query_params.rs makes queries and server/src/projection.rs
-- makes public responses. A number that is no integer is its text. The members of an object stand in
-- the order of their insertion.
pub mod Laws
use moenotes_api.Prelude.{Bool, Option, String, if◌then◌else◌, none, some, str_eq}
use moenotes_api.Int.{ℤ}

mutual
  pub data Value : Type 0 where
    null_value : Value
    string_value : String → Value
    number_value : ℤ → Value
    float_value : String → Value
    bool_value : Bool → Value
    array_value : Values → Value
    object_value : Members → Value

  pub data Values : Type 0 where
    no_values : Values
    value_and : Value → Values → Values

  pub data Members : Type 0 where
    no_members : Members
    member : (name : String) → (value : Value) → Members → Members

abbrev pub lookup : String → Members → Option Value
lookup k no_members = none
lookup k (member j v m) = if str_eq j k then some v else lookup k m

-- An assignment to a member that is there or not.
abbrev pub put : String → Value → Members → Members
put k v no_members = member k v no_members
put k v (member j w m) = if str_eq j k then member j v m else member j w (put k v m)

abbrev pub push : Value → Values → Values
push v no_values = value_and v no_values
push v (value_and w vs) = value_and w (push v vs)
