-- ===== src/Server/Operator/Tests.antt =====
-- server/src/operator.rs: a first session that is stored, with a pointer that cannot be made durable.
use moenotes_api.Prelude.{List, Option, [], arith, codes, none, refl, some, true, ℕ, ◌≡◌}
use moenotes_api.Errors.{ok}
use moenotes_api.Table.{find, insert, remove}
use moenotes_api.Client.Sdk.Base.{Bytes}
use moenotes_api.Client.SecretFile.{Folder, create, folder, name_eq, place, put, read, written}
use moenotes_api.Server.Operator.{
  PersistInput, PersistIo, Pointer, credentials, new_pointer, persist, unsynced,
}
use moenotes_api.Server.Operator.Saved.{Refines, persist-Refines}

abbrev id : List ℕ
id = codes "0a-1"

abbrev read_pointer : Bytes → Option Pointer
read_pointer s = some (new_pointer "tw" "https://g.example" id)

abbrev print_pointer : Pointer → Bytes
print_pointer p = codes "{}"

abbrev state_dir : Folder
state_dir = record { itself = some (folder true); entries = [] }

abbrev input : PersistInput
input = record {
  id = id;
  sdk_text = ok (codes "sdk");
  game_text = ok (codes "game");
  generation = 3;
  generation_after = 3;
}

abbrev io : PersistIo
io = record { sdk_write = written; game_write = written; pointer_write = unsynced }

persist-Refines_example :
    Refines read_pointer input "tw" "https://g.example" none
      (persist print_pointer io input "tw" "https://g.example" state_dir)
unfolding find
persist-Refines_example =
    persist-Refines read_pointer print_pointer input "tw" "https://g.example" none io state_dir
      (record { same = refl; short = omega arith }) (refl, (refl, (refl, (refl, tt)))) refl

-- The call fails, and yet the new session is stored.
unsynced_test :
    credentials read_pointer
      (λ s. some s)
      "tw"
      "https://g.example"
      (persist print_pointer io input "tw" "https://g.example" state_dir).1
    ≡ ok (some (codes "game"))
unfolding credentials persist put find insert remove create place read
unsynced_test = refl
