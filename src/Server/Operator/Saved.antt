-- ===== src/Server/Operator/Saved.antt =====
-- server/src/operator.rs, persist: what is stored behind the pointer, however the writes end.
use mathlib.Core.List.{append_assoc}
use moenotes_api.Prelude.{
  ==_iff, All, Bool, List, Option, String, [], any, ap, arith, codes, false, inl, inr, is_empty,
  is_hexdigit, length, none, refl, some, str_eq_refl, sym, true, ℕ, ◌&&◌, ◌++◌, ◌==◌, ◌||◌, ◌∙◌,
  ◌∷◌, ◌≡◌, ◌≤◌, ◌⊎◌,
}
use moenotes_api.Errors.{Result, err, guard, ok, session_changed}
use moenotes_api.Errors.Laws.{guard-ok}
use moenotes_api.Table.{find}
use moenotes_api.Client.Sdk.Base.{Bytes, bytes_eq}
use moenotes_api.Client.SecretFile.{
  FileName, Folder, Write, create, limit, name_eq, names_eq_iff, private_folder, put, read,
}
use moenotes_api.Client.SecretFile.Laws.{
  checked_rule, create_rule, find-put, read-put_ne, read-put_new, read-put_self,
}
use moenotes_api.Server.Operator.{
  PersistInput, PersistIo, Pointer, Publish, attempt, current, ends_with, is_separator,
  is_snapshot_name, kept, new_pointer, persist, pointer, publish, replaceable, replaced,
  starts_with_dot, swap, unsynced,
}

-- The abstract state of a folder: nothing, or a pair of snapshots.
abbrev pub Snapshot : Type 0
Snapshot = Bytes × Bytes

module _ (read_pointer : Bytes → Option Pointer) (region origin : String) where
  -- The folder stands for this abstract state.
  abbrev pub Holds : Folder → Option Snapshot → Type 0
  Holds f none = find current f.entries ≡ none
  Holds f (some (sdk, game)) =
      (p : Pointer) × (pointer read_pointer region origin f ≡ ok p)
      × (read p.sdk_file f ≡ ok sdk)
      × (read p.game_file f ≡ ok game)

  pointer-put :
      (name : FileName) (s : Bytes) (f : Folder)
      → bytes_eq name current ≡ false
      → pointer read_pointer region origin (put name s f) ≡ pointer read_pointer region origin f
  unfolding pointer
  pointer-put name s f h = rw (read-put_ne current name s f h) refl

  -- A new file changes nothing.
  put-Holds :
      (name : FileName) (s : Bytes) (f : Folder) (v : Option Snapshot)
      → bytes_eq name current ≡ false
      → find name f.entries ≡ none
      → Holds f v
      → Holds (put name s f) v
  put-Holds name s f none h absent held = rw (find-put current name s f, h) held
  put-Holds name s f (some (sdk, game)) h absent (p, e, a, b) = (
    p,
    pointer-put name s f h ∙ e,
    read-put_new p.sdk_file name s sdk f absent a,
    read-put_new p.game_file name s game f absent b,
  )

abbrev pub is_err : {A : Type 0} → Result A → Bool
is_err (ok a) = false
is_err (err e) = true

-- `{id}` of a UUID: hex digits and hyphens.
abbrev pub IsUuidText : List ℕ → Type 0
IsUuidText id = All (λ c. (is_hexdigit c || c == b'-') ≡ true) id

ends_with-append : (suffix s : List ℕ) → ends_with suffix (s ++ suffix) ≡ true
ends_with-append [] [] = refl
ends_with-append (c ∷ suffix) [] = ground (arith, (names_eq_iff (c ∷ suffix) (c ∷ suffix)).1 refl)
ends_with-append suffix (c ∷ s) = ground (arith, ends_with-append suffix s)

no_separator : (c : ℕ) → (is_hexdigit c || c == b'-') ≡ true → is_separator c ≡ false
no_separator c h = ground (arith, h)

any-append : (p : ℕ → Bool) (s t : List ℕ) → any p (s ++ t) ≡ (any p s || any p t)
any-append p [] t = refl
any-append p (c ∷ s) t = ground (arith, any-append p s t)

any-separator : (id : List ℕ) → IsUuidText id → any is_separator id ≡ false
any-separator [] u = refl
any-separator (c ∷ id) (h, u) = rw (no_separator c h) (any-separator id u)

is_empty-append : (s t : List ℕ) → is_empty s ≡ false → is_empty (s ++ t) ≡ false
is_empty-append [] t h = cc
is_empty-append (c ∷ s) t h = refl

snapshot_name :
    (kind id : List ℕ)
    → is_empty kind ≡ false
    → any is_separator kind ≡ false
    → starts_with_dot (kind ++ (id ++ codes ".json")) ≡ false
    → IsUuidText id
    → is_snapshot_name (kind ++ (id ++ codes ".json")) ≡ true
unfolding is_snapshot_name
snapshot_name kind id full clean dotless u =
    let front : any is_separator (kind ++ (id ++ codes ".json")) ≡ false =
      any-append is_separator kind (id ++ codes ".json")
      ∙ ground (arith, clean, any-append is_separator id (codes ".json"), any-separator id u) in
    let back : ends_with (codes ".json") (kind ++ (id ++ codes ".json")) ≡ true =
      ap (ends_with (codes ".json")) (sym (append_assoc kind id (codes ".json")))
      ∙ ends_with-append (codes ".json") (kind ++ id) in
    let nonempty : is_empty (kind ++ (id ++ codes ".json")) ≡ false = is_empty-append kind _ full in
    rw (nonempty, back, front, dotless) refl

-- The pointer that is written is read back.
pub record ReadsBack (read_pointer : Bytes → Option Pointer) (print_pointer : Pointer → Bytes)
    (p : Pointer) : Type 0 where
  pub same : read_pointer (print_pointer p) ≡ some p
  pub short : length (print_pointer p) ≤ 65536

new_pointer-names :
    (region origin : String) (id : List ℕ)
    → IsUuidText id
    → (is_snapshot_name (new_pointer region origin id).sdk_file
        && is_snapshot_name (new_pointer region origin id).game_file)
      ≡ true
new_pointer-names region origin id u =
    let a = snapshot_name (codes "sdk-") id refl refl refl u in
    let b = snapshot_name (codes "game-") id refl refl refl u in ground (arith, a, b)

module _ (read_pointer : Bytes → Option Pointer) (input : PersistInput) (region origin : String)
    (v : Option Snapshot) where
  -- Either nothing has changed behind the pointer and the call fails, or the pointer names the two
  -- new snapshots, and the session is the one that they were taken from.
  abbrev pub Refines : Result (Unit {0}) × Folder → Type 0
  Refines (r, f) =
      ((is_err r ≡ true) × Holds read_pointer region origin f v)
      ⊎ ((new : Snapshot) × (input.sdk_text ≡ ok new.0)
          × (input.game_text ≡ ok new.1)
          × (input.generation_after ≡ input.generation)
          × Holds read_pointer region origin f (some new))

  -- A file that is created keeps what the folder holds.
  attempt_rule :
      (write : Write) (name : FileName) (s : Bytes) (f : Folder)
      (next : Unit {0} → Folder → Result (Unit {0}) × Folder)
      → Holds read_pointer region origin f v
      → (find name f.entries ≡ none → length s ≤ limit → Refines (next tt (put name s f)))
      → Refines (attempt (create write name s f) next)
  attempt_rule write name s f next held went =
      create_rule (λ x. Refines (attempt x next)) write name s f (λ e. inl (refl, held))
        (λ short absent. went absent short)

-- The names that a save writes differ from each other and from the pointer's.
apart_names :
    (id : List ℕ)
    → bytes_eq (codes "game-" ++ (id ++ codes ".json")) (codes "sdk-" ++ (id ++ codes ".json"))
      ≡ false
apart_names id = refl

module _ (read_pointer : Bytes → Option Pointer) (print_pointer : Pointer → Bytes)
    (input : PersistInput) (region origin : String) (v : Option Snapshot) where
  -- The pointer is replaced, or not.
  swap-Refines :
      (io : Publish) (f : Folder) (new : Snapshot)
      → Holds read_pointer region origin f v
      → Holds read_pointer region origin
          (put current (print_pointer (new_pointer region origin input.id)) f)
          (some new)
      → input.sdk_text ≡ ok new.0
      → input.game_text ≡ ok new.1
      → input.generation_after ≡ input.generation
      → Refines read_pointer input region origin v
          (swap io current (print_pointer (new_pointer region origin input.id)) f)
  unfolding swap
  swap-Refines replaced f new held moved a b g = inr (new, a, b, g, moved)
  swap-Refines kept f new held moved a b g = inl (refl, held)
  swap-Refines unsynced f new held moved a b g = inr (new, a, b, g, moved)

  publish-Refines :
      (io : Publish) (f : Folder) (new : Snapshot)
      → Holds read_pointer region origin f v
      → Holds read_pointer region origin
          (put current (print_pointer (new_pointer region origin input.id)) f)
          (some new)
      → input.sdk_text ≡ ok new.0
      → input.game_text ≡ ok new.1
      → input.generation_after ≡ input.generation
      → Refines read_pointer input region origin v
          (publish io current (print_pointer (new_pointer region origin input.id)) f)
  unfolding publish
  publish-Refines io f new held moved a b g =
      let P = Refines read_pointer input region origin v in
      checked_rule P (private_folder f.itself) f _ (λ e. inl (refl, held))
        λ own _.
          checked_rule P (replaceable (find current f.entries)) f _ (λ e. inl (refl, held))
            λ old _. swap-Refines io f new held moved a b g

  -- What the new pointer names.
  moved-Holds :
      (f : Folder) (sdk game : Bytes)
      → ReadsBack read_pointer print_pointer (new_pointer region origin input.id)
      → IsUuidText input.id
      → read (new_pointer region origin input.id).sdk_file f ≡ ok sdk
      → read (new_pointer region origin input.id).game_file f ≡ ok game
      → Holds read_pointer region origin
          (put current (print_pointer (new_pointer region origin input.id)) f)
          (some (sdk, game))
  unfolding pointer
  moved-Holds f sdk game r u a b = (
    new_pointer region origin input.id,
    rw
        (
          read-put_self current (print_pointer (new_pointer region origin input.id)) f r.short,
          r.same,
          str_eq_refl region,
          str_eq_refl origin,
          new_pointer-names region origin input.id u,
        )
        refl,
    read-put_ne _ current _ f refl ∙ a,
    read-put_ne _ current _ f refl ∙ b,
  )

  -- Where a folder holds an abstract state (nothing, or the two snapshots that its pointer names),
  -- the new pointer would be read back and the id has a UUID's characters: however the writes of a
  -- save end, either the save fails and the folder holds the same state, or it holds the two new
  -- snapshots and the session is still the one that they were taken from. No other state is ever
  -- left.
  pub persist-Refines :
      (io : PersistIo) (f : Folder)
      → ReadsBack read_pointer print_pointer (new_pointer region origin input.id)
      → IsUuidText input.id
      → Holds read_pointer region origin f v
      → Refines read_pointer input region origin v (persist print_pointer io input region origin f)
  unfolding persist
  persist-Refines io f r u held =
      let P = Refines read_pointer input region origin v in
      checked_rule P (private_folder f.itself) f _ (λ e. inl (refl, held))
        λ own _.
          checked_rule P input.sdk_text f _ (λ e. inl (refl, held))
            λ sdk sdk_is.
              let p = new_pointer region origin input.id in
              attempt_rule read_pointer input region origin v io.sdk_write p.sdk_file sdk f _ held
                λ no_sdk short.
                  let f1 = put p.sdk_file sdk f in
                  let held1 =
                    put-Holds read_pointer region origin p.sdk_file sdk f v refl no_sdk held in
                  checked_rule P input.game_text f1 _ (λ e. inl (refl, held1))
                    λ game game_is.
                      attempt_rule read_pointer input region origin v io.game_write p.game_file game
                        f1 _ held1
                        λ no_game short'.
                          let f2 = put p.game_file game f1 in
                          let held2 =
                            put-Holds read_pointer region origin p.game_file game f1 v refl no_game
                              held1 in
                          checked_rule P
                            (guard (input.generation_after == input.generation) session_changed) f2
                            _ (λ e. inl (refl, held2))
                            λ c same.
                              publish-Refines io.pointer_write f2 (sdk, game) held2
                                (moved-Holds f2 sdk game r u
                                  (read-put_ne p.sdk_file p.game_file game f1 (apart_names input.id)
                                    ∙ read-put_self p.sdk_file sdk f short)
                                  (read-put_self p.game_file game f1 short'))
                                sdk_is game_is ((==_iff _ _).0 (guard-ok _ session_changed c same))
