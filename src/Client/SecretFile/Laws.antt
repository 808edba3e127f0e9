-- ===== src/Client/SecretFile/Laws.antt =====
-- client/src/secret_file.rs: what writing a file leaves of the others.
use moenotes_api.Prelude.{
  Bool-cases, Option, Option-cases, arith, false, if◌then◌else◌, inl, inr, leb, length, none, refl,
  some, subst, true, ◌≡◌, ◌≤◌,
}
use moenotes_api.Errors.{ClientError, Result, err, error_of, guard, invalid_config, ok}
use moenotes_api.Errors.Laws.{guard-ok}
use moenotes_api.Table.{beq_refl, find, insert}
use moenotes_api.Table.Laws.{find-remove_ne}
use moenotes_api.Client.Sdk.Base.{Bytes, bytes_eq}
use moenotes_api.Client.SecretFile.{
  FileName, Folder, Node, Write, checked, create, file, limit, name_eq, names_eq_iff, place,
  private_folder, put, read, read_node, refused, written,
}

pub find-put :
    (j name : FileName) (s : Bytes) (f : Folder)
    → find j (put name s f).entries
      ≡ (if bytes_eq name j then some (file true s) else find j f.entries)
unfolding put insert find
find-put j name s f = elim (Bool-cases (bytes_eq name j)) [
  | inl same ↦ rw same refl
  | inr other ↦ rw other (find-remove_ne j name f.entries other)
]

pub read-put_self :
    (name : FileName) (s : Bytes) (f : Folder) → length s ≤ limit → read name (put name s f) ≡ ok s
unfolding read read_node
read-put_self name s f h = rw (find-put name name s f, beq_refl name) (ground (arith, h))

pub read-put_ne :
    (j name : FileName) (s : Bytes) (f : Folder)
    → bytes_eq name j ≡ false
    → read j (put name s f) ≡ read j f
unfolding read
read-put_ne j name s f h = rw (find-put j name s f, h) refl

-- What is read before a new file is written is read after it.
pub read-put_new :
    (j name : FileName) (s t : Bytes) (f : Folder)
    → find name f.entries ≡ none
    → read j f ≡ ok t
    → read j (put name s f) ≡ ok t
unfolding read read_node
read-put_new j name s t f absent h = elim (Bool-cases (bytes_eq name j)) [
  | inl same ↦
      let gone : find j f.entries ≡ none =
        subst (λ (n : FileName). find n f.entries ≡ none) ((names_eq_iff name j).0 same) absent in
      let unread : read_node none ≡ ok t = subst (λ (o : Option Node). read_node o ≡ ok t) gone h in
      cc unread
  | inr other ↦ rw (find-put j name s f, other) h
]

module _ {B : Type 0} (P : Result B × Folder → Type 0) where
  -- A result that leaves the folder as it is.
  pub checked_rule :
      {A : Type 0} (r : Result A) (f : Folder) (next : A → Result B × Folder)
      → ((e : ClientError) → P (err e, f))
      → ((a : A) → r ≡ ok a → P (next a))
      → P (checked r f next)
  checked_rule (ok a) f next failed went = went a refl
  checked_rule (err e) f next failed went = failed e

-- How `create` ends: with an error and the folder as it was, or with a new file.
module _ (P : Result (Unit {0}) × Folder → Type 0) where
  place_rule :
      (write : Write) (name : FileName) (s : Bytes) (f : Folder)
      → ((e : ClientError) → P (err e, f))
      → (find name f.entries ≡ none → P (ok tt, put name s f))
      → P (place write name s f)
  unfolding place
  place_rule refused name s f failed went = failed (error_of invalid_config)
  place_rule written name s f failed went = elim (Option-cases (find name f.entries)) [
    | inl absent ↦ rw (absent, place) (went absent)
    | inr (node, there) ↦ rw (there, place) (failed (error_of invalid_config))
  ]

  pub create_rule :
      (write : Write) (name : FileName) (s : Bytes) (f : Folder)
      → ((e : ClientError) → P (err e, f))
      → (length s ≤ limit → find name f.entries ≡ none → P (ok tt, put name s f))
      → P (create write name s f)
  unfolding create
  create_rule write name s f failed went =
      checked_rule P (guard (leb (length s) limit) invalid_config) f _ failed λ u short.
        checked_rule P (private_folder f.itself) f _ failed λ w own.
          place_rule write name s f failed
            (went (ground (arith, guard-ok _ invalid_config u short)))
