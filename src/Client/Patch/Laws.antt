-- ===== src/Client/Patch/Laws.antt =====
-- client/src/versions.rs: the candidates of an update are the next patch releases.
use native.Mathlib.Nat.{pow-suc, le_trans, le_of_eq, one-mul, pow-le-pow_right, mul-le-mul_right}
use moenotes_api.Prelude.{
  All, All-append, List, String, [], all, arith, codes, false, inl, inr, is_digit, length, ltb,
  none, refl, some, split_on, suc, sym, true, zero, ℕ, ◌*◌, ◌++◌, ◌+◌, ◌-◌, ◌<◌, ◌^◌, ◌∙◌, ◌∷◌, ◌≡◌,
  ◌≤◌,
}
use moenotes_api.Decimal.{parse_below, print, value_from}
use moenotes_api.Decimal.Laws.{
  IsPrinted, all-IsDigit, codes-text_of, digits-IsPrinted, length-print, parse_below-bound,
  parse_below-print, print-IsDigit, print-nonempty, split_on-digits, split_on-digits_last,
}
use moenotes_api.Client.Patch.{
  patch_part, patch_parts, patch_successors, patch_version, successors_from, version_text,
}

patch_part-print : (n : ℕ) → n < 10 ^ 9 → patch_part (print n) ≡ some n
unfolding patch_part
patch_part-print n h =
    let short : ltb 9 (length (print n)) ≡ false = few (length (print n)) (length-print 8 n h) in
    rw (print-nonempty n, short, all-IsDigit (print n) (print-IsDigit n))
      (parse_below-print (2 ^ 32) n (omega arith))
  where
    few : (l : ℕ) → l ≤ 9 → ltb 9 l ≡ false
    few l h = ground arith

patch_parts-some :
    (x y z : List ℕ) (a b c : ℕ)
    → patch_part x ≡ some a
    → patch_part y ≡ some b
    → patch_part z ≡ some c
    → patch_parts (x ∷ y ∷ z ∷ []) ≡ some (a, b, c)
unfolding patch_parts
patch_parts-some x y z a b c p q r = ground arith

version_text-IsPrinted : (a b c : ℕ) → All IsPrinted (print a ++ b'.' ∷ (print b ++ b'.' ∷ print c))
version_text-IsPrinted a b c =
    let ds = λ (n : ℕ). digits-IsPrinted (print n) (print-IsDigit n) in
    All-append IsPrinted (print a) _ (ds a)
      (inr (inl refl), All-append IsPrinted (print b) _ (ds b) (inr (inl refl), ds c))

-- Three numbers below 10^9, printed with dots between them, are read back as a client version.
pub patch_version-version_text :
    (a b c : ℕ)
    → a < 10 ^ 9
    → b < 10 ^ 9
    → c < 10 ^ 9
    → patch_version (version_text a b c) ≡ some (a, b, c)
unfolding patch_version version_text
patch_version-version_text a b c ha hb hc =
    rw
      (
        codes-text_of _ (version_text-IsPrinted a b c),
        split_on-digits b'.' (print a) _ refl (print-IsDigit a),
        split_on-digits b'.' (print b) _ refl (print-IsDigit b),
        split_on-digits_last b'.' (print c) refl (print-IsDigit c),
      )
      (patch_parts-some (print a) (print b) (print c) a b c (patch_part-print a ha)
        (patch_part-print b hb) (patch_part-print c hc))

-- The versions `major.minor.(patch + step)`, one after the other, from `step` on.
abbrev pub NextPatches : ℕ → ℕ → ℕ → ℕ → List String → Type 0
NextPatches major minor patch step [] = Unit
NextPatches major minor patch step (v ∷ vs) =
    (patch_version v ≡ some (major, minor, patch + step))
    × NextPatches major minor patch (step + 1) vs

successors_from-NextPatches :
    (major minor patch step left : ℕ)
    → major < 10 ^ 9
    → minor < 10 ^ 9
    → patch + step + left ≤ 10 ^ 9
    → NextPatches major minor patch step (successors_from major minor patch step left)
      × (length (successors_from major minor patch step left) ≡ left)
unfolding successors_from
successors_from-NextPatches major minor patch step zero h k l = (tt, refl)
successors_from-NextPatches major minor patch step (suc left) h k l =
    let fits : ltb (patch + step) (2 ^ 32) ≡ true = ground arith in
    let (rest, count) =
      successors_from-NextPatches major minor patch (step + 1) left h k (omega arith) in
    rw fits (
      (patch_version-version_text major minor (patch + step) h k (omega arith), rest),
      omega (arith, count),
    )

value_from-bound :
    (acc : ℕ) (s : List ℕ) → all is_digit s ≡ true → value_from acc s < (acc + 1) * 10 ^ length s
value_from-bound acc [] h = omega arith
value_from-bound acc (c ∷ s) h =
    let ih = value_from-bound (acc * 10 + (c - b'0')) s (ground arith) in
    let step : acc * 10 + (c - b'0') + 1 ≤ (acc + 1) * 10 = ground arith in
    next_digit (value_from (acc * 10 + (c - b'0')) s) (acc * 10 + (c - b'0') + 1) (acc + 1)
      (10 ^ length s) (10 ^ suc (length s)) ih step (pow-suc 10 (length s))
  where
    next_digit : (v m k x y : ℕ) → v < m * x → m ≤ k * 10 → y ≡ x * 10 → v < k * y
    next_digit v m k x y h l e = rw e (le_trans h (le_trans (mul-le-mul_right x l) (omega arith)))

patch_part-small : (s : List ℕ) (n : ℕ) → patch_part s ≡ some n → n < 10 ^ 9
unfolding patch_part
patch_part-small s n h =
    let (short, digits, read) = tests h in
    let (_, exact, _, _) = parse_below-bound (2 ^ 32) s n read in
    rw exact (
      le_trans (value_from-bound 0 s digits) (
        le_trans (le_of_eq (one-mul (10 ^ length s)))
          (pow-le-pow_right {n = 10} (omega arith) short)))
  where
    tests :
        patch_part s ≡ some n
        → (length s ≤ 9) × (all is_digit s ≡ true) × (parse_below (2 ^ 32) s ≡ some n)
    tests h = ground arith

patch_parts-small :
    (ps : List (List ℕ)) (a b c : ℕ) → patch_parts ps ≡ some (a, b, c) → (a < 10 ^ 9) × (b < 10 ^ 9)
unfolding patch_parts
patch_parts-small [] a b c h = cc
patch_parts-small (x ∷ []) a b c h = cc
patch_parts-small (x ∷ y ∷ []) a b c h = cc
patch_parts-small (x ∷ y ∷ z ∷ []) a b c h =
    let p = patch_part-small x in let q = patch_part-small y in ground (arith, p a, q b)
patch_parts-small (x ∷ y ∷ z ∷ w ∷ ps) a b c h = cc

patch_version-parts : (v : String) → patch_version v ≡ patch_parts (split_on b'.' (codes v))
unfolding patch_version
patch_version-parts v = refl

-- The candidates for an update are the next `count` patch releases of the same major and minor
-- release, in order, each readable as a version.
pub patch_successors-NextPatches :
    (current : String) (count major minor patch : ℕ)
    → patch_version current ≡ some (major, minor, patch)
    → patch + count < 10 ^ 9
    → NextPatches major minor patch 1 (patch_successors current count)
      × (length (patch_successors current count) ≡ count)
unfolding patch_successors
patch_successors-NextPatches current count major minor patch h fits =
    let (a, b) =
      patch_parts-small (split_on b'.' (codes current)) major minor patch
        (sym (patch_version-parts current) ∙ h) in
    rw (h, patch_successors)
      (successors_from-NextPatches major minor patch 1 count a b (omega arith))

-- For a text that is no `MAJOR.MINOR.PATCH` there are none.
pub patch_successors-none :
    (current : String) (count : ℕ)
    → patch_version current ≡ none
    → patch_successors current count ≡ []
unfolding patch_successors
patch_successors-none current count h = rw (h, patch_successors)
