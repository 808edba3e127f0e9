-- ===== src/Server/Routes/Public.antt =====
-- server/src/path_routes.rs: where a profile is asked for, and what a public response holds.
use moenotes_api.Prelude.{
  Bool, Bool-cases, List, Option, Option-cases, String, [], ap, arith, codes, false, if◌then◌else◌,
  inl, inr, ltb, none, not, refl, some, str_eq, subst, true, ℕ, ◌<◌, ◌==◌, ◌^◌, ◌||◌, ◌∷◌, ◌≡◌, ◌≢◌,
  ◌⊎◌,
}
use moenotes_api.Errors.{ClientError, error_of, invalid_request, ok}
use moenotes_api.Errors.Laws.{Result-cases}
use moenotes_api.Server.Json.{Value}
use moenotes_api.Server.Regions.{
  ProfileError, Region, from_profile_id, jp, region_beq_iff, region_eq,
}
use moenotes_api.Server.Projection.{Shape, message, permitted, project, public_mode, single}
use moenotes_api.Server.Routes.{Route, path_query, valid_path}
use moenotes_api.Server.Routes.Handlers.{
  Api, Refusal, agrees, delivered, execute, failed, handle_path, is_jp_region, output_of, pool_for,
  positive_i64, present, profile_error, refused, select_region, turned_down,
}
use moenotes_api.Server.Projection.Laws.{clean, project-clean}
use moenotes_api.Decimal.{parse_below}
use moenotes_api.Server.Regions.ProfileId.{IsProfileId, from_profile_id-IsProfileId}

abbrev selection : Option Region → Refusal ⊎ Option Region
selection x = inr x

-- A positive number below 2^63, with a plus sign or without.
abbrev pub without_plus : List ℕ → List ℕ
without_plus [] = []
without_plus (c ∷ s) = if c == b'+' then s else c ∷ s

abbrev pub IsPositive : List ℕ → Type 0
IsPositive id = (n : ℕ) × (parse_below (2 ^ 63) (without_plus id) ≡ some n) × (0 < n)

-- Where a request of a profile route goes.
abbrev pub ProfileRegion : Option Region → String → Option Region → Type 0
ProfileRegion region id selected =
    ((region ≡ some jp) × (selected ≡ some jp) × IsPositive (codes id))
    ⊎ ((region ≢ some jp)
        × (r : Region) × (n : ℕ) × IsProfileId r n (codes id)
        × (selected ≡ some r)
        × ((region ≡ none) ⊎ (region ≡ some r)))

positive_i64-IsPositive : (id : List ℕ) → positive_i64 id ≡ true → IsPositive id
positive_i64-IsPositive [] h = cc
positive_i64-IsPositive (c ∷ s) h = elim (Bool-cases (c == b'+')) [
  | inl z ↦ rw (z, without_plus) (of_number (parse_below (2 ^ 63) s) (rw (z, positive_i64) at h))
  | inr z ↦
      rw (z, without_plus) (of_number (parse_below (2 ^ 63) (c ∷ s)) (rw (z, positive_i64) at h))
]
  where
    of_number :
        (o : Option ℕ)
        → elim o [ none ↦ false | some n ↦ ltb 0 n ] ≡ true
        → (n : ℕ) × (o ≡ some n) × (0 < n)
    of_number none e = cc
    of_number (some n) e = (n, refl, ground (arith, e))

agrees-or :
    (region : Option Region) (r : Region)
    → agrees region r ≡ true
    → (region ≡ none) ⊎ (region ≡ some r)
agrees-or none r h = inl refl
agrees-or (some s) r h = inr (ap some ((region_beq_iff s r).0 h))

not_jp : (region : Option Region) → is_jp_region region ≡ false → region ≢ some jp
not_jp none h e = cc
not_jp (some s) h e = cc (subst (λ (o : Option Region). is_jp_region o ≡ false) e h)

-- A request of the profile route that goes to a region has an id. Under the JP scope it goes to
-- JP, and the id is a positive number below 2^63 (a plus sign may stand before it). Otherwise it
-- does not go to JP: the id has eleven digits, makes a number below 2^63, and begins with 2, 3 or
-- 4 for tw, en or kr, where the request goes; a scope of the route is then this region.
pub select_region-ProfileRegion :
    (r : Route) (region selected : Option Region) (params : String → Option String)
    → str_eq r.method "profile" ≡ true
    → select_region r region params ≡ inr selected
    → (id : String) × (params "profileId" ≡ some id) × ProfileRegion region id selected
unfolding select_region
select_region-ProfileRegion r region selected params is_profile h =
    elim (Option-cases (params "profileId")) [
      | inl absent ↦ absurd (bad (rw (is_profile, absent, select_region) at h))
      | inr (id, given) ↦ (id, given, of_id id (rw (is_profile, given, select_region) at h))
    ]
  where
    bad : {a : Refusal} → inl a ≡ inr selected → ⊥
    bad e = cc

    same : {x : Option Region} → selection x ≡ inr selected → selected ≡ x
    same e = cc

    by_id : String → Refusal ⊎ Option Region
    by_id id =
        if is_jp_region region
        then (if positive_i64 (codes id)
            then inr (some jp)
            else inl (failed (error_of invalid_request)))
        else elim (from_profile_id (codes id)) [
          | inl e ↦ inl (turned_down 400 (profile_error e))
          | inr (inferred, n) ↦
              if agrees region inferred
              then inr (some inferred)
              else inl (turned_down 400 "profile_region_mismatch")
        ]

    only_jp : (o : Option Region) → is_jp_region o ≡ true → o ≡ some jp
    only_jp o e = ground arith

    of_id : (id : String) → by_id id ≡ inr selected → ProfileRegion region id selected
    of_id id z = elim (Bool-cases (is_jp_region region)) [
      | inl is_jp ↦ elim (Bool-cases (positive_i64 (codes id))) [
        | inl good ↦ inl (
          only_jp region is_jp,
          same (rw (is_jp, good) at z),
          positive_i64-IsPositive (codes id) good,
        )
        | inr wrong ↦ absurd (bad (rw (is_jp, wrong) at z))
      ]
      | inr other ↦ of_profile (from_profile_id (codes id)) refl other z
    ]
      where
        of_profile :
            (x : ProfileError ⊎ (Region × ℕ))
            → from_profile_id (codes id) ≡ x
            → is_jp_region region ≡ false
            → by_id id ≡ inr selected
            → ProfileRegion region id selected
        of_profile (inl e) q other w = absurd (bad (rw (other, q) at w))
        of_profile (inr (inferred, n)) q other w = elim (Bool-cases (agrees region inferred)) [
          | inl agreed ↦ inr (
            not_jp region other,
            inferred,
            n,
            from_profile_id-IsProfileId (codes id) inferred n q,
            same (rw (other, q, agreed) at w),
            agrees-or region inferred agreed,
          )
          | inr apart ↦ absurd (bad (rw (other, q, apart) at w))
        ]

-- A response that is public: everything in it, at every depth, is an allowed field.
abbrev pub IsPublic : (String → String → Option Shape) → String → Value → Type 0
IsPublic field_of method out =
    (d : String) × (output_of method ≡ some d)
    × (clean field_of (some (single (message d))) out ≡ true)

present-IsPublic :
    (field_of : String → String → Option Shape) (method : String) (region served : Option Region)
    (json out : Value)
    → present field_of public_mode method region json ≡ delivered out served
    → IsPublic field_of method out
unfolding present
present-IsPublic field_of method region served json out h =
    elim (Result-cases (project field_of (output_of method) json)) [
      | inl (v, z) ↦
          subst (IsPublic field_of method) (same_value (rw (z, present) at h))
            (project-clean field_of (output_of method) json v z)
      | inr (e, z) ↦ absurd (bad e (rw (z, present) at h))
    ]
  where
    same_value : {v : Value} → delivered v region ≡ delivered out served → v ≡ out
    same_value e = cc

    bad : (e : ClientError) → refused (failed e) ≡ delivered out served → ⊥
    bad e q = cc

module _ {P Q : Type 0} (field_of : String → String → Option Shape) where
  execute-IsPublic :
      (api : Api P Q) (method : String) (text : Option String) (region served : Option Region)
      (out : Value)
      → api.mode ≡ public_mode
      → execute field_of api method text region ≡ delivered out served
      → IsPublic field_of method out
  unfolding execute
  execute-IsPublic api method text region served out public h =
      elim (Bool-cases (permitted api.mode method)) [
        | inr denied ↦ absurd (turned (rw (denied, execute) at h))
        | inl may ↦ elim (Result-cases (api.parse_query method text)) [
          | inr (e, z) ↦ absurd (failing e (rw (may, z, execute) at h))
          | inl (q, z) ↦ elim (Option-cases (pool_for field_of api region)) [
            | inl missing ↦ absurd (turned (rw (may, z, missing, execute) at h))
            | inr (p, y) ↦ elim (Result-cases (api.ask p q)) [
              | inr (e, w) ↦ absurd (failing e (rw (may, z, y, w, execute) at h))
              | inl (json, w) ↦
                  present-IsPublic field_of method region served json out
                    (rw public at (rw (may, z, y, w, execute) at h))
            ]
          ]
        ]
      ]
    where
      turned : {s : ℕ} {t : String} → refused (turned_down s t) ≡ delivered out served → ⊥
      turned e = cc

      failing : (e : ClientError) → refused (failed e) ≡ delivered out served → ⊥
      failing e q = cc

  -- In the public mode a response that the handler of a path route delivers holds, at every depth,
  -- only fields that the allowlist names for their message, and the message is the output of the
  -- route's method.
  pub handle_path-IsPublic :
      (split : String → List String) (pairs : String → List (String × String))
      (serialize : List (String × String) → String) (api : Api P Q) (r : Route)
      (region : Option Region) (path : String) (params : Option (String → Option String))
      (text : Option String) (body_empty : Bool) (out : Value) (served : Option Region)
      → api.mode ≡ public_mode
      → handle_path field_of split pairs serialize api r region path params text body_empty
        ≡ delivered out served
      → IsPublic field_of r.method out
  unfolding handle_path
  handle_path-IsPublic split pairs serialize api r region path none text body_empty out served
        public h =
      cc
  handle_path-IsPublic split pairs serialize api r region path (some ps) text body_empty out served
        public h =
      elim (Bool-cases (not (valid_path path) || not body_empty)) [
        | inl bad ↦ absurd (failing _ (rw (bad, handle_path) at h))
        | inr good ↦ elim (Result-cases (path_query split pairs serialize r ps text)) [
          | inr (e, z) ↦ absurd (failing e (rw (good, z, handle_path) at h))
          | inl (query, z) ↦ of_selection query z (select_region r region ps) refl good
        ]
      ]
    where
      failing : (e : ClientError) → refused (failed e) ≡ delivered out served → ⊥
      failing e q = cc

      away : {a : Refusal} → refused a ≡ delivered out served → ⊥
      away e = cc

      of_selection :
          (query : String)
          → path_query split pairs serialize r ps text ≡ ok query
          → (x : Refusal ⊎ Option Region) → select_region r region ps ≡ x
          → (not (valid_path path) || not body_empty) ≡ false
          → IsPublic field_of r.method out
      of_selection query z (inr selected) y good =
          execute-IsPublic api r.method (some query) selected served out public
            (rw (good, z, y, handle_path) at h)
      of_selection query z (inl answer) y good = absurd (away (rw (good, z, y, handle_path) at h))
