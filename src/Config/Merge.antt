-- ===== src/Config/Merge.antt =====
-- The merge of two trees, `_deep_merge` of infra/config/loader.py, at every depth.
use fastapi_infra.Common.{
  string_eq, String, Bool, true, false, not, ◌&&◌, Option, none, some, ◌≡◌, refl, arith,
  if◌then◌else◌, ◌==◌, is_some, Option-cases, Bool-cases, inl, inr,
}
use fastapi_infra.Common.Json.{Json, Fields, object, no_field, field}
use fastapi_infra.Config.Settings.{get, set, merged, deep_merge}

all_three : (a b c : Bool) → (a && b && c) ≡ true → (a ≡ true) × (b ≡ true) × (c ≡ true)
all_three a b c h = ground arith

both : (a b : Bool) → a ≡ true → b ≡ true → (a && b) ≡ true
both a b h i = ground arith

module _ {F : Type 0} where
  -- A dict has each key once.
  abbrev is_dict : Fields F → Bool
  is_dict no_field = true
  is_dict (field k v more) = not (is_some (get k more)) && is_dict more

  -- What a merge makes of an entry and the entry of the source, where there is one
  abbrev over : Option (Json F) → Option (Json F) → Option (Json F)
  over existing none = existing
  over existing (some v) = some (merged existing v)

  pub get-set :
      (j k : String) (v : Json F) (d : Fields F)
      → get j (set k v d) ≡ (if j == k then some v else get j d)
  unfolding get set
  get-set j k v no_field = refl
  get-set j k v (field i w more) = ground (arith, get-set j k v more)

  -- The entry of a merge, by the code's own `merged`
  get-deep_merge :
      (k : String) (target source : Fields F)
      → is_dict source ≡ true
      → get k (deep_merge target source) ≡ over (get k target) (get k source)
  unfolding get deep_merge
  get-deep_merge k target no_field h = refl
  get-deep_merge k target (field j v more) h =
      let put = merged (get j target) v in
      let rest = get-deep_merge k (set j put target) more (ground (arith, h)) in
      let kept = get-set k j put target in
      elim (string_eq.dec k j) [
        | yes same ↦
            let gone : get j more ≡ none = ground (arith, h) in
            rw same (ground (arith, rest, kept, gone))
        | no other ↦ ground (arith, rest, kept)
      ]

  -- So it is with the dicts inside it.
  abbrev mutual
    pub are_dicts : Fields F → Bool
    are_dicts no_field = true
    are_dicts (field k v more) = not (is_some (get k more)) && is_deep v && are_dicts more

    pub is_deep : Json F → Bool
    is_deep (object d) = are_dicts d
    is_deep _ = true

  abbrev pub are_objects : Option (Json F) → Json F → Bool
  are_objects (some (object _)) (object _) = true
  are_objects _ _ = false

  -- What a merge of two objects is, key by key and object by object.
  mutual
    pub data IsMerge : Fields F → Fields F → Fields F → Type 0 where
      by_keys :
          {target source result : Fields F}
          → ((k : String) → IsEntry (get k target) (get k source) (get k result))
          → IsMerge target source result

    -- An entry of the target, of the source and of the result: with none in the source it stays, with
    -- an object in each the result has a merge of the two, and otherwise the source's replaces it.
    pub data IsEntry : Option (Json F) → Option (Json F) → Option (Json F) → Type 0 where
      kept : (e : Option (Json F)) → IsEntry e none e
      replaced :
          (e : Option (Json F)) (v : Json F) → are_objects e v ≡ false → IsEntry e (some v) (some v)
      joined :
          (target source result : Fields F)
          → IsMerge target source result
          → IsEntry (some (object target)) (some (object source)) (some (object result))

  field-parts :
      (k : String) (v : Json F) (more : Fields F)
      → are_dicts (field k v more) ≡ true
      → (not (is_some (get k more)) ≡ true) × (is_deep v ≡ true) × (are_dicts more ≡ true)
  field-parts k v more h = all_three (not (is_some (get k more))) (is_deep v) (are_dicts more) h

  are_dicts-is_dict : (d : Fields F) → are_dicts d ≡ true → is_dict d ≡ true
  are_dicts-is_dict no_field h = refl
  are_dicts-is_dict (field k v more) h =
      let (once, deep, rest) = field-parts k v more h in
      both (not (is_some (get k more))) (is_dict more) once (are_dicts-is_dict more rest)

  IsEntries : Fields F → Type 0
  IsEntries d =
      (k : String) (v : Json F)
      → get k d ≡ some v
      → (e : Option (Json F)) → IsEntry e (some v) (some (merged e v))

  IsMerge-entries :
      (target source : Fields F)
      → is_dict source ≡ true
      → IsEntries source
      → IsMerge target source (deep_merge target source)
  unfolding IsEntries
  IsMerge-entries target source h each = by_keys λ k.
      let law = get-deep_merge k target source h in
      elim (Option-cases (get k source)) [
        | inl gone ↦
            let same : get k (deep_merge target source) ≡ get k target =
              ground (arith, law, gone) in
            rw (same, gone) (kept (get k target))
        | inr (v, there) ↦
            let put : get k (deep_merge target source) ≡ some (merged (get k target) v) =
              ground (arith, law, there) in
            rw (put, there) (each k v there (get k target))
      ]

  first_entry :
      (j : String) (w : Json F) (more : Fields F) (k : String) (v : Json F)
      → (k == j) ≡ true
      → get k (field j w more) ≡ some v
      → v ≡ w
  unfolding get
  first_entry j w more k v same there = ground arith

  later_entry :
      (j : String) (w : Json F) (more : Fields F) (k : String) (v : Json F)
      → (k == j) ≡ false
      → get k (field j w more) ≡ some v
      → get k more ≡ some v
  unfolding get
  later_entry j w more k v other there = ground arith

  mutual
    unfolding IsEntries get merged

    value-IsEntry :
        (e : Option (Json F)) (v : Json F)
        → is_deep v ≡ true
        → IsEntry e (some v) (some (merged e v))
    value-IsEntry (some (object d)) (object s) h =
        joined d s (deep_merge d s)
          (IsMerge-entries d s (are_dicts-is_dict s h) (fields-IsEntries s h))
    value-IsEntry e v h = replaced e v refl

    fields-IsEntries : (d : Fields F) → are_dicts d ≡ true → IsEntries d
    fields-IsEntries no_field h k v there e = absurd (ground arith)
    fields-IsEntries (field j w more) h k v there e =
        let (once, deep, rest) = field-parts j w more h in
        elim (Bool-cases (k == j)) [
          | inl same ↦
              let it : v ≡ w = first_entry j w more k v same there in rw it (value-IsEntry e w deep)
          | inr other ↦ fields-IsEntries more rest k v (later_entry j w more k v other there) e
        ]

  -- `deep_merge` of a source, whose dicts at every depth have each key once, into any target is their
  -- merge at every depth: under a key the result has what the target has, if the source has nothing
  -- there, a merge of the two entries, where both are objects, and else the entry of the source.
  pub deep_merge-IsMerge :
      (target source : Fields F)
      → are_dicts source ≡ true
      → IsMerge target source (deep_merge target source)
  deep_merge-IsMerge target source h =
      IsMerge-entries target source (are_dicts-is_dict source h) (fields-IsEntries source h)
