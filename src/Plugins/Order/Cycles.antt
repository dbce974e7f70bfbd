-- ===== src/Plugins/Order/Cycles.antt =====
-- When `resolve_order` fails: exactly when some plugin needs itself through a chain of plugins.
use fastapi_infra.Common.{
  string_eq, ℕ, zero, suc, ◌≤◌, ◌<◌, String, List, [], ◌∷◌, contains, length, count_if, not, true,
  false, some, ◌≡◌, refl, ◌∙◌, arith, inl, inr, Bool-cases, Option-cases, if◌then◌else◌,
}
use fastapi_infra.Common.Dict.{Dict, keys, lookup, has_key, contains-keys}
use fastapi_infra.Common.Result.{Result, ok, err, ◌>>=◌, >>=-eq-err}
use fastapi_infra.Plugins.Contract.{PluginMetadata}
use fastapi_infra.Plugins.Order.{
  Walk, OrderError, circular, fresh, leave, visit, visit_each, visit_all, resolve_order,
}
use fastapi_infra.Plugins.Order.Walks.{
  Needs, IsSound, Visited, Visits, VisitedEach, Visited-guarded, visit-Visited, enter-IsSound,
}
use fastapi_infra.Plugins.Order.Sorted.{fresh-IsSound}

-- The names that are not under visit.
abbrev pub free : List String → List String → ℕ
free visiting = count_if (λ k. not (contains visiting k))

free-cons-le : (v ks : List String) (n : String) → free (n ∷ v) ks ≤ free v ks
free-cons-le v [] n = omega arith
free-cons-le v (k ∷ ks) n = ground (arith, free-cons-le v ks n)

free-cons-lt :
    (v ks : List String) (n : String)
    → contains ks n ≡ true
    → contains v n ≡ false
    → free (n ∷ v) ks < free v ks
free-cons-lt v [] n h i = cc
free-cons-lt v (k ∷ ks) n h i = ground (arith, free-cons-lt v ks n, free-cons-le v ks n)

free-nil-le : (ks : List String) → free [] ks ≤ length ks
free-nil-le [] = omega arith
free-nil-le (k ∷ ks) = omega (arith, free-nil-le ks)

length-keys {ℓ κ} : {K : Type ℓ} {V : Type κ} (d : Dict K V) → length (keys d) ≡ length d
length-keys [] = refl
length-keys (_ ∷ d) = omega (arith, length-keys d)

module _ {P : Type 0} (metadata : P → PluginMetadata) (plugins : Dict String P) where
  -- `m` needs `n` through one plugin or more.
  pub data Chain (m : String) : String → Type 0 where
    one : {n : String} → Needs metadata plugins m n → Chain m n
    more : {n d : String} → Chain m n → Needs metadata plugins n d → Chain m d

  -- A failure names a plugin that needs itself.
  abbrev pub Cyclic : OrderError → Type 0
  Cyclic e = (c : String) × (e ≡ circular c) × Chain c c

  abbrev Leads : List String → String → Type 0
  Leads visiting n = (m : String) → contains visiting m ≡ true → Chain m n

  abbrev Fails : ℕ → (String → Walk → Result OrderError Walk) → Type 0
  Fails fuel go =
      (n : String) (w : Walk) (e : OrderError)
      → IsSound metadata plugins w
      → has_key n plugins ≡ true
      → Leads w.visiting n
      → free w.visiting (keys plugins) < fuel
      → go n w ≡ err e
      → Cyclic e

  guarded-Fails :
      (fuel : ℕ) (go : String → Walk → Result OrderError Walk)
      → Fails fuel go
      → (d : String) (w : Walk) (e : OrderError) → IsSound metadata plugins w
      → (has_key d plugins ≡ true → Leads w.visiting d)
      → free w.visiting (keys plugins) < fuel
      → (if has_key d plugins then go d w else ok w) ≡ err e
      → Cyclic e
  guarded-Fails fuel go fails d w e s leads room h = elim (Bool-cases (has_key d plugins)) [
    | inl known ↦ fails d w e s known (leads known) room (rw known at h)
    | inr other ↦ absurd (ground arith)
  ]

  visit_each-Fails :
      (fuel : ℕ) (go : String → Walk → Result OrderError Walk)
      → Visits metadata plugins go
      → Fails fuel go
      → (ds : List String) (w : Walk) (e : OrderError) → IsSound metadata plugins w
      → ((d : String) → contains ds d ≡ true → has_key d plugins ≡ true → Leads w.visiting d)
      → free w.visiting (keys plugins) < fuel
      → visit_each metadata plugins go ds w ≡ err e
      → Cyclic e
  unfolding visit_each
  visit_each-Fails fuel go good fails [] w e s leads room h = cc
  visit_each-Fails fuel go good fails (d ∷ ds) w e s leads room h =
      let first = if has_key d plugins then go d w else ok w in
      elim (>>=-eq-err first (λ x. visit_each metadata plugins go ds x) h) [
        | inl now ↦ guarded-Fails fuel go fails d w e s (leads d (ground arith)) room now
        | inr (v, passed, later) ↦
            let step : VisitedEach metadata plugins (d ∷ []) w v =
              Visited-guarded metadata plugins go d w v good s passed in
            visit_each-Fails fuel go good fails ds v e step.sound
              (λ m i k. rw step.restored (leads m (ground arith) k)) (rw step.restored room) later
      ]

  visit-Fails_new :
      (fuel : ℕ) (n : String) (w : Walk) (p : P) (e : OrderError)
      → Fails fuel (visit metadata plugins fuel)
      → IsSound metadata plugins w
      → has_key n plugins ≡ true
      → Leads w.visiting n
      → free w.visiting (keys plugins) < suc fuel
      → contains w.visited n ≡ false
      → contains w.visiting n ≡ false
      → lookup n plugins ≡ some p
      → (visit_each metadata plugins
            (visit metadata plugins fuel)
            (metadata p).dependencies
            (record w { visiting = n ∷ w.visiting })
          >>= λ v. ok (leave n v))
        ≡ err e
      → Cyclic e
  visit-Fails_new fuel n w p e fails s known leads room new idle found h =
      let w1 : Walk = record w { visiting = n ∷ w.visiting } in
      elim (>>=-eq-err
        (visit_each metadata plugins (visit metadata plugins fuel) (metadata p).dependencies w1)
        (λ v. ok (leave n v)) h) [
          | inl loop ↦
              visit_each-Fails fuel (visit metadata plugins fuel)
                (visit-Visited metadata plugins fuel) fails (metadata p).dependencies w1 e
                (enter-IsSound metadata plugins n w s new)
                (λ d i k m under.
                  extend d (record { plugin = p; found = found; listed = i; known = k }) m under)
                (ground (arith, free-cons-lt w.visiting (keys plugins) n, contains-keys plugins n))
                loop
          | inr (v, _, last) ↦ absurd (ground arith)
        ]
    where
      extend : (d : String) → Needs metadata plugins n d → Leads (n ∷ w.visiting) d
      extend d needs m under = elim (string_eq.dec m n) [
        | yes same ↦ rw same (one needs)
        | no other ↦ more (leads m (ground arith)) needs
      ]

  visit-Fails : (fuel : ℕ) → Fails fuel (visit metadata plugins fuel)
  unfolding visit
  visit-Fails zero n w e s known leads room h = absurd (omega arith)
  visit-Fails (suc fuel) n w e s known leads room h = elim (Bool-cases (contains w.visited n)) [
    | inl old ↦ absurd (ground arith)
    | inr new ↦ elim (Bool-cases (contains w.visiting n)) [
      | inl busy ↦ (n, ground arith, leads n busy)
      | inr idle ↦ elim (Option-cases (lookup n plugins)) [
        | inl missing ↦ absurd (ground arith)
        | inr (p, found) ↦
            visit-Fails_new fuel n w p e (visit-Fails fuel) s known leads room new idle found
              (rw (new, idle, found) at h)
      ]
    ]
  ]

  visit_all-Fails :
      (fuel : ℕ) (go : String → Walk → Result OrderError Walk)
      → Visits metadata plugins go
      → Fails fuel go
      → (ns : List String) (w : Walk) (e : OrderError) → IsSound metadata plugins w
      → w.visiting ≡ []
      → ((n : String) → contains ns n ≡ true → has_key n plugins ≡ true)
      → length plugins < fuel
      → visit_all metadata plugins go ns w ≡ err e
      → Cyclic e
  unfolding visit_all
  visit_all-Fails fuel go good fails [] w e s idle known room h = cc
  visit_all-Fails fuel go good fails (n ∷ ns) w e s idle known room h =
      elim (>>=-eq-err (go n w) (λ x. visit_all metadata plugins go ns x) h) [
        | inl now ↦
            fails n w e s (known n (ground arith)) (rw idle (λ m i. absurd (ground arith)))
              (rw idle (omega (arith, free-nil-le (keys plugins), length-keys plugins))) now
        | inr (v, passed, later) ↦
            let step : Visited metadata plugins n w v = good n w v s passed in
            visit_all-Fails fuel go good fails ns v e step.sound (step.restored ∙ idle)
              (λ m i. known m (ground arith)) room later
      ]

  -- A failure of `resolve_order` is always the circular one, and the plugin that it names needs
  -- itself through a chain of plugins.
  pub resolve_order-Cyclic : (e : OrderError) → resolve_order metadata plugins ≡ err e → Cyclic e
  unfolding resolve_order
  resolve_order-Cyclic e h =
      let fuel = suc (length plugins) in
      let go = visit metadata plugins fuel in
      elim (>>=-eq-err (visit_all metadata plugins go (keys plugins) fresh) (λ w. ok w.resolved)
        h) [
          | inl loop ↦
              visit_all-Fails fuel go (visit-Visited metadata plugins fuel) (visit-Fails fuel)
                (keys plugins) fresh e (fresh-IsSound metadata plugins) refl
                (λ n i. ground (arith, contains-keys plugins n)) (omega arith) loop
          | inr (w, _, last) ↦ absurd (ground arith)
        ]
