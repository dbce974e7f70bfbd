-- ===== src/Plugins/Order/Walks.antt =====
-- What one call of `visit` does to the variables of the walk.
use fastapi_infra.Common.{
  string_eq, ℕ, zero, suc, String, List, [], ◌∷◌, ◌++◌, some, contains, true, false, ◌≡◌, refl, ◌∙◌,
  if◌then◌else◌, ◌||◌, arith, Bool-cases, Option-cases, inl, inr, contains-append,
}
use fastapi_infra.Common.Dict.{Dict, lookup, has_key}
use fastapi_infra.Common.Result.{Result, ok, ◌>>=◌, >>=-eq-ok}
use fastapi_infra.Plugins.Contract.{PluginMetadata}
use fastapi_infra.Plugins.Order.{Walk, OrderError, leave, visit, visit_each}

-- No name stands twice.
abbrev pub Distinct : List String → Type 0
Distinct [] = Unit
Distinct (x ∷ xs) = (contains xs x ≡ false) × Distinct xs

pub Distinct-snoc :
    (xs : List String) (n : String) → contains xs n ≡ false → Distinct xs → Distinct (xs ++ n ∷ [])
Distinct-snoc [] n h d = (refl, tt)
Distinct-snoc (x ∷ xs) n h d =
    (ground (arith, contains-append xs (n ∷ []) x), Distinct-snoc xs n (ground arith) d.1)

module _ {P : Type 0} (metadata : P → PluginMetadata) (plugins : Dict String P) where
  -- `d` is a dependency of the plugin `n`, and is a plugin itself.
  pub record Needs (n d : String) : Type 0 where
    pub plugin : P
    pub found : lookup n plugins ≡ some plugin
    pub listed : contains (metadata plugin).dependencies d ≡ true
    pub known : has_key d plugins ≡ true

  -- Every plugin of the list comes after the plugins that it needs.
  abbrev pub Ordered : List String → List String → Type 0
  Ordered seen [] = Unit
  Ordered seen (n ∷ ns) =
      ((d : String) → Needs n d → contains seen d ≡ true) × Ordered (n ∷ seen) ns

  pub Ordered-snoc :
      (seen ns : List String) (n : String)
      → Ordered seen ns
      → ((d : String) → Needs n d → (contains seen d || contains ns d) ≡ true)
      → Ordered seen (ns ++ n ∷ [])
  Ordered-snoc seen [] n o h = (λ d r. ground (arith, h d r), tt)
  Ordered-snoc seen (m ∷ ms) n o h =
      (o.0, Ordered-snoc (m ∷ seen) ms n o.1 (λ d r. ground (arith, h d r)))

  -- What holds of the walk between two calls.
  pub record IsSound (w : Walk) : Type 0 where
    pub same : (n : String) → contains w.visited n ≡ contains w.resolved n
    pub ordered : Ordered [] w.resolved
    pub distinct : Distinct w.resolved
    pub known : (n : String) → contains w.resolved n ≡ true → has_key n plugins ≡ true
    pub apart : (n : String) → contains w.visiting n ≡ true → contains w.visited n ≡ false

  -- What a call that returns has done.
  pub record Visited (n : String) (w w' : Walk) : Type 0 where
    pub sound : IsSound w'
    pub restored : w'.visiting ≡ w.visiting
    pub done : contains w'.visited n ≡ true
    pub grows : (m : String) → contains w.visited m ≡ true → contains w'.visited m ≡ true

  abbrev pub Visits : (String → Walk → Result OrderError Walk) → Type 0
  Visits go = (n : String) (w w' : Walk) → IsSound w → go n w ≡ ok w' → Visited n w w'

  pub record VisitedEach (ds : List String) (w w' : Walk) : Type 0 where
    pub sound : IsSound w'
    pub restored : w'.visiting ≡ w.visiting
    pub done :
        (d : String)
        → contains ds d ≡ true
        → has_key d plugins ≡ true
        → contains w'.visited d ≡ true
    pub grows : (m : String) → contains w.visited m ≡ true → contains w'.visited m ≡ true

  pub Visited-guarded :
      (go : String → Walk → Result OrderError Walk) (d : String) (w w' : Walk)
      → Visits go
      → IsSound w
      → (if has_key d plugins then go d w else ok w) ≡ ok w'
      → VisitedEach (d ∷ []) w w'
  Visited-guarded go d w w' good s h = elim (Bool-cases (has_key d plugins)) [
    | inl known ↦
        let v : Visited d w w' = good d w w' s (rw known at h) in
        record {
          sound = v.sound;
          restored = v.restored;
          done = λ m i k. ground (arith, v.done);
          grows = v.grows;
        }
    | inr other ↦
        let e : w' ≡ w = ground arith in
        rw e (record { sound = s; restored = refl; done = λ m i k. ground arith; grows = λ m g. g })
  ]

  pub visit_each-Visited :
      (go : String → Walk → Result OrderError Walk)
      → Visits go
      → (ds : List String) (w w' : Walk) → IsSound w
      → visit_each metadata plugins go ds w ≡ ok w'
      → VisitedEach ds w w'
  unfolding visit_each
  visit_each-Visited go good [] w w' s h =
      let e : w' ≡ w = ground arith in
      rw e (record { sound = s; restored = refl; done = λ d i k. ground arith; grows = λ m g. g })
  visit_each-Visited go good (d ∷ ds) w w' s h =
      let (v, first, others) =
        >>=-eq-ok (if has_key d plugins then go d w else ok w)
          (λ x. visit_each metadata plugins go ds x) h in
      let one : VisitedEach (d ∷ []) w v = Visited-guarded go d w v good s first in
      let rest : VisitedEach ds v w' = visit_each-Visited go good ds v w' one.sound others in
      record {
        sound = rest.sound;
        restored = rest.restored ∙ one.restored;
        done = λ m i k. ground (arith, one.done m, rest.done m, rest.grows m);
        grows = λ m g. rest.grows m (one.grows m g);
      }

  -- The state on entry to the loop over the dependencies.
  pub enter-IsSound :
      (n : String) (w : Walk)
      → IsSound w
      → contains w.visited n ≡ false
      → IsSound (record w { visiting = n ∷ w.visiting })
  enter-IsSound n w s h = record {
    same = s.same;
    ordered = s.ordered;
    distinct = s.distinct;
    known = s.known;
    apart = λ m i. ground (arith, s.apart m);
  }

  leave-IsSound :
      (n : String) (p : P) (v : Walk) (rest : List String)
      → IsSound v
      → v.visiting ≡ n ∷ rest
      → contains rest n ≡ false
      → lookup n plugins ≡ some p
      → ((d : String) → Needs n d → contains v.visited d ≡ true)
      → IsSound (leave n v)
  leave-IsSound n p v rest s e fresh found needs =
      let out : contains v.resolved n ≡ false = ground (arith, s.same n, s.apart n) in
      record {
        same = λ m. ground (arith, s.same m, contains-append v.resolved (n ∷ []) m);
        ordered =
            Ordered-snoc [] v.resolved n s.ordered (λ d r. ground (arith, s.same d, needs d r));
        distinct = Distinct-snoc v.resolved n out s.distinct;
        known = λ m i. ground (arith, s.known m, contains-append v.resolved (n ∷ []) m);
        apart = λ m i. ground (arith, s.apart m);
      }

  visit-Visited_new :
      (fuel : ℕ) (n : String) (w w' : Walk) (p : P)
      → Visits (visit metadata plugins fuel)
      → IsSound w
      → contains w.visited n ≡ false
      → contains w.visiting n ≡ false
      → lookup n plugins ≡ some p
      → (visit_each metadata plugins
            (visit metadata plugins fuel)
            (metadata p).dependencies
            (record w { visiting = n ∷ w.visiting })
          >>= λ v. ok (leave n v))
        ≡ ok w'
      → Visited n w w'
  visit-Visited_new fuel n w w' p good s fresh idle found h =
      let w1 : Walk = record w { visiting = n ∷ w.visiting } in
      let (v, loop, last) =
        >>=-eq-ok
          (visit_each metadata plugins (visit metadata plugins fuel) (metadata p).dependencies w1)
          (λ x. ok (leave n x)) h in
      let each : VisitedEach (metadata p).dependencies w1 v =
        visit_each-Visited (visit metadata plugins fuel) good (metadata p).dependencies w1 v
          (enter-IsSound n w s fresh) loop in
      let e : w' ≡ leave n v = ground arith in
      let needs : (d : String) → Needs n d → contains v.visited d ≡ true =
        λ d r. each.done d (ground (arith, r.found, r.listed)) r.known in
      rw e (record {
        sound = leave-IsSound n p v w.visiting each.sound each.restored idle found needs;
        restored = ground (arith, each.restored);
        done = ground arith;
        grows = λ m g. ground (arith, each.grows m g);
      })

  pub visit-Visited : (fuel : ℕ) → Visits (visit metadata plugins fuel)
  unfolding visit
  visit-Visited zero n w w' s h = cc
  visit-Visited (suc fuel) n w w' s h = elim (Bool-cases (contains w.visited n)) [
    | inl old ↦
        let e : w' ≡ w = ground arith in
        rw e (record { sound = s; restored = refl; done = old; grows = λ m g. g })
    | inr new ↦ elim (Bool-cases (contains w.visiting n)) [
      | inl busy ↦ absurd (ground arith)
      | inr idle ↦ elim (Option-cases (lookup n plugins)) [
        | inl missing ↦ absurd (ground arith)
        | inr (p, found) ↦
            visit-Visited_new fuel n w w' p (visit-Visited fuel) s new idle found
              (rw (new, idle, found) at h)
      ]
    ]
  ]
