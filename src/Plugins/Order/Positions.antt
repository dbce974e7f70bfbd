-- ===== src/Plugins/Order/Positions.antt =====
-- A start order rules cycles out: a chain of needs goes strictly down in the order.
use fastapi_infra.Common.{
  string_eq, ℕ, suc, ◌<◌, String, List, [], ◌∷◌, contains, true, ◌≡◌, ◌==◌, arith, ◌⊎◌, inl,
  if◌then◌else◌,
}
use fastapi_infra.Common.Dict.{Dict}
use fastapi_infra.Common.Result.{ok}
use fastapi_infra.Plugins.Contract.{PluginMetadata}
use fastapi_infra.Plugins.Order.{resolve_order}
use fastapi_infra.Plugins.Order.Walks.{Needs, Ordered}
use fastapi_infra.Plugins.Order.Sorted.{IsStartOrder, resolve_order-IsStartOrder}
use fastapi_infra.Plugins.Order.Cycles.{Chain, one, more}

-- How many names stand before `n`.
abbrev position : List String → String → ℕ
position [] n = 0
position (x ∷ xs) n = let rest = position xs n in if n == x then 0 else suc rest

module _ {P : Type 0} (metadata : P → PluginMetadata) (plugins : Dict String P) where
  position_down :
      (seen ns : List String) (n d : String)
      → Ordered metadata plugins seen ns
      → contains ns n ≡ true
      → Needs metadata plugins n d
      → (contains seen d ≡ true) ⊎ (position ns d < position ns n)
  position_down seen [] n d o i r = absurd (ground arith)
  position_down seen (x ∷ xs) n d o i r = elim (string_eq.dec n x) [
    | yes here ↦ inl (o.0 d (rw here at r))
    | no there ↦ ground (arith, position_down (x ∷ seen) xs n d o.1 (ground arith) r)
  ]

  module _ (order : List String) (s : IsStartOrder metadata plugins order) where
    position-Needs :
        (n d : String) → Needs metadata plugins n d → position order d < position order n
    position-Needs n d r =
        ground (arith, position_down [] order n d s.ordered, s.complete n, r.found)

    position-Chain :
        {m n : String} → Chain metadata plugins m n → position order n < position order m
    position-Chain {m} {n} (one r) = position-Needs m n r
    position-Chain {m} (more {n = k} {d = n} c r) =
        omega (arith, position-Chain c, position-Needs k n r)

  -- Where `resolve_order` returns an order, no plugin needs itself, directly or through others.
  pub resolve_order_acyclic :
      (order : List String) (c : String)
      → resolve_order metadata plugins ≡ ok order
      → ¬ Chain metadata plugins c c
  resolve_order_acyclic order c h chain =
      let down : position order c < position order c =
        position-Chain order (resolve_order-IsStartOrder metadata plugins order h) chain in
      omega arith
