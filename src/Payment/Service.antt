-- ===== src/Payment/Service.antt =====
-- `PaymentService` of infra/plugins/payment/service.py.
use fastapi_infra.Common.{
  string_eq, pair_eq, String, Option, none, some, ◌≡◌, arith, Option-cases, inl, inr, if◌then◌else◌,
  ◌==◌,
}
use fastapi_infra.Common.Int.{ℤ}
use fastapi_infra.Common.Dict.{lookup, lookup-insert}
use fastapi_infra.Common.Result.{Result, ok, err, Result-cases}
use fastapi_infra.Payment.{
  PaymentCheckout, PaymentRefund, PaymentError, PaymentStore, Registry, get, chosen, save_checkout,
  save_refund,
}

-- What `PaymentService` needs of a provider. A provider may raise, and its world is `W`.
pub record Provider (W : Type 0) : Type 0 where
  pub create_checkout : ℤ → String → Option String → W → Result PaymentError PaymentCheckout × W
  pub get_checkout : String → W → Result PaymentError PaymentCheckout × W
  pub get_payment_status : String → W → Result PaymentError String × W
  pub create_refund :
      String → ℤ → String → Option String → W → Result PaymentError PaymentRefund × W

-- `PaymentService` between the world of its providers and its store, which may be missing
pub record Service (W : Type 0) : Type 0 where
  pub registry : Registry (Provider W)
  pub store : Option PaymentStore
  pub world : W

abbrev pub kept :
    {A : Type 0} → (A → PaymentStore → PaymentStore) → A → Option PaymentStore → Option PaymentStore
kept save a none = none
kept save a (some store) = some (save a store)

module _ {W : Type 0} where
  -- A call of the chosen provider, whose answer is saved; an exception is passed on.
  unfoldable pub ask :
      {A : Type 0}
      → Option String
      → (String → A → PaymentStore → PaymentStore)
      → (Provider W → W → Result PaymentError A × W)
      → Service W
      → Result PaymentError A × Service W
  ask provider save call s = elim (get provider s.registry) [
    | err e ↦ (err e, s)
    | ok (name, chosen_provider) ↦
        let (answer, w) = call chosen_provider s.world in
        elim answer [
          | err e ↦ (err e, record s { world = w })
          | ok a ↦ (ok a, record s { world = w; store = kept (save name) a s.store })
        ]
  ]

  unfoldable pub service_create_checkout :
      Option String
      → ℤ
      → String
      → Option String
      → Service W
      → Result PaymentError PaymentCheckout × Service W
  unfolding ask save_checkout
  service_create_checkout provider amount currency reference =
      ask provider save_checkout λ p. p.create_checkout amount currency reference

  unfoldable pub service_get_checkout :
      Option String → String → Service W → Result PaymentError PaymentCheckout × Service W
  unfolding ask save_checkout
  service_get_checkout provider checkout_id =
      ask provider save_checkout λ p. p.get_checkout checkout_id

  unfoldable pub service_get_payment_status :
      Option String → String → Service W → Result PaymentError String × Service W
  unfolding ask
  service_get_payment_status provider checkout_id =
      ask provider (λ _ _ store. store) λ p. p.get_payment_status checkout_id

  unfoldable pub service_create_refund :
      Option String
      → String
      → ℤ
      → String
      → Option String
      → Service W
      → Result PaymentError PaymentRefund × Service W
  unfolding ask save_refund
  service_create_refund provider checkout_id amount currency reference =
      ask provider save_refund λ p. p.create_refund checkout_id amount currency reference

  get-chosen :
      (provider : Option String) (r : Registry (Provider W)) (name : String) (p : Provider W)
      → get provider r ≡ ok (name, p)
      → name ≡ chosen provider r.default_provider
  unfolding get
  get-chosen provider r name p h =
      elim (Option-cases (lookup (chosen provider r.default_provider) r.providers)) [
        | inl missing ↦ absurd (ground arith)
        | inr (q, found) ↦ ground arith
      ]

  -- What the service answers is what it has stored: a checkout that `create_checkout` gives is found
  -- in the store under the chosen provider's name and its own id, under every other key what was
  -- there before, and the refunds stay.
  pub service_create_checkout-Stored :
      (provider : Option String) (amount : ℤ) (currency : String) (reference : Option String)
      (s s' : Service W) (store : PaymentStore) (c : PaymentCheckout)
      → s.store ≡ some store
      → service_create_checkout provider amount currency reference s ≡ (ok c, s')
      → (store' : PaymentStore) × (s'.store ≡ some store')
        × ((key : String × String)
            → lookup key store'.checkouts ≡ (
                if key == (chosen provider s.registry.default_provider, c.id)
                then some c
                else lookup key store.checkouts))
        × (store'.refunds ≡ store.refunds)
  unfolding service_create_checkout ask save_checkout
  service_create_checkout-Stored provider amount currency reference s s' store c here h =
      elim (Result-cases (get provider s.registry)) [
        | inr (e, unknown) ↦ absurd (ground arith)
        | inl ((name, p), known) ↦
            elim (Result-cases (p.create_checkout amount currency reference s.world).0) [
              | inr (e, refused) ↦ absurd (ground arith)
              | inl (a, given) ↦
                  let called = get-chosen provider s.registry name p known in
                  let key : String × String = (chosen provider s.registry.default_provider, c.id) in
                  (
                    save_checkout (chosen provider s.registry.default_provider) c store,
                    ground (arith, called),
                    λ other. lookup-insert other key c store.checkouts,
                    ground arith,
                  )
            ]
      ]
