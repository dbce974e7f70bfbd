-- ===== src/Payment/Refunds.antt =====
-- What the mock provider of infra/plugins/payment/mock.py answers after its calls.
use fastapi_infra.Common.{
  string_eq, ℕ, String, false, Option, none, some, ◌≡◌, arith, Option-cases, Bool-cases, inl, inr,
  ◌==◌, if◌then◌else◌,
}
use fastapi_infra.Common.Int.{ℤ, is_nonpos}
use fastapi_infra.Common.Dict.{lookup, lookup-insert, lookup-insert_self}
use fastapi_infra.Common.Result.{ok}
use fastapi_infra.Payment.{
  PaymentRefund, MockPaymentProvider, create_checkout, create_refund, add_refund, get_checkout,
  get_payment_status,
}

module _ (upper : String → String) (serial : ℕ → String) where
  -- A checkout that was created is found again under its id, and its payment is pending.
  get-create_checkout :
      (amount : ℤ) (currency : String) (reference : Option String) (p : MockPaymentProvider)
      → let (c, p') = create_checkout upper serial amount currency reference p in
        (get_checkout c.id p' ≡ c) × (get_payment_status c.id p' ≡ "pending")
  unfolding create_checkout get_checkout get_payment_status
  get-create_checkout amount currency reference p =
      let (c, _) = create_checkout upper serial amount currency reference p in
      (
        ground (arith, lookup-insert_self c.id c p.checkouts),
        ground (arith, lookup-insert_self c.id "pending" p.statuses),
      )

  -- A refund that is made is of a positive amount, the one asked for, and in the currency of the
  -- checkout that it names, or else in the given one. It turns the status of that checkout to
  -- refunded and leaves the status of all others; where there is no such checkout, every status
  -- stays.
  pub create_refund-status :
      (checkout_id : String) (amount : ℤ) (currency : String) (reference : Option String)
      (p p' : MockPaymentProvider) (r : PaymentRefund)
      → create_refund upper serial checkout_id amount currency reference p ≡ (ok r, p')
      → (is_nonpos amount ≡ false)
        × (r.amount ≡ amount)
        × (r.currency ≡ elim (lookup checkout_id p.checkouts) [
          | none ↦ upper currency
          | some c ↦ upper c.currency
        ])
        × ((j : String)
            → get_payment_status j p' ≡ elim (lookup checkout_id p.checkouts) [
              | none ↦ get_payment_status j p
              | some c ↦ if j == checkout_id then "refunded" else get_payment_status j p
            ])
  unfolding create_refund add_refund get_payment_status
  create_refund-status checkout_id amount currency reference p p' r h =
      elim (Bool-cases (is_nonpos amount)) [
        | inl bad ↦ absurd (ground arith)
        | inr fine ↦ elim (Option-cases (lookup checkout_id p.checkouts)) [
          | inl missing ↦ (fine, ground arith, ground arith, λ j. ground arith)
          | inr (c, found) ↦ (
            fine,
            ground arith,
            ground arith,
            λ j. ground (arith, lookup-insert j checkout_id "refunded" p.statuses),
          )
        ]
      ]
