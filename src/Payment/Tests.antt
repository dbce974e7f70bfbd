-- ===== src/Payment/Tests.antt =====
-- Calls of the mock provider, and the theorems at them.
use fastapi_infra.Common.{
  string_eq, ℕ, String, false, none, some, [], ◌∷◌, ◌≡◌, refl, if◌then◌else◌, ◌==◌, pair_eq,
}
use fastapi_infra.Common.Int.{pos, is_nonpos}
use fastapi_infra.Common.Dict.{lookup, insert}
use fastapi_infra.Common.Result.{ok}
use fastapi_infra.Payment.{
  PaymentRefund, MockPaymentProvider, new_provider, create_checkout, create_refund, add_refund,
  get_checkout, get_payment_status,
}
use fastapi_infra.Payment.{PaymentCheckout, PaymentStore, get, chosen}
use fastapi_infra.Payment.Service.{Provider, Service, ask, service_create_checkout}
use fastapi_infra.Payment.Service
use fastapi_infra.Payment.Refunds

abbrev upper : String → String
upper s = s

abbrev serial : ℕ → String
serial n = "000001"

abbrev one : MockPaymentProvider
one = (create_checkout upper serial (pos 500) "EUR" none new_provider).1

abbrev refund : PaymentRefund
refund = record {
  id = "rf_mock_000001";
  checkout_id = "chk_mock_000001";
  amount = pos 200;
  currency = "EUR";
  status = "succeeded";
  reference = none;
}

abbrev two : MockPaymentProvider
two = (create_refund upper serial "chk_mock_000001" (pos 200) "USD" none one).1

refunded : create_refund upper serial "chk_mock_000001" (pos 200) "USD" none one ≡ (ok refund, two)
unfolding create_refund add_refund create_checkout lookup insert string_eq
refunded = refl

create_refund-status_example :
    (is_nonpos (pos 200) ≡ false)
    × (pos 200 ≡ pos 200)
    × (refund.currency ≡ elim (lookup "chk_mock_000001" one.checkouts) [
      | none ↦ upper "USD"
      | some c ↦ upper c.currency
    ])
    × ((j : String)
        → get_payment_status j two ≡ elim (lookup "chk_mock_000001" one.checkouts) [
          | none ↦ get_payment_status j one
          | some c ↦ if j == "chk_mock_000001" then "refunded" else get_payment_status j one
        ])
create_refund-status_example =
    Refunds.create_refund-status upper serial "chk_mock_000001" (pos 200) "USD" none one two refund
      refunded

-- The mock provider behind the service.
abbrev mock : Provider MockPaymentProvider
mock = record {
  create_checkout = λ amount currency reference w.
      let (c, w') = create_checkout upper serial amount currency reference w in (ok c, w');
  get_checkout = λ checkout_id w. (ok (get_checkout checkout_id w), w);
  get_payment_status = λ checkout_id w. (ok (get_payment_status checkout_id w), w);
  create_refund = λ checkout_id amount currency reference w.
      create_refund upper serial checkout_id amount currency reference w;
}

abbrev no_payments : PaymentStore
no_payments = record { checkouts = []; refunds = [] }

abbrev service : Service MockPaymentProvider
service = record {
  registry = record { default_provider = "mock"; providers = ("mock", mock) ∷ [] };
  store = some no_payments;
  world = new_provider;
}

abbrev first_checkout : PaymentCheckout
first_checkout = (create_checkout upper serial (pos 500) "EUR" none new_provider).0

abbrev served : Service MockPaymentProvider
served = (service_create_checkout none (pos 500) "EUR" none service).1

answered : service_create_checkout none (pos 500) "EUR" none service ≡ (ok first_checkout, served)
unfolding service_create_checkout ask get lookup string_eq
answered = refl

service_create_checkout-Stored_example :
    (store' : PaymentStore) × (served.store ≡ some store')
    × ((key : String × String)
        → lookup key store'.checkouts ≡ (
            if key == (chosen none service.registry.default_provider, first_checkout.id)
            then some first_checkout
            else lookup key no_payments.checkouts))
    × (store'.refunds ≡ no_payments.refunds)
service_create_checkout-Stored_example =
    Service.service_create_checkout-Stored none (pos 500) "EUR" none service served no_payments
      first_checkout refl answered
