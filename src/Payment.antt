-- ===== src/Payment.antt =====
-- The mock provider, the registry, the service and the store in memory of infra/plugins/payment.
-- `upper` is `str.upper`, and `serial` prints a number with six digits.
use fastapi_infra.Common.{
  string_eq, pair_eq, ℕ, suc, String, ◌<>◌, Bool, true, false, Option, none, some, [],
  if◌then◌else◌,
}
use fastapi_infra.Common.Int.{ℤ, is_nonpos}
use fastapi_infra.Common.Dict.{Dict, lookup, insert}
use fastapi_infra.Common.Result.{Result, ok, err, ◌>>=◌}
use fastapi_infra.Common.Text.{is_blank}
pub mod Refunds
pub mod Service
mod Tests

pub record PaymentCheckout : Type 0 where
  pub id : String
  pub amount : ℤ
  pub currency : String
  pub reference : Option String
  pub status : String
  pub url : String

pub record PaymentRefund : Type 0 where
  pub id : String
  pub checkout_id : String
  pub amount : ℤ
  pub currency : String
  pub status : String
  pub reference : Option String

pub record MockPaymentProvider : Type 0 where
  pub next_id : ℕ
  pub next_refund_id : ℕ
  pub checkouts : Dict String PaymentCheckout
  pub refunds : Dict String PaymentRefund
  pub statuses : Dict String String

pub data PaymentError : Type 0 where
  amount_not_positive : PaymentError
  unknown_provider : String → PaymentError

abbrev pub new_provider : MockPaymentProvider
new_provider = record {
  next_id = 1;
  next_refund_id = 1;
  checkouts = [];
  refunds = [];
  statuses = [];
}

unfoldable pub get_payment_status : String → MockPaymentProvider → String
get_payment_status checkout_id p = elim (lookup checkout_id p.statuses) [
  | none ↦ "unknown"
  | some status ↦ status
]

unfoldable pub get_checkout : String → MockPaymentProvider → PaymentCheckout
unfolding get_payment_status
get_checkout checkout_id p = elim (lookup checkout_id p.checkouts) [
  | some checkout ↦ checkout
  | none ↦ record {
    id = checkout_id;
    amount = ℤ.pos 0;
    currency = "";
    reference = none;
    status = get_payment_status checkout_id p;
    url = "mock://checkout/" <> checkout_id;
  }
]

module _ (upper : String → String) (serial : ℕ → String) where
  unfoldable pub create_checkout :
      ℤ → String → Option String → MockPaymentProvider → PaymentCheckout × MockPaymentProvider
  create_checkout amount currency reference p =
      let checkout_id = "chk_mock_" <> serial p.next_id in
      let checkout : PaymentCheckout = record {
        id = checkout_id;
        amount = amount;
        currency = upper currency;
        reference = reference;
        status = "pending";
        url = "mock://checkout/" <> checkout_id;
      } in
      (
        checkout,
        record p {
          next_id = suc p.next_id;
          checkouts = insert checkout_id checkout p.checkouts;
          statuses = insert checkout_id "pending" p.statuses;
        },
      )

  -- `create_refund` behind its look-up of the checkout
  unfoldable pub add_refund :
      String
      → ℤ
      → String
      → Option String
      → Option PaymentCheckout
      → MockPaymentProvider
      → PaymentRefund × MockPaymentProvider
  add_refund checkout_id amount currency reference none p =
      let refund_id = "rf_mock_" <> serial p.next_refund_id in
      let refund : PaymentRefund = record {
        id = refund_id;
        checkout_id = checkout_id;
        amount = amount;
        currency = upper currency;
        status = "unknown_checkout";
        reference = reference;
      } in
      (
        refund,
        record p {
          next_refund_id = suc p.next_refund_id;
          refunds = insert refund_id refund p.refunds;
        },
      )
  add_refund checkout_id amount currency reference (some checkout) p =
      let refund_id = "rf_mock_" <> serial p.next_refund_id in
      let refund : PaymentRefund = record {
        id = refund_id;
        checkout_id = checkout_id;
        amount = amount;
        currency = upper checkout.currency;
        status = "succeeded";
        reference = reference;
      } in
      (
        refund,
        record p {
          next_refund_id = suc p.next_refund_id;
          refunds = insert refund_id refund p.refunds;
          statuses = insert checkout_id "refunded" p.statuses;
        },
      )

  unfoldable pub create_refund :
      String
      → ℤ
      → String
      → Option String
      → MockPaymentProvider
      → Result PaymentError PaymentRefund × MockPaymentProvider
  unfolding add_refund
  create_refund checkout_id amount currency reference p =
      if is_nonpos amount
      then (err amount_not_positive, p)
      else (let (refund, p') =
            add_refund checkout_id amount currency reference (lookup checkout_id p.checkouts) p in
          (ok refund, p'))

-- `InMemoryPaymentStore`
pub record PaymentStore : Type 0 where
  pub checkouts : Dict (String × String) PaymentCheckout
  pub refunds : Dict (String × String) PaymentRefund

unfoldable pub save_checkout : String → PaymentCheckout → PaymentStore → PaymentStore
save_checkout provider checkout s = record s {
  checkouts = insert (provider, checkout.id) checkout s.checkouts;
}

unfoldable pub save_refund : String → PaymentRefund → PaymentStore → PaymentStore
save_refund provider refund s = record s { refunds = insert (provider, refund.id) refund s.refunds }

-- `PaymentProviderRegistry`, by the names of the providers
pub record Registry (V : Type 0) : Type 0 where
  pub default_provider : String
  pub providers : Dict String V

-- `name or self.default_provider`
abbrev pub chosen : Option String → String → String
chosen none default = default
chosen (some name) default = if is_blank name then default else name

module _ {V : Type 0} where
  unfoldable pub register : String → V → Bool → Registry V → Registry V
  register name provider as_default r = record {
    default_provider = if as_default then name else r.default_provider;
    providers = insert name provider r.providers;
  }

  unfoldable pub get : Option String → Registry V → Result PaymentError (String × V)
  get name r =
      let provider_name = chosen name r.default_provider in
      elim (lookup provider_name r.providers) [
        | none ↦ err (unknown_provider provider_name)
        | some provider ↦ ok (provider_name, provider)
      ]
