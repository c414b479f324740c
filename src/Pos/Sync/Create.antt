-- ===== src/Pos/Sync/Create.antt =====
-- The rest of `_create_sale_internal` of services/pos-service/app/services/sale_service.py: the amounts,
-- the row of the sale, and the rows of its lines.
use foodo.Prelude.{
  ℕ, ◌+◌, ℤ, String, Bool, ◌||◌, Option, none, some, List, [], ◌∷◌, ◌++◌, ltb, Exec, Result, ok,
  err, pure, raise_if, gets, modify, ◌>>=◌, ◌>>◌,
}
use foodo.Pos.Decimal.{Decimal, decimal_zero, add, sub, mul, quantize, stored}
use foodo.Pos.Tax.{Response, DecodeError, CacheEntry, get_store_tax}
use foodo.Pos.Model.{
  Sale, SaleStatus, completed, voided, refunded, OrderType, dine_in, takeaway, delivery,
  DeliveryStatus, pending, SaleLineItem, Session, PosError,
}
use foodo.Pos.Model.{Tables}
use foodo.Pos.Sync.Validate.{SaleLineItemInput, SaleSyncInput, validate_sale}

-- The session, and the cache of the tax policy beside it.
pub record Till : Type 0 where
  pub db : Session
  pub tax_cache : List CacheEntry

unfoldable pub subtotal_of : List SaleLineItemInput → Decimal
subtotal_of [] = decimal_zero
subtotal_of (l ∷ ls) = add (mul l.quantity l.unit_price) (subtotal_of ls)

-- Hours and minutes of the settings, in microseconds: 48 hours and 5 minutes.
abbrev pub drift_past : ℕ
drift_past = 172800000000

abbrev pub drift_future : ℕ
drift_future = 300000000

unfoldable pub detect_time_drift : ℕ → ℕ → Bool
detect_time_drift occurred_at now =
    ltb (occurred_at + drift_past) now || ltb (now + drift_future) occurred_at

unfoldable pub first_delivery_status : OrderType → Option DeliveryStatus
first_delivery_status delivery = some pending
first_delivery_status dine_in = none
first_delivery_status takeaway = none

unfoldable pub reason_of : SaleStatus → Option String → Option String
reason_of completed r = none
reason_of voided r = r
reason_of refunded r = r

unfoldable pub moment_if_voided : SaleStatus → ℕ → Option ℕ
moment_if_voided voided t = some t
moment_if_voided completed t = none
moment_if_voided refunded t = none

unfoldable pub moment_if_refunded : SaleStatus → ℕ → Option ℕ
moment_if_refunded refunded t = some t
moment_if_refunded completed t = none
moment_if_refunded voided t = none

-- The row, with its amounts. The delivery fee is added as it was rounded.
unfoldable pub sale_of : ℕ → ℕ → Option ℕ → ℕ → Decimal → SaleSyncInput → Sale
unfolding subtotal_of quantize
sale_of id business_id actor_id now tax_rate i =
    let subtotal = subtotal_of i.line_items in
    let tax_amount = mul subtotal tax_rate in
    let fee = quantize 2 i.delivery_fee in
    let total =
      add (add (sub subtotal i.discount_amount) tax_amount)
        (record { coefficient = fee; places = 2 }) in
    record {
      id = id;
      business_id = business_id;
      store_id = i.store_id;
      client_sale_id = i.client_sale_id;
      status = i.status;
      subtotal = quantize 2 subtotal;
      discount_amount = quantize 2 i.discount_amount;
      tax_amount = quantize 2 tax_amount;
      delivery_fee = fee;
      total = quantize 2 total;
      payment_method = i.payment_method;
      actor_id = actor_id;
      customer_id = i.customer_id;
      order_type = i.order_type;
      courier_id = i.courier_id;
      delivery_address_line1 = i.delivery_address_line1;
      delivery_recipient_phone = i.delivery_recipient_phone;
      delivery_note = i.delivery_note;
      delivery_status = first_delivery_status i.order_type;
      occurred_at = i.occurred_at;
      device_sequence = i.device_sequence;
      is_time_suspect = detect_time_drift i.occurred_at now;
      void_client_action_id = none;
      refund_client_action_id = none;
      voided_at = moment_if_voided i.status i.occurred_at;
      refunded_at = moment_if_refunded i.status i.occurred_at;
      void_or_refund_reason = reason_of i.status i.void_or_refund_reason;
    }

abbrev cost_of : Option Decimal → Option ℤ
cost_of none = none
cost_of (some c) = some (quantize 4 c)

unfoldable pub line_of : ℕ → SaleLineItemInput → SaleLineItem
unfolding quantize stored
line_of sale_id l = record {
  sale_id = sale_id;
  item_id = l.item_id;
  quantity = stored 3 l.quantity;
  unit_price = quantize 2 l.unit_price;
  discount_amount = quantize 2 l.discount_amount;
  line_total = quantize 2 (sub (mul l.quantity l.unit_price) l.discount_amount);
  unit_cost = cost_of l.unit_cost;
}

unfoldable pub lines_for : ℕ → List SaleLineItemInput → List SaleLineItem
unfolding line_of
lines_for sale_id [] = []
lines_for sale_id (l ∷ ls) = line_of sale_id l ∷ lines_for sale_id ls

-- The two flushes: the sale, then its lines.
unfoldable pub add_sale : Sale → List SaleLineItemInput → Session → Session
unfolding lines_for
add_sale v ls s = record s {
  rows = record s.rows {
    sales = s.sales ++ v ∷ [];
    line_items = s.line_items ++ lines_for v.id ls;
    next_id = s.next_id + 1;
  };
}

-- Why a sale is not created: a check, the refusal of the database, or an answer about the tax that
-- cannot be decoded.
pub data SyncError : Type 0 where
  invalid : PosError → SyncError
  integrity : SyncError
  undecodable : DecodeError → SyncError

abbrev rate_or_error : Result DecodeError (Bool × Decimal) → Result SyncError Decimal
rate_or_error (ok found) = ok found.1
rate_or_error (err e) = err (undecodable e)

abbrev with_error : {A : Type 0} → Result PosError A → Result SyncError A
with_error (ok a) = ok a
with_error (err e) = err (invalid e)

-- A method of the session alone.
abbrev on_db : {A : Type 0} → Exec Session PosError A → Exec Till SyncError A
on_db m t = let (r, s) = m t.db in (with_error r, record t { db = s })

module _ (lookup : ℕ → ℕ → ℕ → Option String → Response) (default_rate : Decimal)
    (is_refused : Sale → Tables → Bool) where
  -- The look-up of the rate, which keeps what it fetched.
  unfoldable pub tax_rate_of : ℕ → ℕ → Option String → ℕ → Exec Till SyncError Decimal
  tax_rate_of business_id store_id authorization now t =
      let (found, cache) =
        get_store_tax lookup default_rate now business_id store_id authorization t.tax_cache in
      (rate_or_error found, record t { tax_cache = cache })

  unfoldable pub create_sale :
      ℕ → Option ℕ → Option String → ℕ → SaleSyncInput → Exec Till SyncError Sale
  unfolding tax_rate_of validate_sale
  create_sale business_id actor_id authorization now i = do
    on_db (validate_sale business_id i)
    tax_rate ← tax_rate_of business_id i.store_id authorization now
    id ← gets (λ t. t.db.next_id)
    let v = sale_of id business_id actor_id now tax_rate i
    rows ← gets (λ t. t.db.rows)
    raise_if (is_refused v rows) integrity
    modify (λ t. record t { db = add_sale v i.line_items t.db })
    pure v
