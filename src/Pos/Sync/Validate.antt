-- ===== src/Pos/Sync/Validate.antt =====
-- The inputs of a synchronised sale, in services/pos-service/app/schemas/sales.py and line_items.py, and
-- the checks at the start of `_create_sale_internal` of
-- services/pos-service/app/services/sale_service.py.
use text.Mathlib.Text.{◌==◌ as str_eq}
use foodo.Prelude.{
  ℕ, ℤ, pos, String, Bool, false, not, ◌||◌, Option, none, some, List, [], ◌∷◌, ◌==◌, ltb_ℤ,
  if◌then◌else◌, is_some, Exec, ok, pure, raise, raise_if, ◌>>◌,
}
use foodo.Pos.Decimal.{Decimal, quantize}
use foodo.Pos.Model.{
  SaleStatus, completed, voided, refunded, PaymentMethod, OrderType, dine_in, takeaway, delivery,
  Customer, Session, PosError, reason_required, customer_unknown, customer_deleted,
  address_required, courier_not_allowed, address_not_allowed, phone_not_allowed, note_not_allowed,
  fee_not_allowed,
}
use foodo.Pos.Couriers.{validate_courier_for_sale}

pub record SaleLineItemInput : Type 0 where
  pub item_id : ℕ
  pub quantity : Decimal
  pub unit_price : Decimal
  pub discount_amount : Decimal
  pub unit_cost : Option Decimal

pub record SaleSyncInput : Type 0 where
  pub client_sale_id : String
  pub status : SaleStatus
  pub store_id : ℕ
  pub line_items : List SaleLineItemInput
  pub discount_amount : Decimal
  pub payment_method : PaymentMethod
  pub customer_id : Option ℕ
  pub occurred_at : ℕ
  pub device_sequence : Option ℤ
  pub void_or_refund_reason : Option String
  pub order_type : OrderType
  pub courier_id : Option ℕ
  pub delivery_address_line1 : Option String
  pub delivery_recipient_phone : Option String
  pub delivery_note : Option String
  pub delivery_fee : Decimal

-- Not None and not empty.
unfoldable pub is_filled : Option String → Bool
is_filled none = false
is_filled (some t) = not (str_eq t "")

unfoldable pub needs_reason : SaleStatus → Option String → Bool
unfolding is_filled
needs_reason completed reason = false
needs_reason voided reason = not (is_filled reason)
needs_reason refunded reason = not (is_filled reason)

unfoldable pub find_customer : ℕ → List Customer → Option Customer
find_customer i [] = none
find_customer i (c ∷ cs) = if c.id == i then some c else find_customer i cs

unfoldable pub check_customer : ℕ → Option Customer → Exec Session PosError (Unit {0})
check_customer business_id none = raise customer_unknown
check_customer business_id (some c) =
    if c.business_id == business_id
    then (if c.is_deleted then raise customer_deleted else pure tt)
    else raise customer_unknown

-- `_validate_customer_belongs_to_business`, for a sale that names a customer.
unfoldable pub validate_customer : ℕ → Option ℕ → Exec Session PosError (Unit {0})
unfolding find_customer check_customer
validate_customer business_id none s = (ok tt, s)
validate_customer business_id (some i) s =
    check_customer business_id (find_customer i s.customers) s

unfoldable pub validate_courier : ℕ → Option ℕ → Exec Session PosError (Unit {0})
validate_courier business_id none = pure tt
validate_courier business_id (some c) = do validate_courier_for_sale business_id c; pure tt

abbrev pub is_nonzero : ℤ → Bool
is_nonzero n = ltb_ℤ n (pos 0) || ltb_ℤ (pos 0) n

-- The branch for sales that are no deliveries.
unfoldable pub validate_no_delivery : SaleSyncInput → Exec Session PosError (Unit {0})
unfolding quantize
validate_no_delivery i = do
  raise_if (is_some i.courier_id) courier_not_allowed
  raise_if (is_some i.delivery_address_line1) address_not_allowed
  raise_if (is_some i.delivery_recipient_phone) phone_not_allowed
  raise_if (is_some i.delivery_note) note_not_allowed
  raise_if (is_nonzero (quantize 2 i.delivery_fee)) fee_not_allowed

unfoldable pub validate_delivery : ℕ → OrderType → SaleSyncInput → Exec Session PosError (Unit {0})
unfolding is_filled validate_courier validate_no_delivery
validate_delivery business_id delivery i = do
  raise_if (not (is_filled i.delivery_address_line1)) address_required
  validate_courier business_id i.courier_id
validate_delivery business_id dine_in i = validate_no_delivery i
validate_delivery business_id takeaway i = validate_no_delivery i

-- The checks, in their order.
unfoldable pub validate_sale : ℕ → SaleSyncInput → Exec Session PosError (Unit {0})
unfolding needs_reason validate_customer validate_delivery
validate_sale business_id i = do
  raise_if (needs_reason i.status i.void_or_refund_reason) reason_required
  validate_customer business_id i.customer_id
  validate_delivery business_id i.order_type i
