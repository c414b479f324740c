-- ===== src/Pos/Model.antt =====
-- The rows of services/pos-service/app/models/pos.py, couriers.py and customers.py that the sale and
-- courier services read and write. A UUID is a number and a moment a number of microseconds.
use foodo.Prelude.{ℕ, ℤ, String, Bool, Option, List}
use foodo.Pos.Decimal.{Decimal}

pub data SaleStatus : Type 0 where
  completed voided refunded : SaleStatus

pub data PaymentMethod : Type 0 where
  cash mobile_money card other : PaymentMethod

pub data OrderType : Type 0 where
  dine_in takeaway delivery : OrderType

pub data DeliveryStatus : Type 0 where
  pending assigned out_for_delivery delivered failed : DeliveryStatus

-- The amounts are cents, the columns Numeric(12, 2). The moments `synced_at` and `created_at`, which
-- the database fills in and no operation reads, are left out.
pub record Sale : Type 0 where
  pub id : ℕ
  pub business_id : ℕ
  pub store_id : ℕ
  pub client_sale_id : String
  pub status : SaleStatus
  pub subtotal : ℤ
  pub discount_amount : ℤ
  pub tax_amount : ℤ
  pub delivery_fee : ℤ
  pub total : ℤ
  pub payment_method : PaymentMethod
  pub actor_id : Option ℕ
  pub customer_id : Option ℕ
  pub order_type : OrderType
  pub courier_id : Option ℕ
  pub delivery_address_line1 : Option String
  pub delivery_recipient_phone : Option String
  pub delivery_note : Option String
  pub delivery_status : Option DeliveryStatus
  pub occurred_at : ℕ
  pub device_sequence : Option ℤ
  pub is_time_suspect : Bool
  pub void_client_action_id : Option String
  pub refund_client_action_id : Option String
  pub voided_at : Option ℕ
  pub refunded_at : Option ℕ
  pub void_or_refund_reason : Option String

-- The quantity is in thousandths, the column Numeric(12, 3), and `unit_cost` in ten-thousandths. The
-- line's own id is left out.
pub record SaleLineItem : Type 0 where
  pub sale_id : ℕ
  pub item_id : ℕ
  pub quantity : ℤ
  pub unit_price : ℤ
  pub discount_amount : ℤ
  pub line_total : ℤ
  pub unit_cost : Option ℤ

-- The columns that a sale reads of its customer.
pub record Customer : Type 0 where
  pub id : ℕ
  pub business_id : ℕ
  pub is_deleted : Bool

pub record Courier : Type 0 where
  pub id : ℕ
  pub business_id : ℕ
  pub name : String
  pub phone : String
  pub vehicle : Option String
  pub is_active : Bool
  pub actor_id : Option ℕ

-- The tables. `next_id` is a UUID that no row has.
pub record Tables : Type 0 where
  pub sales : List Sale
  pub line_items : List SaleLineItem
  pub customers : List Customer
  pub couriers : List Courier
  pub next_id : ℕ

-- What is published: the sale events carry the sale's lines as pairs of item and quantity.
pub data Message : Type 0 where
  sale_completed : ℕ → Sale → List (ℕ × Decimal) → Message
  sale_reversed : SaleStatus → String → Sale → List (ℕ × Decimal) → Message
  delivery_status_changed : Sale → DeliveryStatus → Option ℕ → Message
  audit_recorded : SaleStatus → String → Sale → Option ℕ → String → Message

-- A database session, with the rows of the last commit and the messages published so far.
pub record Session : Type 0 where
  pub rows : Tables
  pub open rows use *
  pub committed : Tables
  pub outbox : List Message

-- Why a request is refused: the texts of SaleValidationError, CourierValidationError,
-- InvalidSaleStateError, CourierNotFoundError and CourierConflictError.
pub data PosError : Type 0 where
  reason_required : PosError
  customer_unknown customer_deleted : PosError
  courier_unknown courier_inactive : PosError
  address_required courier_not_allowed address_not_allowed : PosError
  phone_not_allowed note_not_allowed fee_not_allowed : PosError
  sale_not_found : ℕ → PosError
  not_a_delivery : OrderType → PosError
  cannot_move : Option DeliveryStatus → DeliveryStatus → PosError
  courier_must_be_assigned : PosError
  invalid_state : SaleStatus → PosError
  courier_not_found : ℕ → PosError
  courier_conflict : String → PosError
