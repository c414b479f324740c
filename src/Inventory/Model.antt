-- ===== src/Inventory/Model.antt =====
-- The rows of services/inventory-service/app/models/inventory.py that stock movements read and
-- write. A UUID is a number, since the code only compares UUIDs. A Numeric(12, 3) column is an
-- integer of thousandths, a Numeric(12, 4) column one of ten-thousandths.
use foodo.Prelude.{ℕ, ℤ, String, Bool, Option, List}

pub data ItemType : Type 0 where
  sellable raw_material both : ItemType

pub data MovementType : Type 0 where
  sale purchase_received manual_adjustment waste transfer_in transfer_out : MovementType
  sale_reversal refund_reversal : MovementType
  production_input production_output production_reversal : MovementType

pub data ActorType : Type 0 where
  user system service : ActorType

-- The columns of an item that the stock code reads.
pub record Item : Type 0 where
  pub id : ℕ
  pub business_id : ℕ
  pub store_id : ℕ
  pub reorder_threshold : ℤ
  pub unit_cost : Option ℤ
  pub allow_negative_stock : Bool
  pub item_type : ItemType

pub record StockLevel : Type 0 where
  pub item_id : ℕ
  pub store_id : ℕ
  pub current_quantity : ℤ

pub record StockMovement : Type 0 where
  pub item_id : ℕ
  pub business_id : ℕ
  pub store_id : ℕ
  pub quantity_delta : ℤ
  pub unit_cost : Option ℤ
  pub movement_type : MovementType
  pub reference_type : Option String
  pub reference_id : Option ℕ
  pub actor_type : ActorType
  pub actor_id : Option ℕ
  pub reason : Option String

-- The tables. The movements stand newest first, the order of `created_at` descending.
pub record Tables : Type 0 where
  pub items : List Item
  pub levels : List StockLevel
  pub movements : List StockMovement
  pub processed : List String

-- What `publish_event` is handed after a commit.
pub data Message : Type 0 where
  stock_adjusted : ℕ → ℕ → ℕ → MovementType → ℤ → ℤ → Message
  stock_low : ℕ → ℕ → ℕ → ℤ → ℤ → Message
  audit_recorded : Option ℕ → ℕ → MovementType → ℕ → Option String → ℤ → Message

-- A database session: the rows as this transaction sees them, the rows at the last commit, and the
-- messages that were published, newest first.
pub record Session : Type 0 where
  pub rows : Tables
  pub open rows use *
  pub committed : Tables
  pub outbox : List Message
