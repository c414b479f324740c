-- ===== src/Inventory/Events.antt =====
-- services/inventory-service/app/services/event_handlers.py, the consumers of sale, order and
-- purchase events, and app/api/v1/endpoints/internal_events.py, which hands a sale's lines to them
-- one by one.
pub mod Keys
use Prim.Native.String.{◌++◌ as str_append}
use foodo.Prelude.{
  ℕ, ℤ, pos, negsuc, ◌*ℤ◌, String, Bool, true, false, Option, none, some, List, [], ◌∷◌, Exec,
  Result, ok, err, pure, ◌>>=◌,
}
use foodo.Inventory.Model.{
  StockMovement, Session, MovementType, sale, sale_reversal, refund_reversal, purchase_received,
}
use foodo.Inventory.Rules.{
  MoveError, item_not_found, item_type_mismatch, insufficient_stock, invalid_actor_type,
}
use foodo.Inventory.Movement.{Move, record_movement}

-- One entry of `line_items`.
pub record Line : Type 0 where
  pub item_id : ℕ
  pub quantity : ℤ

-- The keys of an event that the handlers read; `reference_id` is the sale's, order's or purchase
-- order's id.
pub record Payload : Type 0 where
  pub event_id : String
  pub business_id : ℕ
  pub store_id : ℕ
  pub reference_id : ℕ
  pub line_items : List Line

-- The arguments by which the handlers differ.
pub record Kind : Type 0 where
  pub reference_type : String
  pub movement_type : MovementType
  pub sign : ℤ
  pub skip_negative_check : Bool

module _ (uuid_text : ℕ → String) where
  -- `f"{event_id}:{item_id}"`
  unfoldable pub line_key : String → ℕ → String
  line_key event_id item_id = str_append event_id (str_append ":" (uuid_text item_id))

  -- The call of `record_movement` for one line.
  abbrev pub line_move : Kind → Payload → Line → Move
  line_move k p l = record {
    item_id = l.item_id;
    business_id = p.business_id;
    store_id = p.store_id;
    quantity_delta = k.sign *ℤ l.quantity;
    movement_type = k.movement_type;
    reference_type = some k.reference_type;
    reference_id = some p.reference_id;
    actor_type = "service";
    actor_id = none;
    reason = some (str_append k.reference_type (str_append " " (uuid_text p.reference_id)));
    event_id = some (line_key p.event_id l.item_id);
    commit = true;
    skip_negative_check = k.skip_negative_check;
    unit_cost = none;
  }

  -- The loop of `_process_line_items`; an exception ends it.
  unfoldable pub process_lines :
      Kind → Payload → List Line → Exec Session MoveError (List (Option StockMovement))
  process_lines k p [] = pure []
  process_lines k p (l ∷ ls) = do
    movement ← record_movement (line_move k p l)
    movements ← process_lines k p ls
    pure (movement ∷ movements)

  -- `_process_line_items`
  unfoldable pub process_line_items :
      Kind → Payload → Exec Session MoveError (List (Option StockMovement))
  unfolding process_lines
  process_line_items k p = process_lines k p p.line_items

  unfoldable pub handle_sale_completed :
      Payload → Exec Session MoveError (List (Option StockMovement))
  unfolding process_line_items
  handle_sale_completed = process_line_items (record {
    reference_type = "sale";
    movement_type = sale;
    sign = negsuc 0;
    skip_negative_check = true;
  })

  unfoldable pub handle_order_confirmed :
      Payload → Exec Session MoveError (List (Option StockMovement))
  unfolding process_line_items
  handle_order_confirmed = process_line_items (record {
    reference_type = "order";
    movement_type = sale;
    sign = negsuc 0;
    skip_negative_check = true;
  })

  unfoldable pub handle_sale_voided : Payload → Exec Session MoveError (List (Option StockMovement))
  unfolding process_line_items
  handle_sale_voided = process_line_items (record {
    reference_type = "sale";
    movement_type = sale_reversal;
    sign = pos 1;
    skip_negative_check = false;
  })

  unfoldable pub handle_sale_refunded :
      Payload → Exec Session MoveError (List (Option StockMovement))
  unfolding process_line_items
  handle_sale_refunded = process_line_items (record {
    reference_type = "sale";
    movement_type = refund_reversal;
    sign = pos 1;
    skip_negative_check = false;
  })

  unfoldable pub handle_purchase_received :
      Payload → Exec Session MoveError (List (Option StockMovement))
  unfolding process_line_items
  handle_purchase_received = process_line_items (record {
    reference_type = "purchase_order";
    movement_type = purchase_received;
    sign = pos 1;
    skip_negative_check = false;
  })
