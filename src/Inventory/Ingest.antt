-- ===== src/Inventory/Ingest.antt =====
-- services/inventory-service/app/api/v1/endpoints/internal_events.py: the endpoint that hands a
-- sale's lines to the handlers one by one.
pub mod Step
pub mod Delivery
pub mod Effect
pub mod Reversal
pub mod Redelivery
use foodo.Prelude.{ℕ, String, Option, List, [], ◌∷◌, Exec, Result, ok, err}
use foodo.Inventory.Model.{StockMovement, Session}
use foodo.Inventory.Rules.{
  MoveError, item_not_found, item_type_mismatch, insufficient_stock, invalid_actor_type,
}
use foodo.Inventory.Events.{
  Line, Payload, handle_sale_completed, handle_sale_voided, handle_sale_refunded,
}

pub data EventType : Type 0 where
  completed voided refunded : EventType

pub data LineStatus : Type 0 where
  applied skipped failed : LineStatus

-- The body of the request, and the business of its path.
pub record StockEvent : Type 0 where
  pub event_type : EventType
  pub event_id : String
  pub business_id : ℕ
  pub store_id : ℕ
  pub sale_id : ℕ
  pub line_items : List Line

-- The `except` clauses, in the order of the source: a plain ValueError, as for an item that is not
-- there, is a skip.
unfoldable pub status_of : {A : Type 0} → Result MoveError A → LineStatus
status_of (ok _) = applied
status_of (err (item_type_mismatch _ _)) = failed
status_of (err (insufficient_stock _ _)) = failed
status_of (err (item_not_found _)) = skipped
status_of (err invalid_actor_type) = skipped

module _ (uuid_text : ℕ → String) where
  -- `_HANDLERS`
  unfoldable pub handler :
      EventType → Payload → Exec Session MoveError (List (Option StockMovement))
  handler completed = handle_sale_completed uuid_text
  handler voided = handle_sale_voided uuid_text
  handler refunded = handle_sale_refunded uuid_text

  abbrev pub single_item_payload : StockEvent → Line → Payload
  single_item_payload b l = record {
    event_id = b.event_id;
    business_id = b.business_id;
    store_id = b.store_id;
    reference_id = b.sale_id;
    line_items = l ∷ [];
  }

  -- The `try` around one line.
  unfoldable pub receive_line : StockEvent → Line → Session → LineStatus × Session
  receive_line b l s =
      let (r, s') = handler b.event_type (single_item_payload b l) s in (status_of r, s')

  unfoldable pub receive_lines : StockEvent → List Line → Session → List (ℕ × LineStatus) × Session
  receive_lines b [] s = ([], s)
  receive_lines b (l ∷ ls) s =
      let (status, s') = receive_line b l s in
      let (results, s'') = receive_lines b ls s' in ((l.item_id, status) ∷ results, s'')

  unfoldable pub receive_stock_event : StockEvent → Session → List (ℕ × LineStatus) × Session
  unfolding receive_lines
  receive_stock_event b s = receive_lines b b.line_items s
