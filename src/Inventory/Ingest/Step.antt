-- ===== src/Inventory/Ingest/Step.antt =====
-- One line of a stock event is one call of `record_movement`.
use foodo.Prelude.{
  ℕ, pos, negsuc, ◌≡◌, ◌≢◌, refl, String, true, false, Option, List, Result, ok, err,
}
use foodo.Inventory.Model.{ItemType, StockMovement, Session, sale, sale_reversal, refund_reversal}
use foodo.Inventory.Rules.{
  MoveError, item_not_found, item_type_mismatch, insufficient_stock, invalid_actor_type,
  validate_item_type, validate_correction,
}
use foodo.Inventory.Movement.{Move, record_movement}
use foodo.Inventory.Events.{
  Line, Payload, Kind, line_move, process_lines, process_line_items, handle_sale_completed,
  handle_sale_voided, handle_sale_refunded,
}
use foodo.Inventory.Ingest.{
  EventType, completed, voided, refunded, StockEvent, status_of, handler, single_item_payload,
  receive_line,
}

abbrev pub kind_of : EventType → Kind
kind_of completed = record {
  reference_type = "sale";
  movement_type = sale;
  sign = negsuc 0;
  skip_negative_check = true;
}
kind_of voided = record {
  reference_type = "sale";
  movement_type = sale_reversal;
  sign = pos 1;
  skip_negative_check = false;
}
kind_of refunded = record {
  reference_type = "sale";
  movement_type = refund_reversal;
  sign = pos 1;
  skip_negative_check = false;
}

-- A void and a refund add the quantity, pass the check of types, and are checked for negative stock.
pub reversal_kind :
    (e : EventType)
    → e ≢ completed
    → ((kind_of e).sign ≡ pos 1)
      × ((t : ItemType) → validate_item_type t (kind_of e).movement_type ≡ ok tt)
      × ((kind_of e).skip_negative_check ≡ false)
reversal_kind completed h = absurd (h refl)
reversal_kind voided h = (refl, λ t. validate_correction t (λ p. cc) (λ p. cc), refl)
reversal_kind refunded h = (refl, λ t. validate_correction t (λ p. cc) (λ p. cc), refl)

status_of_err :
    (A B : Type 0) (e : MoveError) → status_of {A = A} (err e) ≡ status_of {A = B} (err e)
unfolding status_of
status_of_err A B (item_not_found _) = refl
status_of_err A B (item_type_mismatch _ _) = refl
status_of_err A B (insufficient_stock _ _) = refl
status_of_err A B invalid_actor_type = refl

module _ (uuid_text : ℕ → String) where
  abbrev pub event_move : StockEvent → Line → Move
  event_move b l = line_move uuid_text (kind_of b.event_type) (single_item_payload uuid_text b l) l

  handler-eq-process :
      (e : EventType) (p : Payload)
      → handler uuid_text e p ≡ process_line_items uuid_text (kind_of e) p
  unfolding handler handle_sale_completed handle_sale_voided handle_sale_refunded
  handler-eq-process completed p = refl
  handler-eq-process voided p = refl
  handler-eq-process refunded p = refl

  single :
      (k : Kind) (b : StockEvent) (l : Line) (s : Session)
      (r : Result MoveError (Option StockMovement)) (t : Session)
      → record_movement (line_move uuid_text k (single_item_payload uuid_text b l) l) s ≡ (r, t)
      → let q = process_line_items uuid_text k (single_item_payload uuid_text b l) s in
        (status_of q.0 ≡ status_of r) × (q.1 ≡ t)
  unfolding process_line_items process_lines status_of
  single k b l s (ok v) t h = rw h (refl, refl)
  single k b l s (err e) t h =
      rw h (status_of_err (List (Option StockMovement)) (Option StockMovement) e, refl)

  -- The status of a line, by the result of its call.
  pub status-receive_line :
      (b : StockEvent) (l : Line) (s : Session)
      → (receive_line uuid_text b l s).0 ≡ status_of (record_movement (event_move b l) s).0
  unfolding receive_line
  status-receive_line b l s =
      rw (handler-eq-process b.event_type) (single (kind_of b.event_type) b l s _ _ refl).0

  -- A line changes the session as its call does.
  pub state-receive_line :
      (b : StockEvent) (l : Line) (s : Session)
      → (receive_line uuid_text b l s).1 ≡ (record_movement (event_move b l) s).1
  unfolding receive_line
  state-receive_line b l s =
      rw (handler-eq-process b.event_type) (single (kind_of b.event_type) b l s _ _ refl).1
