-- ===== src/Inventory/Ingest/Redelivery.antt =====
-- Repeated lines and repeated events.
use foodo.Prelude.{
  ℕ, pos, one_*ℤ, ◌+ℤ◌, ltb_ℤ, ◌≡◌, ◌≢◌, refl, String, true, false, Option, some, List, [], ◌∷◌,
  map, ok, err, Result,
}
use foodo.Inventory.Model.{Item, Session, StockMovement}
use foodo.Inventory.Rules.{
  MoveError, item_not_found, item_type_mismatch, insufficient_stock, invalid_actor_type,
}
use foodo.Inventory.Movement.{is_processed, is_repeat, record_movement, find_item}
use foodo.Inventory.Movement.Outcome.{on_hand}
use foodo.Inventory.Movement.Refusal.{
  record_movement_repeat, record_movement-is_repeat, record_movement-keeps_processed,
  record_movement-insufficient_iff, record_movement-IsUntouched,
  record_movement-insufficient_levels, IsUntouched,
}
use foodo.Inventory.Events.{Line, line_key}
use foodo.Inventory.Ingest.{
  completed, applied, failed, StockEvent, status_of, receive_line, receive_lines,
  receive_stock_event,
}
use foodo.Inventory.Ingest.Step.{event_move, status-receive_line, state-receive_line, reversal_kind}
use foodo.Inventory.Ingest.Effect.{applied_line}

applied_inv :
    (r : Result MoveError (Option StockMovement))
    → status_of r ≡ applied
    → (v : Option StockMovement) × (r ≡ ok v)
unfolding status_of
applied_inv (ok v) h = (v, refl)
applied_inv (err (item_not_found _)) h = cc
applied_inv (err (item_type_mismatch _ _)) h = cc
applied_inv (err (insufficient_stock _ _)) h = cc
applied_inv (err invalid_actor_type) h = cc

module _ (uuid_text : ℕ → String) where
  -- A line whose key was processed before is reported as applied and changes nothing.
  receive_line_done :
      (b : StockEvent) (l : Line) (s : Session)
      → is_processed (line_key uuid_text b.event_id l.item_id) s.processed ≡ true
      → receive_line uuid_text b l s ≡ (applied, s)
  unfolding status_of
  receive_line_done b l s h =
      let again = record_movement_repeat (event_move uuid_text b l) s _ refl h in
      cc (status-receive_line uuid_text b l s, state-receive_line uuid_text b l s, again.1)

  receive_line-is_processed :
      (b : StockEvent) (l : Line) (s : Session)
      → (receive_line uuid_text b l s).0 ≡ applied
      → is_processed
          (line_key uuid_text b.event_id l.item_id)
          (receive_line uuid_text b l s).1.processed
        ≡ true
  receive_line-is_processed b l s h =
      let m = event_move uuid_text b l in
      let succeeded =
        applied_inv (record_movement m s).0 (rw (status-receive_line uuid_text b l s) at h) in
      rw (state-receive_line uuid_text b l s)
        (record_movement-is_repeat m s succeeded.0 _ refl succeeded.1)

  receive_lines-keeps_processed :
      (b : StockEvent) (ls : List Line) (s : Session) (e : String)
      → is_processed e s.processed ≡ true
      → is_processed e (receive_lines uuid_text b ls s).1.processed ≡ true
  unfolding receive_lines
  receive_lines-keeps_processed b [] s e h = h
  receive_lines-keeps_processed b (l ∷ ls) s e h =
      receive_lines-keeps_processed b ls (receive_line uuid_text b l s).1 e (
        rw (state-receive_line uuid_text b l s)
          (record_movement-keeps_processed (event_move uuid_text b l) s e h))

  abbrev AllProcessed : StockEvent → List Line → Session → Type 0
  AllProcessed b [] s = Unit
  AllProcessed b (l ∷ ls) s =
      (is_processed (line_key uuid_text b.event_id l.item_id) s.processed ≡ true)
      × AllProcessed b ls s

  receive_lines-AllProcessed :
      (b : StockEvent) (ls : List Line) (s : Session)
      → (receive_lines uuid_text b ls s).0 ≡ map applied_line ls
      → AllProcessed b ls (receive_lines uuid_text b ls s).1
  unfolding receive_lines
  receive_lines-AllProcessed b [] s h = tt
  receive_lines-AllProcessed b (l ∷ ls) s h = (
    receive_lines-keeps_processed b ls (receive_line uuid_text b l s).1 _
        (receive_line-is_processed b l s (cc)),
    receive_lines-AllProcessed b ls (receive_line uuid_text b l s).1 (cc),
  )

  receive_lines_done :
      (b : StockEvent) (ls : List Line) (s : Session)
      → AllProcessed b ls s
      → receive_lines uuid_text b ls s ≡ (map applied_line ls, s)
  unfolding receive_lines
  receive_lines_done b [] s h = refl
  receive_lines_done b (l ∷ ls) s h =
      rw (receive_line_done b l s h.0, receive_lines_done b ls s h.1) refl

  -- An event of which every line was applied can be delivered again, by a broker or a retry: every
  -- line is reported as applied, and the session is as it was.
  pub redelivery_changes_nothing :
      (b : StockEvent) (s : Session)
      → (receive_stock_event uuid_text b s).0 ≡ map applied_line b.line_items
      → let t = (receive_stock_event uuid_text b s).1 in
        receive_stock_event uuid_text b t ≡ (map applied_line b.line_items, t)
  unfolding receive_stock_event
  redelivery_changes_nothing b s h =
      receive_lines_done b b.line_items _ (receive_lines-AllProcessed b b.line_items s h)

  -- A second line of the same item in one event, whatever its quantity, is reported as applied and
  -- moves no stock.
  pub second_line_of_item_dropped :
      (b : StockEvent) (l m : Line) (s : Session)
      → m.item_id ≡ l.item_id
      → (receive_line uuid_text b l s).0 ≡ applied
      → let t = (receive_line uuid_text b l s).1 in receive_line uuid_text b m t ≡ (applied, t)
  second_line_of_item_dropped b l m s same h =
      receive_line_done b m (receive_line uuid_text b l s).1
        (rw same (receive_line-is_processed b l s h))

  -- A first void or refund line of an item that forbids negative stock, whose stock stays below
  -- zero with the line's quantity added, is reported as failed. Every item at every store has the
  -- stock that it had; no movement and no processed event is written, and nothing is committed or
  -- published.
  pub reversal_refused_if_oversold :
      (b : StockEvent) (l : Line) (s : Session) (item : Item)
      → b.event_type ≢ completed
      → is_processed (line_key uuid_text b.event_id l.item_id) s.processed ≡ false
      → find_item l.item_id s.items ≡ some item
      → item.allow_negative_stock ≡ false
      → ltb_ℤ (on_hand l.item_id b.store_id s +ℤ l.quantity) (pos 0) ≡ true
      → let t = (receive_line uuid_text b l s).1 in
        ((receive_line uuid_text b l s).0 ≡ failed)
        × ((i j : ℕ) → on_hand i j t ≡ on_hand i j s)
        × IsUntouched s t
  unfolding is_repeat status_of
  reversal_refused_if_oversold b l s item is_reversal fresh found strict below =
      let m = event_move uuid_text b l in
      let kind = reversal_kind b.event_type is_reversal in
      let refused =
        (record_movement-insufficient_iff m s item fresh found (kind.1 item.item_type)).1
          (kind.2, strict, rw (kind.0, one_*ℤ) below) in
      rw (status-receive_line uuid_text b l s, state-receive_line uuid_text b l s, refused)
        (
          refl,
          record_movement-insufficient_levels m s _ _ refused,
          record_movement-IsUntouched m s _ refused,
        )
