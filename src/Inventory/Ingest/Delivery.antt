-- ===== src/Inventory/Ingest/Delivery.antt =====
-- One line that can be delivered, and what its delivery does.
use foodo.Prelude.{
  ℕ, ◌+ℤ◌, ◌*ℤ◌, ◌≡◌, refl, String, false, ◌&&◌, some, ◌∷◌, ok, arith, ◌==◌, if◌then◌else◌,
}
use foodo.Inventory.Model.{Item, Session, service}
use foodo.Inventory.Rules.{validate_item_type}
use foodo.Inventory.Movement.{
  apply_movement, find_item, would_go_negative, actor_of, is_repeat, is_processed,
}
use foodo.Inventory.Movement.Outcome.{
  on_hand, Outcome, outcome, unknown_item, mismatch, insufficient, bad_actor, done,
}
use foodo.Inventory.Movement.Effect.{
  on_hand-finished, items-finished, processed-finished, processed-add_processed,
  record_movement_fresh,
}
use foodo.Inventory.Events.{Line, line_key}
use foodo.Inventory.Ingest.{applied, StockEvent, receive_line, status_of}
use foodo.Inventory.Ingest.Step.{kind_of, event_move, status-receive_line, state-receive_line}

actor-service : actor_of "service" ≡ some service
unfolding actor_of
actor-service = refl

module _ (uuid_text : ℕ → String) where
  -- The line's item is there and may be moved this way, its stock allows it, and the line was not
  -- processed before.
  pub record IsDeliverable (b : StockEvent) (l : Line) (s : Session) : Type 0 where
    pub item : Item
    pub found : find_item l.item_id s.items ≡ some item
    pub valid : validate_item_type item.item_type (kind_of b.event_type).movement_type ≡ ok tt
    pub safe :
        would_go_negative
          (kind_of b.event_type).skip_negative_check
          (on_hand l.item_id b.store_id s +ℤ ((kind_of b.event_type).sign *ℤ l.quantity))
          item.allow_negative_stock
        ≡ false
    pub fresh : is_processed (line_key uuid_text b.event_id l.item_id) s.processed ≡ false

  -- A line was applied: the stock of its item at the event's store moved by the signed quantity.
  pub record IsApplied (b : StockEvent) (l : Line) (s t : Session) : Type 0 where
    pub items : t.items ≡ s.items
    pub processed : t.processed ≡ line_key uuid_text b.event_id l.item_id ∷ s.processed
    pub levels :
        (i j : ℕ)
        → on_hand i j t ≡ (
            if l.item_id == i && b.store_id == j
            then on_hand i j s +ℤ ((kind_of b.event_type).sign *ℤ l.quantity)
            else on_hand i j s)

  apply_movement-IsApplied :
      (b : StockEvent) (l : Line) (s : Session)
      → IsDeliverable b l s
      → Outcome (event_move uuid_text b l) s
      → (status_of (apply_movement (event_move uuid_text b l) s).0 ≡ applied)
        × IsApplied b l s (apply_movement (event_move uuid_text b l) s).1
  unfolding status_of
  apply_movement-IsApplied b l s d (unknown_item n _) = absurd (cc (d.found, n))
  apply_movement-IsApplied b l s d (mismatch i f _ n _) = absurd (cc (d.found, d.valid))
  apply_movement-IsApplied b l s d (insufficient i f _ n _) = absurd (cc (d.found, d.safe))
  apply_movement-IsApplied b l s d (bad_actor _ _ _ n _) = absurd (cc (actor-service, n))
  apply_movement-IsApplied b l s d (done i a _ _ _ _ e) =
      let m = event_move uuid_text b l in
      rw e (
        refl,
        record {
          items = items-finished m i a s;
          processed = cc (processed-finished m i a s, processed-add_processed m.event_id s);
          levels = λ j q. ground (arith, on_hand-finished m i a s j q);
        },
      )

  pub receive_line-IsApplied :
      (b : StockEvent) (l : Line) (s : Session)
      → IsDeliverable b l s
      → ((receive_line uuid_text b l s).0 ≡ applied)
        × IsApplied b l s (receive_line uuid_text b l s).1
  unfolding is_repeat
  receive_line-IsApplied b l s d =
      rw
        (
          status-receive_line,
          state-receive_line,
          record_movement_fresh (event_move uuid_text b l) s d.fresh,
        )
        (apply_movement-IsApplied b l s d (outcome (event_move uuid_text b l) s))
