-- ===== src/Inventory/Ingest/Effect.antt =====
-- What a whole stock event does to the stock.
use foodo.Prelude.{
  ℕ, ℤ, pos, ◌+ℤ◌, ◌*ℤ◌, ◌≡◌, ◌≢◌, refl, sym, ap, String, List, [], ◌∷◌, map, arith, ◌==◌,
  if◌then◌else◌, +ℤ_assoc, +ℤ_zero,
}
use foodo.Inventory.Model.{Session}
use foodo.Inventory.Movement.{is_processed}
use foodo.Inventory.Movement.Outcome.{on_hand}
use foodo.Inventory.Events.{Line, line_key}
use foodo.Inventory.Events.Keys.{IsUuidText, line_key_ne_item, line_key_ne_event}
use foodo.Inventory.Ingest.{LineStatus, applied, StockEvent, receive_line, receive_lines}
use foodo.Inventory.Ingest.Step.{kind_of}
use foodo.Inventory.Ingest.Delivery.{IsDeliverable, IsApplied, receive_line-IsApplied}

-- No line is of this item.
abbrev pub Absent : ℕ → List Line → Type 0
Absent i [] = Unit
Absent i (l ∷ ls) = (i ≢ l.item_id) × Absent i ls

-- The signed sum of an item's quantities over the lines.
unfoldable pub total_delta : ℤ → ℕ → List Line → ℤ
total_delta sign i [] = pos 0
total_delta sign i (l ∷ ls) =
    if l.item_id == i then sign *ℤ l.quantity +ℤ total_delta sign i ls else total_delta sign i ls

pub total_delta-Absent :
    (sign : ℤ) (i : ℕ) (ls : List Line) → Absent i ls → total_delta sign i ls ≡ pos 0
unfolding total_delta
total_delta-Absent sign i [] h = refl
total_delta-Absent sign i (l ∷ ls) h = ground (arith, total_delta-Absent sign i ls h.1)

abbrev pub applied_line : Line → ℕ × LineStatus
applied_line l = (l.item_id, applied)

module _ (uuid_text : ℕ → String) where
  -- Every line can be delivered, and no two are of one item.
  abbrev pub AllDeliverable : StockEvent → List Line → Session → Type 0
  AllDeliverable b [] s = Unit
  AllDeliverable b (l ∷ ls) s =
      IsDeliverable uuid_text b l s × Absent l.item_id ls × AllDeliverable b ls s

  pub record IsDelivered (b : StockEvent) (ls : List Line) (s t : Session) : Type 0 where
    pub items : t.items ≡ s.items
    pub levels :
        (i j : ℕ)
        → on_hand i j t ≡ (
            if b.store_id == j
            then on_hand i j s +ℤ total_delta (kind_of b.event_type).sign i ls
            else on_hand i j s)
    pub others :
        (e : String) (i : ℕ)
        → e ≢ b.event_id
        → is_processed (line_key uuid_text e i) t.processed
          ≡ is_processed (line_key uuid_text e i) s.processed

  IsApplied-other :
      (b : StockEvent) (l : Line) (s t : Session)
      → IsApplied uuid_text b l s t
      → (i : ℕ) → l.item_id ≢ i
      → on_hand i b.store_id t ≡ on_hand i b.store_id s
  IsApplied-other b l s t a i ne = ground (arith, a.levels i b.store_id)

  module _ (u : IsUuidText uuid_text) where
    IsDeliverable-keep :
        (b : StockEvent) (l m : Line) (s t : Session)
        → IsApplied uuid_text b l s t
        → l.item_id ≢ m.item_id
        → IsDeliverable uuid_text b m s
        → IsDeliverable uuid_text b m t
    unfolding is_processed
    IsDeliverable-keep b l m s t a ne d = record {
      item = d.item;
      found = rw a.items d.found;
      valid = d.valid;
      safe = rw (IsApplied-other b l s t a m.item_id ne) d.safe;
      fresh =
          rw
            (a.processed, line_key_ne_item uuid_text u b.event_id b.event_id l.item_id m.item_id ne)
            d.fresh;
    }

    AllDeliverable-keep :
        (b : StockEvent) (l : Line) (ls : List Line) (s t : Session)
        → IsApplied uuid_text b l s t
        → Absent l.item_id ls
        → AllDeliverable b ls s
        → AllDeliverable b ls t
    AllDeliverable-keep b l [] s t a h d = tt
    AllDeliverable-keep b l (m ∷ ls) s t a h d =
        (IsDeliverable-keep b l m s t a h.0 d.0, d.1, AllDeliverable-keep b l ls s t a h.1 d.2)

    IsDelivered-cons :
        (b : StockEvent) (l : Line) (ls : List Line) (s t v : Session)
        → IsApplied uuid_text b l s t
        → Absent l.item_id ls
        → IsDelivered b ls t v
        → IsDelivered b (l ∷ ls) s v
    unfolding is_processed total_delta
    IsDelivered-cons b l ls s t v a h d = record {
      items = cc (a.items, d.items);
      levels = λ i j. ground (
        arith,
        a.levels i j,
        d.levels i j,
        total_delta-Absent (kind_of b.event_type).sign l.item_id ls h,
        +ℤ_zero (total_delta (kind_of b.event_type).sign i ls),
        +ℤ_assoc (on_hand i j s) ((kind_of b.event_type).sign *ℤ l.quantity)
            (total_delta (kind_of b.event_type).sign i ls),
      );
      others = λ e i ne. cc (
        d.others e i ne,
        ap (is_processed (line_key uuid_text e i)) a.processed,
        line_key_ne_event uuid_text u b.event_id e l.item_id i (λ q. ne (sym q)),
      );
    }

    -- Where every line can be delivered and no two are of one item, every line is reported as
    -- applied, each stock level at the event's store moves by the signed sum of the item's
    -- quantities, all other levels stay, and no line of another event becomes processed.
    pub receive_lines-IsDelivered :
        (b : StockEvent) (ls : List Line) (s : Session)
        → AllDeliverable b ls s
        → ((receive_lines uuid_text b ls s).0 ≡ map applied_line ls)
          × IsDelivered b ls s (receive_lines uuid_text b ls s).1
    unfolding receive_lines total_delta
    receive_lines-IsDelivered b [] s d = (
      refl,
      record {
        items = refl;
        levels = λ i j. ground (arith, +ℤ_zero (on_hand i j s));
        others = λ e i ne. refl;
      },
    )
    receive_lines-IsDelivered b (l ∷ ls) s d =
        let first = receive_line-IsApplied uuid_text b l s d.0 in
        let rest =
          receive_lines-IsDelivered b ls (receive_line uuid_text b l s).1
            (AllDeliverable-keep b l ls s _ first.1 d.1 d.2) in
        (cc (first.0, rest.0), IsDelivered-cons b l ls s _ _ first.1 d.1 rest.1)
