-- ===== src/Inventory/Ingest/Reversal.antt =====
-- A sale that is completed and then voided or refunded.
use foodo.Prelude.{
  ℕ, ℤ, pos, negsuc, ◌+ℤ◌, ◌*ℤ◌, ◌≤ℤ◌, ◌≡◌, ◌≢◌, ap, String, false, List, [], ◌∷◌, map, arith,
  +ℤ_assoc, +ℤ_zero, int_laws, one_*ℤ, minus_one_*ℤ, +ℤ_cancel_neg,
}
use foodo.Inventory.Model.{Session}
use foodo.Inventory.Movement.{is_processed, would_go_negative}
use foodo.Inventory.Movement.Outcome.{on_hand}
use foodo.Inventory.Events.{Line, line_key}
use foodo.Inventory.Events.Keys.{IsUuidText}
use foodo.Inventory.Ingest.{EventType, completed, StockEvent, receive_lines, receive_stock_event}
use foodo.Inventory.Ingest.Step.{kind_of, reversal_kind}
use foodo.Inventory.Ingest.Effect.{
  Absent, total_delta, total_delta-Absent, applied_line, AllDeliverable, IsDelivered,
  receive_lines-IsDelivered,
}

total_delta_cancel :
    (i : ℕ) (ls : List Line) → total_delta (negsuc 0) i ls +ℤ total_delta (pos 1) i ls ≡ pos 0
unfolding total_delta
total_delta_cancel i [] = omega int_laws
total_delta_cancel i (l ∷ ls) =
    grind (int_laws, total_delta_cancel i ls, one_*ℤ l.quantity, minus_one_*ℤ l.quantity)

-- In `whole`, the quantity of each line of `xs` is the whole quantity of its item.
abbrev Sums : ℤ → List Line → List Line → Type 0
Sums sign whole [] = Unit
Sums sign whole (x ∷ xs) =
    (total_delta sign x.item_id whole ≡ sign *ℤ x.quantity) × Sums sign whole xs

Sums-cons :
    (sign : ℤ) (l : Line) (whole xs : List Line)
    → Absent l.item_id xs
    → Sums sign whole xs
    → Sums sign (l ∷ whole) xs
unfolding total_delta
Sums-cons sign l whole [] h k = tt
Sums-cons sign l whole (x ∷ xs) h k = (ground arith, Sums-cons sign l whole xs h.1 k.1)

sale_sign : (b : StockEvent) → b.event_type ≡ completed → (kind_of b.event_type).sign ≡ negsuc 0
sale_sign b h = ap (λ (e : EventType). (kind_of e).sign) h

-- No item of the lines is oversold at the store.
abbrev pub NoneNegative : ℕ → List Line → Session → Type 0
NoneNegative store [] s = Unit
NoneNegative store (l ∷ ls) s = (pos 0 ≤ℤ on_hand l.item_id store s) × NoneNegative store ls s

module _ (uuid_text : ℕ → String) where
  -- No line of this event was processed before.
  abbrev pub AllFresh : String → List Line → Session → Type 0
  AllFresh e [] s = Unit
  AllFresh e (l ∷ ls) s =
      (is_processed (line_key uuid_text e l.item_id) s.processed ≡ false) × AllFresh e ls s

  Sums-AllDeliverable :
      (sign : ℤ) (b : StockEvent) (ls : List Line) (s : Session)
      → AllDeliverable uuid_text b ls s
      → Sums sign ls ls
  unfolding total_delta
  Sums-AllDeliverable sign b [] s d = tt
  Sums-AllDeliverable sign b (l ∷ ls) s d = (
    ground (arith, total_delta-Absent sign l.item_id ls d.1, +ℤ_zero (sign *ℤ l.quantity)),
    Sums-cons sign l ls ls d.1 (Sums-AllDeliverable sign b ls s d.2),
  )

  module _ (b v : StockEvent) (s t : Session) (is_sale : b.event_type ≡ completed)
      (is_reversal : v.event_type ≢ completed) (same_store : v.store_id ≡ b.store_id)
      (other_event : v.event_id ≢ b.event_id) where
    back_in_stock :
        (whole : List Line) (x : Line)
        → IsDelivered uuid_text b whole s t
        → total_delta (negsuc 0) x.item_id whole ≡ negsuc 0 *ℤ x.quantity
        → on_hand x.item_id v.store_id t +ℤ ((kind_of v.event_type).sign *ℤ x.quantity)
          ≡ on_hand x.item_id b.store_id s
    back_in_stock whole x d q = ground (
      arith,
      d.levels x.item_id b.store_id,
      same_store,
      sale_sign b is_sale,
      (reversal_kind v.event_type is_reversal).0,
      q,
      one_*ℤ x.quantity,
      minus_one_*ℤ x.quantity,
      +ℤ_cancel_neg (on_hand x.item_id b.store_id s) x.quantity,
    )

    AllDeliverable-reversal :
        (whole xs : List Line)
        → IsDelivered uuid_text b whole s t
        → Sums (negsuc 0) whole xs
        → NoneNegative b.store_id xs s
        → AllFresh v.event_id xs s
        → AllDeliverable uuid_text b xs s
        → AllDeliverable uuid_text v xs t
    unfolding would_go_negative
    AllDeliverable-reversal whole [] d q n f a = tt
    AllDeliverable-reversal whole (x ∷ xs) d q n f a = (
      record {
        item = a.0.item;
        found = rw d.items a.0.found;
        valid = (reversal_kind v.event_type is_reversal).1 a.0.item.item_type;
        safe = rw (back_in_stock whole x d q.0) (ground (arith, n.0));
        fresh = rw (d.others v.event_id x.item_id other_event) f.0;
      },
      a.1,
      AllDeliverable-reversal whole xs d q.1 n.1 f.1 a.2,
    )

  levels_restored :
      (b v : StockEvent) (ls : List Line) (s t w : Session)
      → b.event_type ≡ completed
      → v.event_type ≢ completed
      → v.store_id ≡ b.store_id
      → IsDelivered uuid_text b ls s t
      → IsDelivered uuid_text v ls t w
      → (i j : ℕ) → on_hand i j w ≡ on_hand i j s
  levels_restored b v ls s t w is_sale is_reversal same_store d e i j = ground (
    arith,
    d.levels i j,
    e.levels i j,
    same_store,
    sale_sign b is_sale,
    (reversal_kind v.event_type is_reversal).0,
    total_delta_cancel i ls,
    +ℤ_assoc (on_hand i j s) (total_delta (negsuc 0) i ls) (total_delta (pos 1) i ls),
    +ℤ_zero (on_hand i j s),
  )

  -- A completed sale whose lines are of different items and can all be delivered, followed by the
  -- void or the refund of the same lines at the same store under another event id, of which no line
  -- was processed yet. If no item of the lines was below zero before the sale, then every line of
  -- both is applied, and every item at every store has the stock that it had before the sale.
  pub reversal_restores_stock :
      (u : IsUuidText uuid_text) (b v : StockEvent) (s : Session)
      → b.event_type ≡ completed
      → v.event_type ≢ completed
      → v.store_id ≡ b.store_id
      → v.event_id ≢ b.event_id
      → v.line_items ≡ b.line_items
      → AllDeliverable uuid_text b b.line_items s
      → NoneNegative b.store_id b.line_items s
      → AllFresh v.event_id b.line_items s
      → let (first, t) = receive_stock_event uuid_text b s in
        let (second, w) = receive_stock_event uuid_text v t in
        (first ≡ map applied_line b.line_items)
        × (second ≡ map applied_line b.line_items)
        × ((i j : ℕ) → on_hand i j w ≡ on_hand i j s)
  unfolding receive_stock_event
  reversal_restores_stock u b v s is_sale is_reversal same_store other_event same_lines d n f =
      let first = receive_lines-IsDelivered uuid_text u b b.line_items s d in
      let t = (receive_lines uuid_text b b.line_items s).1 in
      let again =
        AllDeliverable-reversal b v s t is_sale is_reversal same_store other_event b.line_items
          b.line_items first.1 (Sums-AllDeliverable (negsuc 0) b b.line_items s d) n f d in
      let second = receive_lines-IsDelivered uuid_text u v b.line_items t again in
      simp same_lines (
        first.0,
        second.0,
        levels_restored b v b.line_items s t _ is_sale is_reversal same_store first.1 second.1,
      )
