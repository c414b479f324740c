-- ===== src/Inventory/Movement/Refusal.antt =====
-- When `record_movement` raises, what it leaves behind, and what a repeated event does.
use text.Mathlib.TextPositions.{eq_refl}
use foodo.Prelude.{
  ℕ, pos, ◌≡◌, refl, inl, inr, ◌↔◌, true, false, Option, none, some, List, arith, ok, err,
  Bool-cases, ltb_ℤ, String,
}
use foodo.Inventory.Model.{Item, StockMovement, Session}
use foodo.Inventory.Rules.{MoveError, insufficient_stock, validate_item_type}
use foodo.Inventory.Movement.{
  Move, apply_movement, record_movement, find_item, would_go_negative, is_repeat, is_processed,
  latest_movement,
}
use foodo.Inventory.Movement.Outcome.{
  new_quantity, on_hand, Outcome, outcome, unknown_item, mismatch, insufficient, bad_actor, done,
}
use foodo.Inventory.Movement.Effect.{
  on_hand-with_level, rest-with_level, processed-finished, processed-add_processed, rest-levelled,
  with_event,
}

-- What a failed call leaves: the ledger, the processed events, the last commit and the messages.
pub record IsUntouched (s t : Session) : Type 0 where
  pub movements : t.movements ≡ s.movements
  pub processed : t.processed ≡ s.processed
  pub items : t.items ≡ s.items
  pub committed : t.committed ≡ s.committed
  pub outbox : t.outbox ≡ s.outbox

IsUntouched-of :
    {s t : Session}
    → (t.movements ≡ s.movements)
      × (t.items ≡ s.items)
      × (t.processed ≡ s.processed)
      × (t.committed ≡ s.committed)
      × (t.outbox ≡ s.outbox)
    → IsUntouched s t
IsUntouched-of h = record {
  movements = h.0;
  processed = h.2;
  items = h.1;
  committed = h.3;
  outbox = h.4;
}

apply_movement-IsUntouched :
    (m : Move) (s : Session) (e : MoveError)
    → (apply_movement m s).0 ≡ err e
    → Outcome m s
    → IsUntouched s (apply_movement m s).1
apply_movement-IsUntouched m s e h (unknown_item _ r) =
    rw r (IsUntouched-of (refl, refl, refl, refl, refl))
apply_movement-IsUntouched m s e h (mismatch _ _ _ _ r) =
    rw r (IsUntouched-of (refl, refl, refl, refl, refl))
apply_movement-IsUntouched m s e h (insufficient _ _ _ _ r) =
    rw r (IsUntouched-of (rest-with_level m.item_id m.store_id s))
apply_movement-IsUntouched m s e h (bad_actor _ _ _ _ r) = rw r (IsUntouched-of (rest-levelled m s))
apply_movement-IsUntouched m s e h (done _ _ _ _ _ _ r) = absurd (cc)

-- A call that raises writes no movement and no processed event, commits nothing and publishes
-- nothing.
pub record_movement-IsUntouched :
    (m : Move) (s : Session) (e : MoveError)
    → (record_movement m s).0 ≡ err e
    → IsUntouched s (record_movement m s).1
unfolding record_movement
record_movement-IsUntouched m s e h = elim (Bool-cases (is_repeat m.event_id s.processed)) [
  | inl r ↦ absurd (ground arith)
  | inr r ↦ rw r (apply_movement-IsUntouched m s e (rw r at h) (outcome m s))
]

apply_movement-insufficient_levels :
    (m : Move) (s : Session) (a b : ℕ)
    → (apply_movement m s).0 ≡ err (insufficient_stock a b)
    → Outcome m s
    → (i j : ℕ) → on_hand i j (apply_movement m s).1 ≡ on_hand i j s
apply_movement-insufficient_levels m s a b h (unknown_item _ r) i j = rw r refl
apply_movement-insufficient_levels m s a b h (mismatch _ _ _ _ r) i j = rw r refl
apply_movement-insufficient_levels m s a b h (insufficient _ _ _ _ r) i j =
    rw r (on_hand-with_level m.item_id m.store_id s i j)
apply_movement-insufficient_levels m s a b h (bad_actor _ _ _ _ r) i j = absurd (cc)
apply_movement-insufficient_levels m s a b h (done _ _ _ _ _ _ r) i j = absurd (cc)

-- A call that is refused for want of stock leaves every level as it was.
pub record_movement-insufficient_levels :
    (m : Move) (s : Session) (a b : ℕ)
    → (record_movement m s).0 ≡ err (insufficient_stock a b)
    → (i j : ℕ) → on_hand i j (record_movement m s).1 ≡ on_hand i j s
unfolding record_movement
record_movement-insufficient_levels m s a b h i j =
    elim (Bool-cases (is_repeat m.event_id s.processed)) [
      | inl r ↦ rw r refl
      | inr r ↦ rw r (apply_movement-insufficient_levels m s a b (rw r at h) (outcome m s) i j)
    ]

apply_movement-insufficient_iff :
    (m : Move) (s : Session) (item : Item)
    → find_item m.item_id s.items ≡ some item
    → validate_item_type item.item_type m.movement_type ≡ ok tt
    → Outcome m s
    → ((apply_movement m s).0 ≡ err (insufficient_stock m.item_id m.store_id)) ↔ (
        (m.skip_negative_check ≡ false)
        × (item.allow_negative_stock ≡ false)
        × (ltb_ℤ (new_quantity m s) (pos 0) ≡ true))
unfolding would_go_negative
apply_movement-insufficient_iff m s item found valid (unknown_item f r) = absurd (cc)
apply_movement-insufficient_iff m s item found valid (mismatch i f e v r) = absurd (cc)
apply_movement-insufficient_iff m s item found valid (insufficient i f v n r) =
    rw r (λ h. ground arith, λ h. refl)
apply_movement-insufficient_iff m s item found valid (bad_actor i f n a r) =
    rw r (λ h. absurd (cc), λ h. absurd (ground arith))
apply_movement-insufficient_iff m s item found valid (done i a f v n _ r) =
    rw r (λ h. absurd (cc), λ h. absurd (ground arith))

-- For an item that is there and may be moved this way, a first call is refused for want of stock
-- exactly when the check is on, the item forbids negative stock, and the new quantity is negative.
pub record_movement-insufficient_iff :
    (m : Move) (s : Session) (item : Item)
    → is_repeat m.event_id s.processed ≡ false
    → find_item m.item_id s.items ≡ some item
    → validate_item_type item.item_type m.movement_type ≡ ok tt
    → ((record_movement m s).0 ≡ err (insufficient_stock m.item_id m.store_id)) ↔ (
        (m.skip_negative_check ≡ false)
        × (item.allow_negative_stock ≡ false)
        × (ltb_ℤ (new_quantity m s) (pos 0) ≡ true))
unfolding record_movement
record_movement-insufficient_iff m s item fresh found valid =
    rw fresh (apply_movement-insufficient_iff m s item found valid (outcome m s))

-- A call that succeeds leaves its event among the processed ones.
apply_movement-is_repeat :
    (m : Move) (s : Session) (v : Option StockMovement) (e : String)
    → m.event_id ≡ some e
    → (apply_movement m s).0 ≡ ok v
    → Outcome m s
    → is_processed e (apply_movement m s).1.processed ≡ true
unfolding is_processed
apply_movement-is_repeat m s v e h r (unknown_item _ q) = absurd (cc)
apply_movement-is_repeat m s v e h r (mismatch _ _ _ _ q) = absurd (cc)
apply_movement-is_repeat m s v e h r (insufficient _ _ _ _ q) = absurd (cc)
apply_movement-is_repeat m s v e h r (bad_actor _ _ _ _ q) = absurd (cc)
apply_movement-is_repeat m s v e h r (done i a _ _ _ _ q) =
    rw (q, processed-finished m i a s, processed-add_processed m.event_id s, h, eq_refl)

pub record_movement-is_repeat :
    (m : Move) (s : Session) (v : Option StockMovement) (e : String)
    → m.event_id ≡ some e
    → (record_movement m s).0 ≡ ok v
    → is_processed e (record_movement m s).1.processed ≡ true
unfolding record_movement is_repeat
record_movement-is_repeat m s v e h r = elim (Bool-cases (is_repeat m.event_id s.processed)) [
  | inl q ↦ rw q (ground arith)
  | inr q ↦ rw q (apply_movement-is_repeat m s v e h (rw q at r) (outcome m s))
]

pub record_movement_repeat :
    (m : Move) (s : Session) (e : String)
    → m.event_id ≡ some e
    → is_processed e s.processed ≡ true
    → (w : Option StockMovement) × (record_movement m s ≡ (ok w, s))
unfolding record_movement is_repeat
record_movement_repeat m s e h p = (latest_movement m.item_id m.store_id s.movements, ground arith)

-- Once a call with an event id has succeeded, every later call with that id succeeds and changes
-- nothing, whatever its other arguments.
pub record_movement_again :
    (m m' : Move) (s : Session) (v : Option StockMovement) (e : String)
    → m.event_id ≡ some e
    → m'.event_id ≡ some e
    → (record_movement m s).0 ≡ ok v
    → let t = (record_movement m s).1 in
      (w : Option StockMovement) × (record_movement m' t ≡ (ok w, t))
record_movement_again m m' s v e h h' r =
    record_movement_repeat m' (record_movement m s).1 e h' (record_movement-is_repeat m s v e h r)

with_event-keeps :
    (o : Option String) (e : String) (es : List String)
    → is_processed e es ≡ true
    → is_processed e (with_event o es) ≡ true
unfolding is_processed
with_event-keeps none e es h = h
with_event-keeps (some x) e es h = ground arith

apply_movement-keeps_processed :
    (m : Move) (s : Session) (e : String)
    → is_processed e s.processed ≡ true
    → Outcome m s
    → is_processed e (apply_movement m s).1.processed ≡ true
apply_movement-keeps_processed m s e h (unknown_item _ q) = rw q h
apply_movement-keeps_processed m s e h (mismatch _ _ _ _ q) = rw q h
apply_movement-keeps_processed m s e h (insufficient _ _ _ _ q) =
    rw (q, (rest-with_level m.item_id m.store_id s).2) h
apply_movement-keeps_processed m s e h (bad_actor _ _ _ _ q) = rw (q, (rest-levelled m s).2) h
apply_movement-keeps_processed m s e h (done i a _ _ _ _ q) =
    rw (q, processed-finished m i a s, processed-add_processed m.event_id s)
      (with_event-keeps m.event_id e s.processed h)

-- No call forgets a processed event.
pub record_movement-keeps_processed :
    (m : Move) (s : Session) (e : String)
    → is_processed e s.processed ≡ true
    → is_processed e (record_movement m s).1.processed ≡ true
unfolding record_movement
record_movement-keeps_processed m s e h = elim (Bool-cases (is_repeat m.event_id s.processed)) [
  | inl q ↦ rw q h
  | inr q ↦ rw q (apply_movement-keeps_processed m s e h (outcome m s))
]
