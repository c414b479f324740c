-- ===== src/Inventory/Movement/Outcome.antt =====
-- The ways in which a call of `record_movement` can end, each with the state that it leaves.
use foodo.Prelude.{
  ℕ, ℤ, ◌+ℤ◌, ◌≡◌, refl, inl, inr, true, false, none, some, arith, if◌then◌else◌, is_some, ok, err,
  Result, ◌>>=◌, Bool-cases, Option-cases,
}
use foodo.Inventory.Model.{Item, ActorType, Session}
use foodo.Inventory.Rules.{
  MoveError, item_not_found, insufficient_stock, invalid_actor_type, validate_item_type,
}
use foodo.Inventory.Movement.{
  Move, lock_item, lock_stock_level, check_movement, write_movement, apply_movement, find_item,
  would_go_negative, add_level, actor_of, write_quantity, add_movement, add_processed,
  commit_and_publish, movement_of,
}
use foodo.Inventory.Movement.Levels.{find_level, quantity_at}

abbrev pub on_hand : ℕ → ℕ → Session → ℤ
on_hand i r s = quantity_at i r s.levels

-- The state after Step 3: the level's row is there.
unfoldable pub with_level : ℕ → ℕ → Session → Session
with_level i r s = if is_some (find_level i r s.levels) then s else add_level i r s

lock_stock_level_lem :
    (i r : ℕ) (s : Session) → lock_stock_level i r s ≡ (ok (on_hand i r s), with_level i r s)
unfolding lock_stock_level with_level quantity_at
lock_stock_level_lem i r s = ground arith

abbrev pub new_quantity : Move → Session → ℤ
new_quantity m s = on_hand m.item_id m.store_id s +ℤ m.quantity_delta

-- The state after Step 5.
abbrev pub levelled : Move → Session → Session
levelled m s =
    write_quantity m.item_id m.store_id (new_quantity m s) (with_level m.item_id m.store_id s)

-- The state after Step 7.
abbrev pub recorded : Move → Item → ActorType → Session → Session
recorded m item actor s =
    add_processed m.event_id (add_movement (movement_of m item actor) (levelled m s))

-- The state after Step 8.
abbrev pub finished : Move → Item → ActorType → Session → Session
finished m item actor s =
    (if m.commit
        then commit_and_publish m item (on_hand m.item_id m.store_id s) (new_quantity m s)
        else λ t. t)
      (recorded m item actor s)

-- The cases of Steps 1 to 8.
pub data Outcome (m : Move) (s : Session) : Type 0 where
  unknown_item :
      find_item m.item_id s.items ≡ none
      → apply_movement m s ≡ (err (item_not_found m.item_id), s)
      → Outcome m s
  mismatch :
      (item : Item)
      → find_item m.item_id s.items ≡ some item
      → (e : MoveError) → validate_item_type item.item_type m.movement_type ≡ err e
      → apply_movement m s ≡ (err e, s)
      → Outcome m s
  insufficient :
      (item : Item)
      → find_item m.item_id s.items ≡ some item
      → validate_item_type item.item_type m.movement_type ≡ ok tt
      → would_go_negative m.skip_negative_check (new_quantity m s) item.allow_negative_stock ≡ true
      → apply_movement m s
        ≡ (err (insufficient_stock m.item_id m.store_id), with_level m.item_id m.store_id s)
      → Outcome m s
  bad_actor :
      (item : Item)
      → find_item m.item_id s.items ≡ some item
      → would_go_negative m.skip_negative_check (new_quantity m s) item.allow_negative_stock ≡ false
      → actor_of m.actor_type ≡ none
      → apply_movement m s ≡ (err invalid_actor_type, levelled m s)
      → Outcome m s
  done :
      (item : Item) (actor : ActorType)
      → find_item m.item_id s.items ≡ some item
      → validate_item_type item.item_type m.movement_type ≡ ok tt
      → would_go_negative m.skip_negative_check (new_quantity m s) item.allow_negative_stock ≡ false
      → actor_of m.actor_type ≡ some actor
      → apply_movement m s ≡ (ok (some (movement_of m item actor)), finished m item actor s)
      → Outcome m s

write_movement_lem :
    (m : Move) (item : Item) (actor : ActorType) (s : Session)
    → actor_of m.actor_type ≡ some actor
    → write_movement m item (on_hand m.item_id m.store_id s) (with_level m.item_id m.store_id s)
      ≡ (ok (some (movement_of m item actor)), finished m item actor s)
unfolding write_movement
write_movement_lem m item actor s h = rw h

write_movement_bad :
    (m : Move) (item : Item) (s : Session)
    → actor_of m.actor_type ≡ none
    → write_movement m item (on_hand m.item_id m.store_id s) (with_level m.item_id m.store_id s)
      ≡ (err invalid_actor_type, levelled m s)
unfolding write_movement
write_movement_bad m item s h = rw h

module _ (m : Move) (s : Session) (item : Item)
    (found : find_item m.item_id s.items ≡ some item) where
  module _ (valid : validate_item_type item.item_type m.movement_type ≡ ok tt) where
    check_movement_negative :
        would_go_negative m.skip_negative_check (new_quantity m s) item.allow_negative_stock ≡ true
        → check_movement m s
          ≡ (err (insufficient_stock m.item_id m.store_id), with_level m.item_id m.store_id s)
    unfolding check_movement lock_item
    check_movement_negative h = rw (found, ◌>>=◌, valid, lock_stock_level_lem, h)

    check_movement_lem :
        would_go_negative m.skip_negative_check (new_quantity m s) item.allow_negative_stock ≡ false
        → check_movement m s
          ≡ (ok (item, on_hand m.item_id m.store_id s), with_level m.item_id m.store_id s)
    unfolding check_movement lock_item
    check_movement_lem h = rw (found, ◌>>=◌, valid, lock_stock_level_lem, h)

    Outcome-safe :
        would_go_negative m.skip_negative_check (new_quantity m s) item.allow_negative_stock ≡ false
        → Outcome m s
    unfolding apply_movement
    Outcome-safe safe = elim (Option-cases (actor_of m.actor_type)) [
      | inl e ↦
          bad_actor item found safe e (rw (check_movement_lem safe) (write_movement_bad m item s e))
      | inr (actor, e) ↦
          done item actor found valid safe e
            (rw (check_movement_lem safe) (write_movement_lem m item actor s e))
    ]

    Outcome-valid : Outcome m s
    unfolding apply_movement
    Outcome-valid =
        elim (Bool-cases
          (would_go_negative m.skip_negative_check (new_quantity m s) item.allow_negative_stock)) [
            | inl e ↦ insufficient item found valid e (rw (check_movement_negative e))
            | inr e ↦ Outcome-safe e
          ]

  Outcome-found :
      (r : Result MoveError (Unit {0}))
      → validate_item_type item.item_type m.movement_type ≡ r
      → Outcome m s
  unfolding apply_movement check_movement lock_item
  Outcome-found (ok _) e = Outcome-valid e
  Outcome-found (err e) h = mismatch item found e h (rw (found, ◌>>=◌, h))

pub outcome : (m : Move) (s : Session) → Outcome m s
unfolding apply_movement check_movement lock_item
outcome m s = elim (Option-cases (find_item m.item_id s.items)) [
  | inl e ↦ unknown_item e (rw (e, ◌>>=◌))
  | inr (item, e) ↦
      Outcome-found m s item e (validate_item_type item.item_type m.movement_type) refl
]
