-- ===== src/Inventory/Movement.antt =====
-- `record_movement` of services/inventory-service/app/services/stock_movement_service.py, the one
-- writer of stock levels and stock movements. Each step of the source is a definition.
pub mod Levels
pub mod Outcome
pub mod Effect
pub mod Ledger
pub mod Refusal
use foodo.Prelude.{
  ℕ, ℤ, pos, ◌+ℤ◌, ltb_ℤ, leb_ℤ, String, Bool, true, false, not, ◌&&◌, ◌||◌, Option, none, some,
  List, [], ◌∷◌, ◌++◌, ◌==◌, if◌then◌else◌, Exec, ok, err, pure, lift, or_raise, raise_if, modify,
  ◌>>=◌, ◌>>◌,
}
use text.Mathlib.Text.{◌==◌ as str_eq}
use foodo.Inventory.Model.{
  Item, StockLevel, StockMovement, Tables, Session, Message, stock_adjusted, stock_low,
  audit_recorded, MovementType, manual_adjustment, waste, ActorType, user, system, service,
}
use foodo.Inventory.Rules.{
  MoveError, item_not_found, insufficient_stock, invalid_actor_type, validate_item_type, is_member,
}
use Levels.{find_level, set_level, quantity_of}

-- The arguments of a call. The quantity and the cost are integers of the column's last digit.
pub record Move : Type 0 where
  pub item_id : ℕ
  pub business_id : ℕ
  pub store_id : ℕ
  pub quantity_delta : ℤ
  pub movement_type : MovementType
  pub reference_type : Option String
  pub reference_id : Option ℕ
  pub actor_type : String
  pub actor_id : Option ℕ
  pub reason : Option String
  pub event_id : Option String
  pub commit : Bool
  pub skip_negative_check : Bool
  pub unit_cost : Option ℤ

-- `db.get(ProcessedEvent, event_id)`
unfoldable pub is_processed : String → List String → Bool
is_processed e [] = false
is_processed e (x ∷ xs) = str_eq x e || is_processed e xs

-- The test of Step 0.
unfoldable pub is_repeat : Option String → List String → Bool
is_repeat none processed = false
is_repeat (some e) processed = is_processed e processed

-- Step 0 returns the newest movement of the item at the store.
unfoldable pub latest_movement : ℕ → ℕ → List StockMovement → Option StockMovement
latest_movement i s [] = none
latest_movement i s (m ∷ ms) =
    if m.item_id == i && m.store_id == s then some m else latest_movement i s ms

unfoldable pub find_item : ℕ → List Item → Option Item
find_item i [] = none
find_item i (x ∷ xs) = if x.id == i then some x else find_item i xs

-- Step 1.
unfoldable pub lock_item : ℕ → Exec Session MoveError Item
lock_item i s = or_raise (find_item i s.items) (item_not_found i) s

abbrev empty_level : ℕ → ℕ → StockLevel
empty_level i r = record { item_id = i; store_id = r; current_quantity = pos 0 }

abbrev add_level : ℕ → ℕ → Session → Session
add_level i r s = record s { rows = record s.rows { levels = empty_level i r ∷ s.levels } }

-- Step 3: a missing row is added with quantity zero. Returns the old quantity.
unfoldable pub lock_stock_level : ℕ → ℕ → Exec Session MoveError ℤ
lock_stock_level i r s = elim (find_level i r s.levels) [
  | none ↦ (ok (pos 0), add_level i r s)
  | some l ↦ (ok l.current_quantity, s)
]

-- Step 4: the condition under which the movement is refused.
unfoldable pub would_go_negative : Bool → ℤ → Bool → Bool
would_go_negative skip_negative_check new_quantity allow_negative_stock =
    not skip_negative_check && ltb_ℤ new_quantity (pos 0) && not allow_negative_stock

-- Step 5.
unfoldable pub write_quantity : ℕ → ℕ → ℤ → Session → Session
write_quantity i r q s = record s { rows = record s.rows { levels = set_level i r q s.levels } }

-- `ActorType(actor_type)`
unfoldable pub actor_of : String → Option ActorType
actor_of t =
    if str_eq t "user"
    then some user
    else if str_eq t "system"
    then some system
    else if str_eq t "service"
    then some service
    else none

-- The cost of the call, or else the item's cost at this moment.
unfoldable pub frozen_cost : Option ℤ → Option ℤ → Option ℤ
frozen_cost none item_cost = item_cost
frozen_cost (some c) item_cost = some c

-- Step 6.
unfoldable pub movement_of : Move → Item → ActorType → StockMovement
movement_of m item actor = record {
  item_id = m.item_id;
  business_id = m.business_id;
  store_id = m.store_id;
  quantity_delta = m.quantity_delta;
  unit_cost = frozen_cost m.unit_cost item.unit_cost;
  movement_type = m.movement_type;
  reference_type = m.reference_type;
  reference_id = m.reference_id;
  actor_type = actor;
  actor_id = m.actor_id;
  reason = m.reason;
}

unfoldable pub add_movement : StockMovement → Session → Session
add_movement v s = record s { rows = record s.rows { movements = v ∷ s.movements } }

-- Step 7.
unfoldable pub add_processed : Option String → Session → Session
add_processed none s = s
add_processed (some e) s = record s { rows = record s.rows { processed = e ∷ s.processed } }

-- `_should_publish_low_stock`
unfoldable pub should_publish_low_stock : ℤ → ℤ → ℤ → Bool
should_publish_low_stock old_quantity new_quantity reorder_threshold =
    leb_ℤ reorder_threshold old_quantity && ltb_ℤ new_quantity reorder_threshold

-- Step 8: the messages in the order in which they are published.
unfoldable pub messages_of : Move → Item → ℤ → ℤ → List Message
unfolding should_publish_low_stock is_member
messages_of m item old_quantity new_quantity =
    stock_adjusted m.item_id m.business_id m.store_id m.movement_type m.quantity_delta new_quantity
    ∷ ((if should_publish_low_stock old_quantity new_quantity item.reorder_threshold
          then stock_low m.item_id m.business_id m.store_id new_quantity item.reorder_threshold ∷ []
          else [])
        ++ (if is_member m.movement_type (manual_adjustment ∷ waste ∷ [])
            then audit_recorded m.actor_id m.business_id m.movement_type m.item_id m.reason
                m.quantity_delta
              ∷ []
            else []))

unfoldable pub commit_and_publish : Move → Item → ℤ → ℤ → Session → Session
commit_and_publish m item old_quantity new_quantity s = record s {
  committed = s.rows;
  outbox = s.outbox ++ messages_of m item old_quantity new_quantity;
}

-- Steps 1 to 4: the row locks and the checks. Returns the item and the old quantity.
unfoldable pub check_movement : Move → Exec Session MoveError (Item × ℤ)
check_movement m = do
  item ← lock_item m.item_id
  lift (validate_item_type item.item_type m.movement_type)
  old_quantity ← lock_stock_level m.item_id m.store_id
  raise_if
      (would_go_negative m.skip_negative_check (old_quantity +ℤ m.quantity_delta)
        item.allow_negative_stock)
      (insufficient_stock m.item_id m.store_id)
  pure (item, old_quantity)

-- Steps 5 to 8: the writes, the commit and the messages.
unfoldable pub write_movement : Move → Item → ℤ → Exec Session MoveError (Option StockMovement)
write_movement m item old_quantity = do
  let new_quantity = old_quantity +ℤ m.quantity_delta
  modify (write_quantity m.item_id m.store_id new_quantity)
  actor ← or_raise (actor_of m.actor_type) invalid_actor_type
  modify (add_movement (movement_of m item actor))
  modify (add_processed m.event_id)
  modify (if m.commit then commit_and_publish m item old_quantity new_quantity else λ s. s)
  pure (some (movement_of m item actor))

unfoldable pub apply_movement : Move → Exec Session MoveError (Option StockMovement)
apply_movement m = do checked ← check_movement m; write_movement m checked.0 checked.1

-- With Step 0: an event that was processed before writes nothing.
unfoldable pub record_movement : Move → Exec Session MoveError (Option StockMovement)
record_movement m s =
    if is_repeat m.event_id s.processed
    then (ok (latest_movement m.item_id m.store_id s.movements), s)
    else apply_movement m s
