-- ===== src/Inventory/Production/Examples.antt =====
-- Tests of the undoing of a production, and its theorems at concrete inputs: 2.000 of rice, item 4,
-- have become 10.000 plates of pilau, item 6, at store 7.
use Prim.Native.Char.{Char, code}
use foodo.Prelude.{
  ℕ, ℤ, pos, ◌+ℤ◌, ◌-ℤ◌, ◌≡◌, refl, String, Bool, true, false, none, some, [], ◌∷◌, Option, ok, err,
  ◌==◌,
}
use foodo.Inventory.Model.{Item, sellable, raw_material, Session, Tables, user}
use foodo.Inventory.Rules.{invalid_actor_type, validate_item_type}
use foodo.Inventory.Movement.{
  record_movement, apply_movement, check_movement, write_movement, lock_item, lock_stock_level,
  would_go_negative, actor_of, is_repeat, find_item,
}
use foodo.Inventory.Movement.Outcome.{on_hand}
use foodo.Inventory.Movement.Levels.{quantity_at, find_level}
use foodo.Inventory.Legs.{perform_legs}
use foodo.Inventory.Legs.Effect.{AllFound}
use foodo.Inventory.Production.{
  Recipe, Book, Kitchen, ProductionEvent, movement_failed, find_event, find_recipe, components_of,
  or_rollback, in_stock, leg_of,
}
use foodo.Inventory.Production.Void.{
  VoidRequest, reversal_legs, undo_event, clean_reason, void_production_event, voided_event,
}
use foodo.Inventory.Production.Void.Outcome.{legs_of}
use foodo.Inventory.Production.Void.Effect.{
  void_production_event-levels, void_production_event_atomic, void_production_event_succeeds,
  void_production_event_again,
}

abbrev item_at : ℕ → Option ℤ → Bool → Item
item_at i cost negative = record {
  id = i;
  business_id = 9;
  store_id = 7;
  reorder_threshold = pos 0;
  unit_cost = cost;
  allow_negative_stock = negative;
  item_type = raw_material;
}

abbrev plate : Item
plate = record (item_at 6 none false) { item_type = sellable }

abbrev stock_of : ℤ → Session
stock_of rice =
    let rows : Tables = record {
      items = item_at 4 (some (pos 20000)) false ∷ item_at 5 none true ∷ plate ∷ [];
      levels = record { item_id = 4; store_id = 7; current_quantity = rice } ∷ [];
      movements = [];
      processed = [];
    } in
    record { rows = rows; committed = rows; outbox = [] }

abbrev pilau : Recipe
pilau = record {
  id = 3;
  business_id = 9;
  name = "Pilau";
  sellable_item_id = some 6;
  target_yield_quantity = pos 1000;
}

abbrev kitchen_with : ℤ → Kitchen
kitchen_with rice = record {
  stock = stock_of rice;
  book = record { events = []; used = []; runs = []; lines = [] };
  committed_book = record { events = []; used = []; runs = []; lines = [] };
  recipes = pilau ∷ [];
  recipe_components = [];
  next_id = 40;
  notices = [];
}

abbrev undo : VoidRequest
undo = record {
  business_id = 9;
  event_id = 40;
  reason = some "  wrong pot ";
  actor_type = "user";
  actor_id = some 2;
}

abbrev uuid : ℕ → String
uuid n = "u"

abbrev blank : Char → Bool
blank c = code c == 32

-- The texts of a reason.
undo_reason-stripped : clean_reason uuid blank (some "  wrong pot ") ≡ "wrong pot"
unfolding clean_reason
undo_reason-stripped = refl

undo_reason-missing : clean_reason uuid blank (some "  ") ≡ "Undone by staff"
unfolding clean_reason
undo_reason-missing = refl

pilau-found : find_recipe 3 (pilau ∷ []) ≡ some pilau
unfolding find_recipe
pilau-found = refl

user-known : actor_of "user" ≡ some user
unfolding actor_of
user-known = refl

-- The event of the ten plates, as a row.
abbrev plates_event : ProductionEvent
plates_event = record {
  id = 40;
  business_id = 9;
  store_id = 7;
  recipe_id = 3;
  actual_output_quantity = pos 10000;
  production_cost_per_unit = none;
  run_id = none;
  actor_id = some 2;
  voided_at = none;
  void_reason = none;
}

abbrev plates_book : Book
plates_book = record {
  events = plates_event ∷ [];
  used =
      record { production_event_id = 40; raw_material_item_id = 4; quantity_consumed = pos 2000 }
      ∷ [];
  runs = [];
  lines = [];
}

abbrev cooked : Kitchen
cooked = record (kitchen_with (pos 3000)) { book = plates_book; committed_book = plates_book }

plates_event-found : find_event 40 9 plates_book.events ≡ some plates_event
unfolding find_event
plates_event-found = refl

items-found :
    AllFound (legs_of uuid blank undo 100 cooked plates_event "Pilau" 6) cooked.stock.items
unfolding reversal_legs components_of leg_of find_item
items-found = ((item_at 4 (some (pos 20000)) false, refl), ((plate, refl), tt))

void_production_event_succeeds_example :
    (void_production_event uuid blank undo 100 cooked).0
    ≡ ok (voided_event uuid blank undo 100 plates_event)
void_production_event_succeeds_example =
    void_production_event_succeeds uuid blank undo 100 cooked plates_event pilau 6 user
      plates_event-found refl pilau-found refl user-known items-found

void_production_event-levels_example :
    on_hand 4 7 (void_production_event uuid blank undo 100 cooked).1.stock ≡ pos 5000
unfolding find_level quantity_at components_of ◌+ℤ◌ ◌-ℤ◌
void_production_event-levels_example =
    void_production_event-levels uuid blank undo 100 cooked plates_event
      (voided_event uuid blank undo 100 plates_event) pilau 6
      (void_production_event_succeeds uuid blank undo 100 cooked plates_event pilau 6 user
        plates_event-found refl pilau-found refl user-known items-found)
      plates_event-found refl pilau-found refl 4 7

abbrev undone : Kitchen
undone = (void_production_event uuid blank undo 100 cooked).1

-- The second tap, with another reason.
void_production_event_again_example :
    void_production_event uuid blank (record undo { reason = none }) 160 undone
    ≡ (ok (voided_event uuid blank undo 100 plates_event), undone)
void_production_event_again_example =
    void_production_event_again uuid blank undo 100 cooked
      (voided_event uuid blank undo 100 plates_event) (record undo { reason = none }) 160
      (void_production_event_succeeds uuid blank undo 100 cooked plates_event pilau 6 user
        plates_event-found refl pilau-found refl user-known items-found)
      refl refl

abbrev undo_by_robot : VoidRequest
undo_by_robot = record undo { actor_type = "robot" }

robot-refused :
    (void_production_event uuid blank undo_by_robot 100 cooked).0
    ≡ err (movement_failed invalid_actor_type)
unfolding void_production_event undo_event or_rollback in_stock perform_legs reversal_legs
    components_of leg_of record_movement apply_movement check_movement write_movement lock_item
    lock_stock_level would_go_negative actor_of is_repeat find_item find_level validate_item_type
    find_event find_recipe ◌+ℤ◌ ◌-ℤ◌
robot-refused = refl

void_production_event_atomic_example :
    (void_production_event uuid blank undo_by_robot 100 cooked).1 ≡ cooked
void_production_event_atomic_example =
    void_production_event_atomic uuid blank undo_by_robot 100 cooked
      (movement_failed invalid_actor_type) (record { stock = refl; book = refl }) robot-refused
