-- ===== src/Inventory/Examples.antt =====
-- Tests of the stock code, and its theorems at concrete inputs: a kitchen with 10.000 portions of
-- item 1, 5.000 bottles of item 2 and no flour, item 3, at store 7.
use foodo.Prelude.{
  ℕ, zero, suc, ℤ, pos, negsuc, ◌+ℤ◌, ltb_ℤ, ◌≡◌, refl, sym, ap, String, Bool, true, false, Option,
  none, some, List, [], ◌∷◌, map, arith, ok, err, ◌↔◌, ◌≢◌,
}
use Prim.Native.Char.{code}
use text.Mathlib.TextLemmas.{head-eq_of_cons-eq, tail-eq_of_cons-eq, cons-ne-nil}
use foodo.Inventory.Model.{
  Item, sellable, both, raw_material, StockMovement, Tables, Session, waste, manual_adjustment,
  user,
}
use foodo.Inventory.Rules.{insufficient_stock, validate_item_type}
use foodo.Inventory.Movement.{
  Move, record_movement, apply_movement, check_movement, write_movement, lock_item,
  lock_stock_level, would_go_negative, write_quantity, actor_of, movement_of, add_movement,
  add_processed, commit_and_publish, is_repeat, is_processed, find_item,
}
use foodo.Inventory.Movement.Levels.{quantity_at, find_level, set_level}
use foodo.Inventory.Movement.Outcome.{on_hand, new_quantity}
use foodo.Inventory.Movement.Ledger.{IsStocked, record_movement-IsStocked}
use foodo.Inventory.Movement.Refusal.{
  IsUntouched, record_movement-insufficient_iff, record_movement_again,
}
use foodo.Inventory.Events.{Line}
use foodo.Inventory.Events.Keys.{NoColon, IsUuidText, line_key_inj}
use foodo.Inventory.Ingest.{
  StockEvent, completed, voided, applied, failed, receive_stock_event, receive_line, receive_lines,
}
use foodo.Inventory.Ingest.Delivery.{receive_line-IsApplied}
use foodo.Inventory.Ingest.Effect.{
  applied_line, AllDeliverable, IsDelivered, receive_lines-IsDelivered,
}
use foodo.Inventory.Ingest.Reversal.{reversal_restores_stock}
use foodo.Inventory.Ingest.Redelivery.{
  redelivery_changes_nothing, second_line_of_item_dropped, reversal_refused_if_oversold,
}

-- A rendering of identifiers: as many letters as the number says.
letters : ℕ → String
letters zero = String.[]
letters (suc n) = String.◌∷◌ "a" (letters n)

letters-injective : (i j : ℕ) → letters i ≡ letters j → i ≡ j
unfolding letters
letters-injective zero zero h = refl
letters-injective zero (suc j) h = absurd (cons-ne-nil _ _ (sym h))
letters-injective (suc i) zero h = absurd (cons-ne-nil _ _ h)
letters-injective (suc i) (suc j) h = ap suc (letters-injective i j (tail-eq_of_cons-eq h))

letters-NoColon : (i : ℕ) → NoColon (letters i)
unfolding letters
letters-NoColon zero = tt
letters-NoColon (suc i) = (λ h. omega (arith, ap code h), letters-NoColon i)

letters-IsUuidText : IsUuidText letters
letters-IsUuidText = record { injective = letters-injective; no_colon = letters-NoColon }

abbrev portion : Item
portion = record {
  id = 1;
  business_id = 9;
  store_id = 7;
  reorder_threshold = pos 4000;
  unit_cost = some (pos 15000);
  allow_negative_stock = false;
  item_type = sellable;
}

abbrev bottle : Item
bottle = record {
  id = 2;
  business_id = 9;
  store_id = 7;
  reorder_threshold = pos 2000;
  unit_cost = none;
  allow_negative_stock = false;
  item_type = both;
}

abbrev flour : Item
flour = record {
  id = 3;
  business_id = 9;
  store_id = 7;
  reorder_threshold = pos 0;
  unit_cost = none;
  allow_negative_stock = false;
  item_type = raw_material;
}

abbrev opening : ℕ → ℤ → StockMovement
opening i q = record {
  item_id = i;
  business_id = 9;
  store_id = 7;
  quantity_delta = q;
  unit_cost = none;
  movement_type = manual_adjustment;
  reference_type = none;
  reference_id = none;
  actor_type = user;
  actor_id = none;
  reason = none;
}

abbrev tables : Tables
tables = record {
  items = portion ∷ bottle ∷ flour ∷ [];
  levels =
      record { item_id = 1; store_id = 7; current_quantity = pos 10000 }
      ∷ record { item_id = 2; store_id = 7; current_quantity = pos 5000 }
      ∷ [];
  movements = opening 2 (pos 5000) ∷ opening 1 (pos 10000) ∷ [];
  processed = [];
}

abbrev kitchen : Session
kitchen = record { rows = tables; committed = tables; outbox = [] }

abbrev waste_of : ℕ → ℤ → Move
waste_of i q = record {
  item_id = i;
  business_id = 9;
  store_id = 7;
  quantity_delta = q;
  movement_type = waste;
  reference_type = none;
  reference_id = none;
  actor_type = "user";
  actor_id = some 5;
  reason = some "dropped";
  event_id = some "w1";
  commit = true;
  skip_negative_check = false;
  unit_cost = none;
}

waste_is_recorded : on_hand 1 7 (record_movement (waste_of 1 (negsuc 6999)) kitchen).1 ≡ pos 3000
unfolding record_movement apply_movement check_movement write_movement lock_item find_item
    validate_item_type lock_stock_level find_level would_go_negative write_quantity set_level
    actor_of movement_of add_movement add_processed commit_and_publish is_repeat is_processed
    quantity_at ◌+ℤ◌
waste_is_recorded = refl

kitchen-IsStocked : IsStocked kitchen
unfolding quantity_at find_level find_item
kitchen-IsStocked i j item f a = ground arith

record_movement-IsStocked_example : IsStocked (record_movement (waste_of 1 (negsuc 6999)) kitchen).1
unfolding actor_of
record_movement-IsStocked_example =
    record_movement-IsStocked (waste_of 1 (negsuc 6999)) kitchen refl refl kitchen-IsStocked

record_movement-insufficient_iff_example :
    ((record_movement (waste_of 1 (negsuc 10000)) kitchen).0 ≡ err (insufficient_stock 1 7)) ↔ (
      (◌≡◌ {A = Bool} false false)
      × (◌≡◌ {A = Bool} false false)
      × (ltb_ℤ (new_quantity (waste_of 1 (negsuc 10000)) kitchen) (pos 0) ≡ true))
unfolding is_repeat is_processed find_item validate_item_type
record_movement-insufficient_iff_example =
    record_movement-insufficient_iff (waste_of 1 (negsuc 10000)) kitchen portion refl refl refl

record_movement_again_example :
    let t = (record_movement (waste_of 1 (negsuc 6999)) kitchen).1 in
    (w : Option StockMovement) × (record_movement (waste_of 2 (negsuc 0)) t ≡ (ok w, t))
unfolding record_movement apply_movement check_movement write_movement lock_item find_item
    validate_item_type lock_stock_level find_level would_go_negative actor_of is_repeat is_processed
    ◌+ℤ◌
record_movement_again_example =
    record_movement_again (waste_of 1 (negsuc 6999)) (waste_of 2 (negsuc 0)) kitchen _ "w1" refl
      refl refl

line_key_inj_example : (◌≡◌ {A = String} "e1" "e1") × (◌≡◌ {A = ℕ} 4 4)
line_key_inj_example = line_key_inj letters letters-IsUuidText "e1" "e1" 4 4 refl

v1_ne_s1 : ◌≢◌ {A = String} "v1" "s1"
v1_ne_s1 h = absurd (omega (arith, ap code (head-eq_of_cons-eq h)))

abbrev two_lines : List Line
two_lines =
    record { item_id = 1; quantity = pos 2000 } ∷ record { item_id = 2; quantity = pos 1000 } ∷ []

abbrev sale_of : List Line → StockEvent
sale_of ls = record {
  event_type = completed;
  event_id = "s1";
  business_id = 9;
  store_id = 7;
  sale_id = 11;
  line_items = ls;
}

abbrev void_of : List Line → StockEvent
void_of ls = record {
  event_type = voided;
  event_id = "v1";
  business_id = 9;
  store_id = 7;
  sale_id = 11;
  line_items = ls;
}

two_lines-AllDeliverable : AllDeliverable letters (sale_of two_lines) two_lines kitchen
unfolding find_item validate_item_type would_go_negative is_processed
two_lines-AllDeliverable = (
  record { item = portion; found = refl; valid = refl; safe = refl; fresh = refl },
  (omega arith, tt),
  (record { item = bottle; found = refl; valid = refl; safe = refl; fresh = refl }, tt, tt),
)

receive_lines-IsDelivered_example :
    ((receive_lines letters (sale_of two_lines) two_lines kitchen).0 ≡ map applied_line two_lines)
    × IsDelivered letters
        (sale_of two_lines)
        two_lines
        kitchen
        (receive_lines letters (sale_of two_lines) two_lines kitchen).1
receive_lines-IsDelivered_example =
    receive_lines-IsDelivered letters letters-IsUuidText (sale_of two_lines) two_lines kitchen
      two_lines-AllDeliverable

reversal_restores_stock_example :
    let (first, t) = receive_stock_event letters (sale_of two_lines) kitchen in
    let (second, w) = receive_stock_event letters (void_of two_lines) t in
    (first ≡ map applied_line two_lines)
    × (second ≡ map applied_line two_lines)
    × ((i j : ℕ) → on_hand i j w ≡ on_hand i j kitchen)
unfolding is_processed quantity_at find_level
reversal_restores_stock_example =
    reversal_restores_stock letters letters-IsUuidText (sale_of two_lines) (void_of two_lines)
      kitchen refl (λ h. cc) refl (λ h. v1_ne_s1 h) refl two_lines-AllDeliverable
      (omega arith, (omega arith, tt)) (refl, (refl, tt))

two_lines_applied :
    (receive_stock_event letters (sale_of two_lines) kitchen).0 ≡ map applied_line two_lines
unfolding receive_stock_event
two_lines_applied =
    (receive_lines-IsDelivered letters letters-IsUuidText (sale_of two_lines) two_lines kitchen
      two_lines-AllDeliverable).0

redelivery_changes_nothing_example :
    let t = (receive_stock_event letters (sale_of two_lines) kitchen).1 in
    receive_stock_event letters (sale_of two_lines) t ≡ (map applied_line two_lines, t)
redelivery_changes_nothing_example =
    redelivery_changes_nothing letters (sale_of two_lines) kitchen two_lines_applied

abbrev one_portion : Line
one_portion = record { item_id = 1; quantity = pos 1000 }

abbrev three_portions : Line
three_portions = record { item_id = 1; quantity = pos 3000 }

one_portion_applied :
    (receive_line letters (sale_of (one_portion ∷ three_portions ∷ [])) one_portion kitchen).0
    ≡ applied
unfolding find_item validate_item_type would_go_negative is_processed
one_portion_applied =
    (receive_line-IsApplied letters (sale_of (one_portion ∷ three_portions ∷ [])) one_portion
      kitchen (record { item = portion; found = refl; valid = refl; safe = refl; fresh = refl })).0

second_line_of_item_dropped_example :
    let b = sale_of (one_portion ∷ three_portions ∷ []) in
    let t = (receive_line letters b one_portion kitchen).1 in
    receive_line letters b three_portions t ≡ (applied, t)
second_line_of_item_dropped_example =
    second_line_of_item_dropped letters (sale_of (one_portion ∷ three_portions ∷ [])) one_portion
      three_portions kitchen refl one_portion_applied

-- The same kitchen after an oversale: -6.000 portions.
abbrev oversold : Session
oversold = record kitchen {
  rows = record tables {
    levels = record { item_id = 1; store_id = 7; current_quantity = negsuc 5999 } ∷ [];
  };
}

reversal_refused_if_oversold_example :
    let t = (receive_line letters (void_of (three_portions ∷ [])) three_portions oversold).1 in
    ((receive_line letters (void_of (three_portions ∷ [])) three_portions oversold).0 ≡ failed)
    × ((i j : ℕ) → on_hand i j t ≡ on_hand i j oversold)
    × IsUntouched oversold t
unfolding is_processed find_item quantity_at find_level ◌+ℤ◌
reversal_refused_if_oversold_example =
    reversal_refused_if_oversold letters (void_of (three_portions ∷ [])) three_portions oversold
      portion (λ h. cc) refl refl refl refl
