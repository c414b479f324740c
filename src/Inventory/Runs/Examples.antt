-- ===== src/Inventory/Runs/Examples.antt =====
-- Tests of the scheduled runs, and their theorems at concrete inputs: a run of pilau, 10.000 plates,
-- item 6, from 2.000 of rice, item 4, and 0.500 of oil, item 5, at store 7.
use mathlib.Core.Path.{subst}
use Prim.Native.Char.{Char, code}
use foodo.Prelude.{
  ℕ, ℤ, pos, ◌+ℤ◌, ◌-ℤ◌, ◌*ℤ◌, ◌≡◌, refl, sym, ok, String, Bool, true, false, Option, none, some,
  List, [], ◌∷◌, ◌==◌, is_empty, lstrip, rstrip,
}
use foodo.Inventory.Model.{Item, sellable, raw_material, Session, Tables}
use foodo.Inventory.Production.{
  Book, Kitchen, or_rollback, rollback, commit, find_recipe, leg_of, in_stock,
}
use foodo.Inventory.Runs.{
  find_run, load_recipe, own_recipe, own_item, recipe_lines, is_nil, notify, get_run_or_404,
  is_pending, run_lines, run_leg, write_run, set_run, complete_run, is_in_progress, completed_run,
  finish_run, reason_or_none,
}
use foodo.Inventory.Runs.Plan.{
  RunCreate, create_run, create_new_run, plan_run, find_existing, find_key, has_key, new_run,
  add_run, add_lines, per_unit_requirement, planned_line,
}
use foodo.Inventory.Runs.Start.{
  RunStart, start_run, is_ingredient, measure, set_amount, planned_amounts, check_stock, check_one,
  deduct, start_legs, measured_lines, amount_of, write_lines, started_run,
}
use foodo.Inventory.Runs.Requests.{
  Request, create, start, complete, publish, serve, serve_all, perform,
}
use foodo.Inventory.Runs.Phase.{published, phase, phase_at, phase_of}
use foodo.Inventory.Runs.Phase.Refine.{IsValid, Life, serve_all-Life, serve-IsValid, serve-IsUndone}
use foodo.Inventory.Runs.Division.{ratio, divide, multiply, places_for}
use foodo.Inventory.Movement.{
  find_item, record_movement, apply_movement, check_movement, write_movement, lock_item,
  lock_stock_level, would_go_negative, actor_of, is_repeat, add_processed, add_movement,
  write_quantity, movement_of,
}
use foodo.Pos.Decimal.{quantize, round_half_even, scaled}
use foodo.Inventory.Legs.{perform_legs}
use foodo.Inventory.Movement.Levels.{quantity_at, find_level, set_level}
use foodo.Inventory.Rules.{validate_item_type}
use foodo.Inventory.Runs.Publish.{
  publish_run, publish_by_status, publish_new, prepare, cost_total, add_cost, cost_line,
  cost_per_unit, publish_output, write_output, run_event, add_run_event, output_leg, keep_run_cost,
  published_run, published_event, find_published,
}
use foodo.Inventory.Runs.Cancel.{all_measured, measured_amounts}
use foodo.Inventory.Runs.Publish.{component_rows, set_unit_cost}
use foodo.Inventory.Production.{RunStatus, in_progress, ProductionRun, ProductionRunComponent}
use foodo.Inventory.Movement.Outcome.{on_hand}
use foodo.Inventory.Runs.Cancel.{cancel_run}
use foodo.Inventory.Runs.Start.{has_amount}
use foodo.Inventory.Runs.Restock.{IsTraced, taken, has_line}
use foodo.Inventory.Runs.Restock.Stop.{start_run_then_cancel}
use foodo.Inventory.Production.{ProductionEvent, cancelled}
use foodo.Inventory.Runs.Republish.{publish_run_again}
use foodo.Inventory.Production.{movement_failed}
use foodo.Inventory.Rules.{insufficient_stock}
use foodo.Prelude.{err}
use foodo.Inventory.Runs.Phase.Sound.{IsUndone}

abbrev item_at : ℕ → Option ℤ → Bool → Item
item_at i cost negative = record {
  id = i;
  business_id = 9;
  store_id = 7;
  reorder_threshold = pos 0;
  unit_cost = cost;
  allow_negative_stock = negative;
  item_type = raw_material;
}

abbrev plate : Item
plate = record (item_at 6 none false) { item_type = sellable }

abbrev stock_of : ℤ → Session
stock_of rice =
    let rows : Tables = record {
      items = item_at 4 (some (pos 20000)) false ∷ item_at 5 none true ∷ plate ∷ [];
      levels = record { item_id = 4; store_id = 7; current_quantity = rice } ∷ [];
      movements = [];
      processed = [];
    } in
    record { rows = rows; committed = rows; outbox = [] }

abbrev empty_book : Book
empty_book = record { events = []; used = []; runs = []; lines = [] }

abbrev kitchen : Kitchen
kitchen = record {
  stock = stock_of (pos 5000);
  book = empty_book;
  committed_book = empty_book;
  recipes =
      record {
        id = 3;
        business_id = 9;
        name = "Pilau";
        sellable_item_id = some 6;
        target_yield_quantity = pos 5000;
      }
      ∷ [];
  recipe_components =
      record { recipe_id = 3; raw_material_item_id = 4; quantity_required = pos 1000 }
      ∷ record { recipe_id = 3; raw_material_item_id = 5; quantity_required = pos 250 }
      ∷ [];
  next_id = 40;
  notices = [];
}

abbrev uuid : ℕ → String
uuid n = "u"

abbrev blank : Char → Bool
blank c = code c == 32

abbrev ten_plates : RunCreate
ten_plates = record {
  recipe_id = 3;
  target_output_quantity = pos 10000;
  yield_tolerance_percent = pos 10000;
  idempotency_key = some "key";
}

abbrev as_planned : RunStart
as_planned = record { leading_item_id = 4; leading_quantity_used = pos 2000; components = none }

kitchen-IsValid : IsValid kitchen
unfolding find_run
kitchen-IsValid = record {
  clean = record { stock = refl; book = refl };
  fresh = λ i h. refl;
  orderly = λ i r h. absurd (cc);
}

abbrev day : List (ℕ × ℕ × Request)
day =
    (100, 9, create (some 2) ten_plates)
    ∷ (110, 9, start 40 (some 2) as_planned)
    ∷ (120, 9, complete 40 (pos 9500) (some " "))
    ∷ (130, 9, publish 40 (some 2))
    ∷ []

serve_all-Life_example : Life uuid blank 40 day kitchen
serve_all-Life_example = serve_all-Life uuid blank day kitchen kitchen-IsValid 40

day-published : phase 40 (serve_all uuid blank day kitchen).book.runs ≡ published
unfolding serve_all serve perform or_rollback rollback commit create_run create_new_run plan_run
    load_recipe own_recipe own_item find_recipe find_item recipe_lines is_nil find_existing find_key
    has_key new_run add_run add_lines per_unit_requirement planned_line divide multiply ratio
    places_for quantize round_half_even scaled notify start_run get_run_or_404 find_run is_pending
    is_ingredient run_lines measure set_amount planned_amounts check_stock check_one deduct
    start_legs run_leg perform_legs record_movement apply_movement check_movement write_movement
    lock_item lock_stock_level would_go_negative actor_of is_repeat find_level validate_item_type
    add_processed add_movement write_quantity set_level movement_of measured_lines amount_of
    write_lines write_run set_run started_run complete_run is_in_progress completed_run finish_run
    reason_or_none is_empty lstrip rstrip publish_run publish_by_status publish_new prepare
    all_measured measured_amounts cost_total add_cost cost_line cost_per_unit publish_output
    write_output run_event add_run_event component_rows output_leg leg_of keep_run_cost
    set_unit_cost published_run phase_at phase_of in_stock published_event find_published ◌+ℤ◌ ◌-ℤ◌
    ◌*ℤ◌ quantity_at
day-published = refl

-- The kitchen with the run planned.
abbrev planned_kitchen : Kitchen
planned_kitchen = serve uuid blank 100 9 (create (some 2) ten_plates) kitchen

planned_kitchen-IsValid : IsValid planned_kitchen
planned_kitchen-IsValid =
    serve-IsValid uuid blank 100 9 (create (some 2) ten_plates) kitchen kitchen-IsValid

abbrev run_in : RunStatus → ProductionRun
run_in s = record {
  id = 40;
  business_id = 9;
  store_id = 7;
  recipe_id = 3;
  target_output_quantity = pos 10000;
  status = s;
  leading_component_item_id = some 4;
  yield_tolerance_percent = pos 10000;
  actual_output_quantity = none;
  waste_reason = none;
  cancel_reason = none;
  cancelled_at = none;
  idempotency_key = some "key";
  published_at = none;
  created_by = some 2;
  started_at = some 110;
  completed_at = none;
}

abbrev started : Kitchen
started = (start_run uuid 110 9 40 (some 2) as_planned planned_kitchen).1

run-started :
    start_run uuid 110 9 40 (some 2) as_planned planned_kitchen ≡ (ok (run_in in_progress), started)
unfolding serve_all serve perform or_rollback rollback commit create_run create_new_run plan_run
    load_recipe own_recipe own_item find_recipe find_item recipe_lines is_nil find_existing find_key
    has_key new_run add_run add_lines per_unit_requirement planned_line divide multiply ratio
    places_for quantize round_half_even scaled notify start_run get_run_or_404 find_run is_pending
    is_ingredient run_lines measure set_amount planned_amounts check_stock check_one deduct
    start_legs run_leg perform_legs record_movement apply_movement check_movement write_movement
    lock_item lock_stock_level would_go_negative actor_of is_repeat find_level validate_item_type
    add_processed add_movement write_quantity set_level movement_of measured_lines amount_of
    write_lines write_run set_run started_run complete_run is_in_progress completed_run finish_run
    reason_or_none is_empty lstrip rstrip publish_run publish_by_status publish_new prepare
    all_measured measured_amounts cost_total add_cost cost_line cost_per_unit publish_output
    write_output run_event add_run_event component_rows output_leg leg_of keep_run_cost
    set_unit_cost published_run phase_at phase_of in_stock published_event find_published ◌+ℤ◌ ◌-ℤ◌
    ◌*ℤ◌ quantity_at
run-started = refl

abbrev plan : List ProductionRunComponent
plan =
    record {
      production_run_id = 40;
      raw_material_item_id = 4;
      planned_quantity = pos 2000;
      measured_quantity = none;
    }
    ∷ record {
      production_run_id = 40;
      raw_material_item_id = 5;
      planned_quantity = pos 500;
      measured_quantity = none;
    }
    ∷ []

plan-lines : run_lines 40 planned_kitchen.book.lines ≡ plan
unfolding serve_all serve perform or_rollback rollback commit create_run create_new_run plan_run
    load_recipe own_recipe own_item find_recipe find_item recipe_lines is_nil find_existing find_key
    has_key new_run add_run add_lines per_unit_requirement planned_line divide multiply ratio
    places_for quantize round_half_even scaled notify start_run get_run_or_404 find_run is_pending
    is_ingredient run_lines measure set_amount planned_amounts check_stock check_one deduct
    start_legs run_leg perform_legs record_movement apply_movement check_movement write_movement
    lock_item lock_stock_level would_go_negative actor_of is_repeat find_level validate_item_type
    add_processed add_movement write_quantity set_level movement_of measured_lines amount_of
    write_lines write_run set_run started_run complete_run is_in_progress completed_run finish_run
    reason_or_none is_empty lstrip rstrip publish_run publish_by_status publish_new prepare
    all_measured measured_amounts cost_total add_cost cost_line cost_per_unit publish_output
    write_output run_event add_run_event component_rows output_leg leg_of keep_run_cost
    set_unit_cost published_run phase_at phase_of in_stock published_event find_published ◌+ℤ◌ ◌-ℤ◌
    ◌*ℤ◌ quantity_at
plan-lines = refl

plan-covered :
    (a : ℕ)
    → has_line a plan ≡ false
    → has_amount a (taken as_planned.leading_item_id as_planned.leading_quantity_used plan none)
      ≡ false
unfolding has_amount set_amount planned_amounts
plan-covered a h = h

plan-IsTraced : IsTraced as_planned plan
unfolding has_amount set_amount planned_amounts
plan-IsTraced = record {
  distinct = (refl, (refl, tt));
  unique = (refl, (refl, tt));
  covered = plan-covered;
}

start_run_then_cancel_example :
    (r : ProductionRun) × ((cancel_run uuid blank 115 9 40 none (some 3) started).0 ≡ ok r)
    × (r.status ≡ cancelled)
    × ((a j : ℕ)
        → on_hand a j (cancel_run uuid blank 115 9 40 none (some 3) started).1.stock
          ≡ on_hand a j planned_kitchen.stock)
start_run_then_cancel_example =
    start_run_then_cancel uuid blank 110 115 9 40 (some 2) (some 3) as_planned none planned_kitchen
      planned_kitchen-IsValid (run_in in_progress) started run-started
      (subst (IsTraced as_planned) (sym plan-lines) plan-IsTraced)

abbrev cooked_kitchen : Kitchen
cooked_kitchen = serve uuid blank 120 9 (complete 40 (pos 9500) (some " ")) started

abbrev batch : ProductionEvent
batch = record {
  id = 41;
  business_id = 9;
  store_id = 7;
  recipe_id = 3;
  actual_output_quantity = pos 9500;
  production_cost_per_unit = some (pos 4211);
  run_id = some 40;
  actor_id = some 2;
  voided_at = none;
  void_reason = none;
}

abbrev released : Kitchen
released = (publish_run uuid 130 9 40 (some 2) cooked_kitchen).1

batch-published : publish_run uuid 130 9 40 (some 2) cooked_kitchen ≡ (ok batch, released)
unfolding serve_all serve perform or_rollback rollback commit create_run create_new_run plan_run
    load_recipe own_recipe own_item find_recipe find_item recipe_lines is_nil find_existing find_key
    has_key new_run add_run add_lines per_unit_requirement planned_line divide multiply ratio
    places_for quantize round_half_even scaled notify start_run get_run_or_404 find_run is_pending
    is_ingredient run_lines measure set_amount planned_amounts check_stock check_one deduct
    start_legs run_leg perform_legs record_movement apply_movement check_movement write_movement
    lock_item lock_stock_level would_go_negative actor_of is_repeat find_level validate_item_type
    add_processed add_movement write_quantity set_level movement_of measured_lines amount_of
    write_lines write_run set_run started_run complete_run is_in_progress completed_run finish_run
    reason_or_none is_empty lstrip rstrip publish_run publish_by_status publish_new prepare
    all_measured measured_amounts cost_total add_cost cost_line cost_per_unit publish_output
    write_output run_event add_run_event component_rows output_leg leg_of keep_run_cost
    set_unit_cost published_run phase_at phase_of in_stock published_event find_published ◌+ℤ◌ ◌-ℤ◌
    ◌*ℤ◌ quantity_at
batch-published = refl

-- The second tap, by someone else.
publish_run_again_example : publish_run uuid 160 9 40 (some 3) released ≡ (ok batch, released)
publish_run_again_example =
    publish_run_again uuid 130 160 9 40 (some 2) (some 3) cooked_kitchen batch released
      batch-published

-- A start for which there is not enough rice.
abbrev too_much : Request
too_much = start 40 (some 2) (record as_planned { leading_quantity_used = pos 9000 })

too_much-refused :
    (perform uuid blank 110 9 too_much planned_kitchen).0
    ≡ err (movement_failed (insufficient_stock 4 7))
unfolding serve_all serve perform or_rollback rollback commit create_run create_new_run plan_run
    load_recipe own_recipe own_item find_recipe find_item recipe_lines is_nil find_existing find_key
    has_key new_run add_run add_lines per_unit_requirement planned_line divide multiply ratio
    places_for quantize round_half_even scaled notify start_run get_run_or_404 find_run is_pending
    is_ingredient run_lines measure set_amount planned_amounts check_stock check_one deduct
    start_legs run_leg perform_legs record_movement apply_movement check_movement write_movement
    lock_item lock_stock_level would_go_negative actor_of is_repeat find_level validate_item_type
    add_processed add_movement write_quantity set_level movement_of measured_lines amount_of
    write_lines write_run set_run started_run complete_run is_in_progress completed_run finish_run
    reason_or_none is_empty lstrip rstrip publish_run publish_by_status publish_new prepare
    all_measured measured_amounts cost_total add_cost cost_line cost_per_unit publish_output
    write_output run_event add_run_event component_rows output_leg leg_of keep_run_cost
    set_unit_cost published_run phase_at phase_of in_stock published_event find_published ◌+ℤ◌ ◌-ℤ◌
    ◌*ℤ◌ quantity_at
too_much-refused = refl

serve-IsUndone_example : IsUndone planned_kitchen (serve uuid blank 110 9 too_much planned_kitchen)
serve-IsUndone_example =
    serve-IsUndone uuid blank 110 9 too_much planned_kitchen
      (movement_failed (insufficient_stock 4 7)) planned_kitchen-IsValid too_much-refused
