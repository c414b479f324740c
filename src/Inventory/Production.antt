-- ===== src/Inventory/Production.antt =====
-- The rows and the transactions of services/inventory-service/app/services/production_service.py, and
-- the rows of the runs in Inventory.Runs. A quantity is an integer of thousandths, as the columns hold
-- it.
pub mod Clean
pub mod Void
mod Examples
use foodo.Prelude.{
  ℕ, ℤ, String, Bool, true, false, ◌&&◌, Option, none, some, List, [], ◌∷◌, ◌==◌, if◌then◌else◌,
  Result, ok, err, Exec,
}
use foodo.Inventory.Model.{Session, MovementType}
use foodo.Inventory.Rules.{MoveError}
use foodo.Inventory.Movement.{Move}

pub record Recipe : Type 0 where
  pub id : ℕ
  pub business_id : ℕ
  pub name : String
  pub sellable_item_id : Option ℕ
  pub target_yield_quantity : ℤ

pub record RecipeComponent : Type 0 where
  pub recipe_id : ℕ
  pub raw_material_item_id : ℕ
  pub quantity_required : ℤ

-- The columns that undoing reads or writes, and the cost.
pub record ProductionEvent : Type 0 where
  pub id : ℕ
  pub business_id : ℕ
  pub store_id : ℕ
  pub recipe_id : ℕ
  pub actual_output_quantity : ℤ
  pub production_cost_per_unit : Option ℤ
  pub run_id : Option ℕ
  pub actor_id : Option ℕ
  pub voided_at : Option ℕ
  pub void_reason : Option String

pub record ProductionEventComponent : Type 0 where
  pub production_event_id : ℕ
  pub raw_material_item_id : ℕ
  pub quantity_consumed : ℤ

pub data RunStatus : Type 0 where
  pending in_progress completed cancelled : RunStatus

pub record ProductionRun : Type 0 where
  pub id : ℕ
  pub business_id : ℕ
  pub store_id : ℕ
  pub recipe_id : ℕ
  pub target_output_quantity : ℤ
  pub status : RunStatus
  pub leading_component_item_id : Option ℕ
  pub yield_tolerance_percent : ℤ
  pub actual_output_quantity : Option ℤ
  pub waste_reason : Option String
  pub cancel_reason : Option String
  pub cancelled_at : Option ℕ
  pub idempotency_key : Option String
  pub published_at : Option ℕ
  pub created_by : Option ℕ
  pub started_at : Option ℕ
  pub completed_at : Option ℕ

pub record ProductionRunComponent : Type 0 where
  pub production_run_id : ℕ
  pub raw_material_item_id : ℕ
  pub planned_quantity : ℤ
  pub measured_quantity : Option ℤ

-- The tables that cooking writes.
pub record Book : Type 0 where
  pub events : List ProductionEvent
  pub used : List ProductionEventComponent
  pub runs : List ProductionRun
  pub lines : List ProductionRunComponent

pub data Notice : Type 0 where
  production_voided : ℕ → ℕ → String → Notice
  audit_voided : Option ℕ → ℕ → ℕ → String → Notice
  run_created run_started run_completed : ℕ → ℕ → Notice
  run_cancelled : ℕ → ℕ → String → Notice
  production_recorded : ℕ → ℕ → Notice
  audit_published : Option ℕ → ℕ → ℕ → Notice

-- The stock tables, the tables of cooking now and at the last commit, and what was published.
pub record Kitchen : Type 0 where
  pub stock : Session
  pub book : Book
  pub committed_book : Book
  pub recipes : List Recipe
  pub recipe_components : List RecipeComponent
  pub next_id : ℕ
  pub notices : List Notice

-- The exceptions, by their texts, and what `record_movement` raises. The last two are Python's
-- KeyError and AssertionError.
pub data KitchenError : Type 0 where
  production_not_found : ℕ → KitchenError
  menu_item_gone : KitchenError
  recipe_not_found : ℕ → KitchenError
  invalid_input : KitchenError
  run_not_found : ℕ → KitchenError
  invalid_run_state : RunStatus → KitchenError
  not_measured : ℕ → KitchenError
  key_error : ℕ → KitchenError
  assertion_error : KitchenError
  movement_failed : MoveError → KitchenError

abbrev as_kitchen : {A : Type 0} → Result MoveError A → Result KitchenError A
as_kitchen (ok a) = ok a
as_kitchen (err e) = err (movement_failed e)

-- A step on the stock tables.
unfoldable pub in_stock : {A : Type 0} → Exec Session MoveError A → Exec Kitchen KitchenError A
in_stock f k = let (r, s) = f k.stock in (as_kitchen r, record k { stock = s })

unfoldable pub rollback : Kitchen → Kitchen
rollback k = record k {
  stock = record k.stock { rows = k.stock.committed };
  book = k.committed_book;
}

abbrev unless_ok : {A : Type 0} → Result KitchenError A → Kitchen → Kitchen → Kitchen
unless_ok (ok a) k k' = k
unless_ok (err e) k k' = k'

-- `except Exception: await db.rollback(); raise`
unfoldable pub or_rollback :
    {A : Type 0} → Exec Kitchen KitchenError A → Exec Kitchen KitchenError A
unfolding rollback
or_rollback f k = let (r, k') = f k in (r, unless_ok r k' (rollback k'))

unfoldable pub commit : Kitchen → Kitchen
commit k = record k { stock = record k.stock { committed = k.stock.rows }; committed_book = k.book }

unfoldable pub find_event : ℕ → ℕ → List ProductionEvent → Option ProductionEvent
find_event event_id business_id [] = none
find_event event_id business_id (e ∷ es) =
    if e.id == event_id && e.business_id == business_id
    then some e
    else find_event event_id business_id es

unfoldable pub find_recipe : ℕ → List Recipe → Option Recipe
find_recipe recipe_id [] = none
find_recipe recipe_id (r ∷ rs) = if r.id == recipe_id then some r else find_recipe recipe_id rs

unfoldable pub components_of : ℕ → List ProductionEventComponent → List ProductionEventComponent
components_of event_id [] = []
components_of event_id (c ∷ cs) =
    if c.production_event_id == event_id
    then c ∷ components_of event_id cs
    else components_of event_id cs

-- The row is written back under its id.
unfoldable pub set_event : ProductionEvent → List ProductionEvent → List ProductionEvent
set_event e [] = []
set_event e (x ∷ xs) = if x.id == e.id then e ∷ set_event e xs else x ∷ set_event e xs

-- A movement without a commit of its own that refers to an event.
unfoldable pub leg_of :
    ProductionEvent → ℕ → ℤ → MovementType → String → Option ℕ → String → Bool → Option ℤ → Move
leg_of e item_id quantity_delta movement_type actor_type actor_id reason skip_negative_check
      unit_cost =
    record {
      item_id = item_id;
      business_id = e.business_id;
      store_id = e.store_id;
      quantity_delta = quantity_delta;
      movement_type = movement_type;
      reference_type = some "production_event";
      reference_id = some e.id;
      actor_type = actor_type;
      actor_id = actor_id;
      reason = some reason;
      event_id = none;
      commit = false;
      skip_negative_check = skip_negative_check;
      unit_cost = unit_cost;
    }
