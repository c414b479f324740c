-- ===== src/Inventory/Runs.antt =====
-- Scheduled production runs: services/inventory-service/app/services/run_service.py. This file has
-- what the operations share, and completing and deleting a run. Python's test for white space and the
-- moment of the call are parameters.
pub mod Division
pub mod Plan
pub mod Start
pub mod Publish
pub mod Cancel
pub mod Reads
pub mod Requests
pub mod Phase
pub mod Restock
pub mod Republish
mod Examples
use Prim.Native.Char.{Char}
use foodo.Prelude.{
  ℕ, ℤ, pos, leb_ℤ, String, Bool, true, false, not, ◌&&◌, ◌||◌, Option, none, some, List, [], ◌∷◌,
  ◌++◌, ◌==◌, if◌then◌else◌, is_empty, lstrip, rstrip, strip, ok, err, Exec, pure, gets, or_raise,
  raise_if, modify, ◌>>=◌, ◌>>◌,
}
use foodo.Inventory.Model.{Item, MovementType}
use foodo.Inventory.Movement.{Move, find_item}
use foodo.Inventory.Production.{
  Recipe, RecipeComponent, RunStatus, pending, in_progress, completed, cancelled, ProductionRun,
  ProductionRunComponent, run_completed, Kitchen, KitchenError, recipe_not_found, invalid_input,
  run_not_found, invalid_run_state, find_recipe, commit, Notice,
}

unfoldable pub is_pending : RunStatus → Bool
is_pending pending = true
is_pending in_progress = false
is_pending completed = false
is_pending cancelled = false

unfoldable pub is_in_progress : RunStatus → Bool
is_in_progress pending = false
is_in_progress in_progress = true
is_in_progress completed = false
is_in_progress cancelled = false

unfoldable pub find_run : ℕ → List ProductionRun → Option ProductionRun
find_run i [] = none
find_run i (r ∷ rs) = if r.id == i then some r else find_run i rs

-- `_get_run_or_404`: the id is the primary key.
unfoldable pub get_run_or_404 : ℕ → ℕ → Exec Kitchen KitchenError ProductionRun
get_run_or_404 b i = do
  found ← gets (λ k. find_run i k.book.runs)
  run ← or_raise found (run_not_found i)
  raise_if (not (run.business_id == b)) (run_not_found i)
  pure run

unfoldable pub recipe_lines : ℕ → List RecipeComponent → List RecipeComponent
recipe_lines i [] = []
recipe_lines i (c ∷ cs) = if c.recipe_id == i then c ∷ recipe_lines i cs else recipe_lines i cs

unfoldable pub is_nil : {A : Type 0} → List A → Bool
is_nil [] = true
is_nil (x ∷ xs) = false

-- A recipe of the business.
unfoldable pub own_recipe : ℕ → ℕ → Exec Kitchen KitchenError Recipe
own_recipe b i = do
  found ← gets (λ k. find_recipe i k.recipes)
  recipe ← or_raise found (recipe_not_found i)
  raise_if (not (recipe.business_id == b)) (recipe_not_found i)
  pure recipe

-- An item of the business.
unfoldable pub own_item : ℕ → ℕ → KitchenError → Exec Kitchen KitchenError Item
own_item b i e = do
  found ← gets (λ k. find_item i k.stock.items)
  item ← or_raise found e
  raise_if (not (item.business_id == b)) e
  pure item

-- `_load_recipe`
unfoldable pub load_recipe :
    ℕ → ℕ → Exec Kitchen KitchenError (Recipe × List RecipeComponent × Item)
load_recipe b i = do
  recipe ← own_recipe b i
  components ← gets (λ k. recipe_lines recipe.id k.recipe_components)
  raise_if (is_nil components) invalid_input
  sellable_id ← or_raise recipe.sellable_item_id invalid_input
  sellable ← own_item b sellable_id (recipe_not_found i)
  pure (recipe, components, sellable)

unfoldable pub run_lines : ℕ → List ProductionRunComponent → List ProductionRunComponent
run_lines i [] = []
run_lines i (c ∷ cs) = if c.production_run_id == i then c ∷ run_lines i cs else run_lines i cs

-- The row is written back under its id.
unfoldable pub set_run : ProductionRun → List ProductionRun → List ProductionRun
set_run r [] = []
set_run r (x ∷ xs) = if x.id == r.id then r ∷ set_run r xs else x ∷ set_run r xs

unfoldable pub write_run : ProductionRun → Kitchen → Kitchen
write_run r k = record k { book = record k.book { runs = set_run r k.book.runs } }

unfoldable pub notify : List Notice → Kitchen → Kitchen
notify ns k = record k { notices = k.notices ++ ns }

-- A movement without a commit of its own that refers to a run.
unfoldable pub run_leg : ProductionRun → ℕ → ℤ → MovementType → Option ℕ → String → Bool → Move
run_leg run item_id quantity_delta movement_type actor_id reason skip_negative_check = record {
  item_id = item_id;
  business_id = run.business_id;
  store_id = run.store_id;
  quantity_delta = quantity_delta;
  movement_type = movement_type;
  reference_type = some "production_run";
  reference_id = some run.id;
  actor_type = "user";
  actor_id = actor_id;
  reason = some reason;
  event_id = none;
  commit = false;
  skip_negative_check = skip_negative_check;
  unit_cost = none;
}

-- A reason of white space counts as none.
unfoldable pub reason_or_none : (Char → Bool) → Option String → Option String
unfolding is_empty lstrip rstrip
reason_or_none is_space none = none
reason_or_none is_space (some t) = if is_empty (strip is_space t) then none else some t

unfoldable pub completed_run : (Char → Bool) → ℕ → ℤ → Option String → ProductionRun → ProductionRun
unfolding reason_or_none
completed_run is_space now actual waste_reason run = record run {
  actual_output_quantity = some actual;
  waste_reason = reason_or_none is_space waste_reason;
  status = completed;
  completed_at = some now;
}

unfoldable pub finish_run : ProductionRun → Notice → Exec Kitchen KitchenError ProductionRun
finish_run run notice k = (ok run, notify (notice ∷ []) (commit (write_run run k)))

unfoldable pub complete_run :
    (Char → Bool) → ℕ → ℕ → ℕ → ℤ → Option String → Exec Kitchen KitchenError ProductionRun
complete_run is_space now b i actual waste_reason = do
  raise_if (leb_ℤ actual (pos 0)) invalid_input
  run ← get_run_or_404 b i
  raise_if (not (is_in_progress run.status)) (invalid_run_state run.status)
  finish_run (completed_run is_space now actual waste_reason run)
      (run_completed run.id run.business_id)

unfoldable pub drop_run : ℕ → List ProductionRun → List ProductionRun
drop_run i [] = []
drop_run i (r ∷ rs) = if r.id == i then drop_run i rs else r ∷ drop_run i rs

unfoldable pub drop_lines : ℕ → List ProductionRunComponent → List ProductionRunComponent
drop_lines i [] = []
drop_lines i (c ∷ cs) = if c.production_run_id == i then drop_lines i cs else c ∷ drop_lines i cs

-- The row, and by `ON DELETE CASCADE` its lines.
unfoldable pub remove_run : ℕ → Kitchen → Kitchen
remove_run i k = commit (record k {
  book = record k.book { runs = drop_run i k.book.runs; lines = drop_lines i k.book.lines };
})

unfoldable pub delete_run : ℕ → ℕ → Exec Kitchen KitchenError (Unit {0})
delete_run b i = do
  run ← get_run_or_404 b i
  raise_if (not (is_pending run.status)) (invalid_run_state run.status)
  modify (remove_run run.id)
