-- ===== src/Inventory/Runs/Plan.antt =====
-- `create_run` of services/inventory-service/app/services/run_service.py: the plan of a run.
use text.Mathlib.Text.{◌==◌ as str_eq}
use foodo.Prelude.{
  ℕ, suc, ℤ, pos, negsuc, leb_ℤ, String, Bool, false, ◌&&◌, Option, none, some, List, [], ◌∷◌, ◌++◌,
  ◌==◌, if◌then◌else◌, is_empty, Result, ok, err, Exec, pure, gets, lift, raise_if, modify, ◌>>=◌,
  ◌>>◌,
}
use foodo.Pos.Decimal.{Decimal, quantize}
use foodo.Inventory.Model.{Item}
use foodo.Inventory.Production.{
  Recipe, RecipeComponent, pending, ProductionRun, ProductionRunComponent, run_created, Kitchen,
  KitchenError, invalid_input, commit,
}
use foodo.Inventory.Runs.{load_recipe, notify}
use foodo.Inventory.Runs.Division.{divide, multiply}

-- A column of three places.
abbrev pub thousandths : ℤ → Decimal
thousandths q = record { coefficient = q; places = 3 }

-- `per_unit_requirement` of production_service.py.
unfoldable pub per_unit_requirement : ℤ → ℤ → Result KitchenError Decimal
unfolding divide
per_unit_requirement quantity_required (negsuc y) = err invalid_input
per_unit_requirement quantity_required (pos y) =
    if y == 0 then err invalid_input else ok (divide (thousandths quantity_required) y 3)

unfoldable pub planned_line : ℕ → ℤ → RecipeComponent → Decimal → ProductionRunComponent
unfolding multiply quantize
planned_line run_id target c per_unit = record {
  production_run_id = run_id;
  raw_material_item_id = c.raw_material_item_id;
  planned_quantity = quantize 3 (multiply per_unit (thousandths target));
  measured_quantity = none;
}

-- The loop over the components.
unfoldable pub add_lines : ℕ → ℤ → ℤ → List RecipeComponent → Exec Kitchen KitchenError (Unit {0})
unfolding per_unit_requirement planned_line
add_lines run_id target yield [] = pure tt
add_lines run_id target yield (c ∷ cs) = do
  per_unit ← lift (per_unit_requirement c.quantity_required yield)
  modify (λ k. record k {
    book = record k.book { lines = k.book.lines ++ (planned_line run_id target c per_unit ∷ []) };
  })
  add_lines run_id target yield cs

unfoldable pub has_key : ℕ → String → ProductionRun → Bool
has_key b key r =
    r.business_id == b && elim r.idempotency_key [ none ↦ false | some x ↦ str_eq x key ]

unfoldable pub find_key : ℕ → String → List ProductionRun → Option ProductionRun
find_key b key [] = none
find_key b key (r ∷ rs) = if has_key b key r then some r else find_key b key rs

-- A key that is there and not empty.
unfoldable pub find_existing : ℕ → Option String → List ProductionRun → Option ProductionRun
unfolding is_empty
find_existing b none rs = none
find_existing b (some key) rs = if is_empty key then none else find_key b key rs

-- What the client asks for.
pub record RunCreate : Type 0 where
  pub recipe_id : ℕ
  pub target_output_quantity : ℤ
  pub yield_tolerance_percent : ℤ
  pub idempotency_key : Option String

unfoldable pub new_run : ℕ → ℕ → Option ℕ → RunCreate → Recipe → Item → ProductionRun
new_run id b actor_id body recipe sellable = record {
  id = id;
  business_id = b;
  store_id = sellable.store_id;
  recipe_id = recipe.id;
  target_output_quantity = body.target_output_quantity;
  status = pending;
  leading_component_item_id = none;
  yield_tolerance_percent = body.yield_tolerance_percent;
  actual_output_quantity = none;
  waste_reason = none;
  cancel_reason = none;
  cancelled_at = none;
  idempotency_key = body.idempotency_key;
  published_at = none;
  created_by = actor_id;
  started_at = none;
  completed_at = none;
}

unfoldable pub add_run : ProductionRun → Kitchen → Kitchen
add_run r k = record k { book = record k.book { runs = r ∷ k.book.runs }; next_id = suc k.next_id }

-- The run and its lines, and the commit.
unfoldable pub plan_run :
    ℕ
    → Option ℕ
    → RunCreate
    → Recipe
    → List RecipeComponent
    → Item
    → Exec Kitchen KitchenError ProductionRun
plan_run b actor_id body recipe components sellable = do
  id ← gets (λ k. k.next_id)
  modify (add_run (new_run id b actor_id body recipe sellable))
  add_lines id body.target_output_quantity recipe.target_yield_quantity components
  modify commit
  modify (notify (run_created id b ∷ []))
  pure (new_run id b actor_id body recipe sellable)

unfoldable pub create_new_run : ℕ → Option ℕ → RunCreate → Exec Kitchen KitchenError ProductionRun
create_new_run b actor_id body = do
  loaded ← load_recipe b body.recipe_id
  plan_run b actor_id body loaded.0 loaded.1 loaded.2

unfoldable pub create_run : ℕ → Option ℕ → RunCreate → Exec Kitchen KitchenError ProductionRun
create_run b actor_id body = do
  raise_if (leb_ℤ body.target_output_quantity (pos 0)) invalid_input
  existing ← gets (λ k. find_existing b body.idempotency_key k.book.runs)
  elim existing [ some r ↦ pure r | none ↦ create_new_run b actor_id body ]
