-- ===== src/Inventory/Runs/Start.antt =====
-- `start_run` of services/inventory-service/app/services/run_service.py. A dict is a list of pairs
-- with distinct keys, in its order.
use Prim.Native.String.{◌++◌ as str_append}
use foodo.Prelude.{
  ℕ, ℤ, pos, ◌-ℤ◌, leb_ℤ, ltb_ℤ, String, Bool, true, false, not, ◌&&◌, ◌||◌, Option, none, some,
  List, [], ◌∷◌, map, ◌==◌, if◌then◌else◌, Result, ok, err, Exec, pure, gets, raise_if, modify,
  ◌>>=◌, ◌>>◌,
}
use foodo.Inventory.Model.{production_input}
use foodo.Inventory.Rules.{insufficient_stock}
use foodo.Inventory.Movement.{Move, find_item}
use foodo.Inventory.Movement.Outcome.{on_hand}
use foodo.Inventory.Legs.{perform_legs}
use foodo.Inventory.Production.{
  Recipe, RecipeComponent, in_progress, ProductionRun, ProductionRunComponent, run_started, Kitchen,
  KitchenError, invalid_input, invalid_run_state, key_error, movement_failed, in_stock, or_rollback,
  commit,
}
use foodo.Inventory.Runs.{
  is_pending, get_run_or_404, load_recipe, run_lines, write_run, notify, run_leg,
}

abbrev pub Amounts : Type 0
Amounts = List (ℕ × ℤ)

-- `amounts[i]`
unfoldable pub amount_of : ℕ → Amounts → Option ℤ
amount_of i [] = none
amount_of i (a ∷ as') = if a.0 == i then some a.1 else amount_of i as'

unfoldable pub has_amount : ℕ → Amounts → Bool
has_amount i [] = false
has_amount i (a ∷ as') = a.0 == i || has_amount i as'

unfoldable pub is_ingredient : ℕ → List RecipeComponent → Bool
is_ingredient i [] = false
is_ingredient i (c ∷ cs) = c.raw_material_item_id == i || is_ingredient i cs

-- `set(components_override.keys()) != recipe_ids`, in its two halves.
unfoldable pub all_given : List RecipeComponent → Amounts → Bool
all_given [] as' = true
all_given (c ∷ cs) as' = has_amount c.raw_material_item_id as' && all_given cs as'

unfoldable pub all_ingredients : Amounts → List RecipeComponent → Bool
all_ingredients [] cs = true
all_ingredients (a ∷ as') cs = is_ingredient a.0 cs && all_ingredients as' cs

unfoldable pub all_positive : Amounts → Bool
all_positive [] = true
all_positive (a ∷ as') = not (leb_ℤ a.1 (pos 0)) && all_positive as'

-- Is the amount the one that is given for the ingredient?
unfoldable pub is_amount : ℕ → ℤ → Amounts → Bool
unfolding amount_of
is_amount i q as' = elim (amount_of i as') [ none ↦ false | some a ↦ leb_ℤ a q && leb_ℤ q a ]

unfoldable pub check_override :
    ℕ → ℤ → List RecipeComponent → Amounts → Exec Kitchen KitchenError (Unit {0})
check_override leading quantity components override = do
  raise_if (not (all_given components override && all_ingredients override components))
      invalid_input
  raise_if (not (all_positive override)) invalid_input
  raise_if (not (is_amount leading quantity override)) invalid_input

-- `measured[leading_item_id] = leading_quantity_used`
unfoldable pub set_amount : ℕ → ℤ → Amounts → Amounts
set_amount i q [] = (i, q) ∷ []
set_amount i q (a ∷ as') = if a.0 == i then (i, q) ∷ as' else a ∷ set_amount i q as'

unfoldable pub planned_amounts : List ProductionRunComponent → Amounts
planned_amounts [] = []
planned_amounts (c ∷ cs) = (c.raw_material_item_id, c.planned_quantity) ∷ planned_amounts cs

-- The amounts that are taken.
unfoldable pub measure :
    ℕ
    → ℤ
    → List RecipeComponent
    → List ProductionRunComponent
    → Option Amounts
    → Exec Kitchen KitchenError Amounts
measure leading quantity components snap none =
    pure (set_amount leading quantity (planned_amounts snap))
measure leading quantity components snap (some override) = do
  check_override leading quantity components override
  pure override

-- One turn of the loop that looks for a shortage.
unfoldable pub check_one : ℕ → ℕ × ℤ → Kitchen → Result KitchenError (Unit {0})
check_one store_id a k =
    if ltb_ℤ (on_hand a.0 store_id k.stock -ℤ a.1) (pos 0)
    then elim (find_item a.0 k.stock.items) [
      | none ↦ err (key_error a.0)
      | some item ↦
          if item.allow_negative_stock
          then ok tt
          else err (movement_failed (insufficient_stock a.0 store_id))
    ]
    else ok tt

unfoldable pub check_stock : ℕ → Amounts → Exec Kitchen KitchenError (Unit {0})
check_stock store_id [] = pure tt
check_stock store_id (a ∷ as') = do (λ k. (check_one store_id a k, k)); check_stock store_id as'

-- A line before the others.
abbrev pub and_line :
    ProductionRunComponent
    → Result KitchenError (List ProductionRunComponent)
    → Result KitchenError (List ProductionRunComponent)
and_line c (ok cs) = ok (c ∷ cs)
and_line c (err e) = err e

-- `row.measured_quantity = measured[raw_id]`
abbrev pub measured_line :
    ProductionRunComponent
    → Option ℤ
    → Result KitchenError (List ProductionRunComponent)
    → Result KitchenError (List ProductionRunComponent)
measured_line c none rest = err (key_error c.raw_material_item_id)
measured_line c (some q) rest = and_line (record c { measured_quantity = some q }) rest

-- The loop over the lines of the run.
unfoldable pub measured_lines :
    ℕ → Amounts → List ProductionRunComponent → Result KitchenError (List ProductionRunComponent)
unfolding amount_of
measured_lines i as' [] = ok []
measured_lines i as' (c ∷ cs) =
    let rest = measured_lines i as' cs in
    if c.production_run_id == i
    then measured_line c (amount_of c.raw_material_item_id as') rest
    else and_line c rest

unfoldable pub write_lines : List ProductionRunComponent → Kitchen → Kitchen
write_lines cs k = record k { book = record k.book { lines = cs } }

unfoldable pub started_run : ℕ → ℕ → ProductionRun → ProductionRun
started_run now leading run = record run {
  leading_component_item_id = some leading;
  status = in_progress;
  started_at = some now;
}

-- What the client sends.
pub record RunStart : Type 0 where
  pub leading_item_id : ℕ
  pub leading_quantity_used : ℤ
  pub components : Option Amounts

module _ (uuid_text : ℕ → String) where
  unfoldable pub start_legs : ProductionRun → Recipe → Option ℕ → Amounts → List Move
  unfolding run_leg
  start_legs run recipe actor_id as' =
      let reason =
        str_append "Production run "
          (str_append (uuid_text run.id) (str_append " started (" (str_append recipe.name ")"))) in
      map (λ a. run_leg run a.0 (pos 0 -ℤ a.1) production_input actor_id reason false) as'

  -- The transaction, and what is published after it.
  unfoldable pub deduct :
      ℕ → ProductionRun → Recipe → Option ℕ → ℕ → Amounts → Exec Kitchen KitchenError ProductionRun
  deduct now run recipe actor_id leading as' = do
    or_rollback (do
      in_stock (perform_legs (start_legs run recipe actor_id as'))
      rows ← (λ k. (measured_lines run.id as' k.book.lines, k))
      modify (write_lines rows)
      modify (write_run (started_run now leading run))
      modify commit)
    modify (notify (run_started run.id run.business_id ∷ []))
    pure (started_run now leading run)

  unfoldable pub start_run :
      ℕ → ℕ → ℕ → Option ℕ → RunStart → Exec Kitchen KitchenError ProductionRun
  start_run now b i actor_id body = do
    raise_if (leb_ℤ body.leading_quantity_used (pos 0)) invalid_input
    run ← get_run_or_404 b i
    raise_if (not (is_pending run.status)) (invalid_run_state run.status)
    loaded ← load_recipe b run.recipe_id
    raise_if (not (is_ingredient body.leading_item_id loaded.1)) invalid_input
    snap ← gets (λ k. run_lines run.id k.book.lines)
    amounts ← measure body.leading_item_id body.leading_quantity_used loaded.1 snap body.components
    check_stock run.store_id amounts
    deduct now run loaded.0 actor_id body.leading_item_id amounts
