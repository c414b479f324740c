-- ===== src/Inventory/Runs/Publish.antt =====
-- `publish_run` of services/inventory-service/app/services/run_service.py.
use Prim.Native.String.{◌++◌ as str_append}
use foodo.Prelude.{
  ℕ, suc, ℤ, pos, negsuc, ◌+ℤ◌, String, false, Option, none, some, List, [], ◌∷◌, ◌++◌, ◌==◌,
  if◌then◌else◌, is_some, Exec, pure, gets, or_raise, modify, ◌>>=◌, ◌>>◌,
}
use foodo.Pos.Decimal.{Decimal, quantize}
use foodo.Inventory.Model.{Item, production_output}
use foodo.Inventory.Movement.{Move, find_item}
use foodo.Inventory.Legs.{perform_legs}
use foodo.Inventory.Production.{
  RunStatus, pending, in_progress, completed, cancelled, ProductionEvent, ProductionEventComponent,
  ProductionRun, production_recorded, audit_published, Kitchen, KitchenError, recipe_not_found,
  invalid_run_state, key_error, assertion_error, in_stock, or_rollback, commit, leg_of,
}
use foodo.Inventory.Runs.{get_run_or_404, own_recipe, own_item, write_run, notify}
use foodo.Inventory.Runs.Division.{divide, multiply}
use foodo.Inventory.Runs.Plan.{thousandths}
use foodo.Inventory.Runs.Start.{Amounts, amount_of}
use foodo.Inventory.Runs.Cancel.{all_measured}

-- `ProductionEvent.run_id == run.id`
unfoldable pub find_published : ℕ → List ProductionEvent → Option ProductionEvent
find_published i [] = none
find_published i (e ∷ es) =
    if elim e.run_id [ none ↦ false | some r ↦ r == i ] then some e else find_published i es

-- The event of a run that was published, for any status.
unfoldable pub published_event : ProductionRun → Exec Kitchen KitchenError ProductionEvent
unfolding find_published
published_event run = do
  found ← gets (λ k. if is_some run.published_at then find_published run.id k.book.events else none)
  or_raise found (invalid_run_state run.status)

-- A cost of four places.
abbrev pub ten_thousandths : ℤ → Decimal
ten_thousandths q = record { coefficient = q; places = 4 }

-- `cost_total = line if cost_total is None else cost_total + line`
unfoldable pub add_cost : Option ℤ → ℤ → Option ℤ
add_cost none line = some line
add_cost (some total) line = some (total +ℤ line)

unfoldable pub cost_line : ℤ → ℤ → ℤ
unfolding multiply quantize
cost_line quantity basis = quantize 4 (multiply (thousandths quantity) (ten_thousandths basis))

-- The loop over the measured amounts.
unfoldable pub cost_total : List Item → Amounts → Option ℤ → Option ℤ
unfolding add_cost cost_line
cost_total items [] total = total
cost_total items (a ∷ as') total = cost_total items as' (elim (find_item a.0 items) [
  | none ↦ total
  | some item ↦ elim item.unit_cost [
    | none ↦ total
    | some basis ↦ add_cost total (cost_line a.1 basis)
  ]
])

unfoldable pub cost_per_unit : Option ℤ → ℤ → Option ℤ
unfolding divide quantize
cost_per_unit none actual = none
cost_per_unit (some total) (negsuc a) = none
cost_per_unit (some total) (pos a) =
    if a == 0 then none else some (quantize 4 (divide (ten_thousandths total) a 3))

-- What the transaction works with.
pub record Output : Type 0 where
  pub sellable_id : ℕ
  pub actual : ℤ
  pub measured : Amounts
  pub unit_cost : Option ℤ

unfoldable pub published_run : ℕ → ProductionRun → ProductionRun
published_run now run = record run { published_at = some now }

-- The new event's row.
unfoldable pub run_event : ℕ → ProductionRun → Option ℕ → Output → ProductionEvent
run_event id run actor_id o = record {
  id = id;
  business_id = run.business_id;
  store_id = run.store_id;
  recipe_id = run.recipe_id;
  actual_output_quantity = o.actual;
  production_cost_per_unit = o.unit_cost;
  run_id = some run.id;
  actor_id = actor_id;
  voided_at = none;
  void_reason = none;
}

-- The rows of what the event used.
unfoldable pub component_rows : ℕ → List (ℕ × ℤ) → List ProductionEventComponent
component_rows id [] = []
component_rows id (c ∷ cs) =
    record { production_event_id = id; raw_material_item_id = c.0; quantity_consumed = c.1 }
    ∷ component_rows id cs

unfoldable pub add_run_event : ProductionEvent → Output → Kitchen → Kitchen
unfolding component_rows
add_run_event e o k = record k {
  book = record k.book {
    events = e ∷ k.book.events;
    used = component_rows e.id o.measured ++ k.book.used;
  };
  next_id = suc k.next_id;
}

-- `sellable.unit_cost = cost_per_unit` under the item's id.
unfoldable pub set_unit_cost : ℕ → Option ℤ → List Item → List Item
set_unit_cost i none items = items
set_unit_cost i (some c) [] = []
set_unit_cost i (some c) (x ∷ xs) =
    if x.id == i
    then record x { unit_cost = some c } ∷ set_unit_cost i (some c) xs
    else x ∷ set_unit_cost i (some c) xs

unfoldable pub keep_run_cost : Output → Kitchen → Kitchen
unfolding set_unit_cost
keep_run_cost o k = record k {
  stock = record k.stock {
    rows = record k.stock.rows { items = set_unit_cost o.sellable_id o.unit_cost k.stock.items };
  };
}

-- What the transaction needs.
unfoldable pub prepare : ProductionRun → Exec Kitchen KitchenError Output
unfolding cost_total cost_per_unit amount_of
prepare run = do
  actual ← or_raise run.actual_output_quantity assertion_error
  leading ← or_raise run.leading_component_item_id assertion_error
  measured ← all_measured run.id
  recipe ← own_recipe run.business_id run.recipe_id
  sellable_id ← or_raise recipe.sellable_item_id (recipe_not_found run.recipe_id)
  sellable ← own_item run.business_id sellable_id (recipe_not_found run.recipe_id)
  or_raise (amount_of leading measured) (key_error leading)
  items ← gets (λ k. k.stock.items)
  pure (record {
    sellable_id = sellable.id;
    actual = actual;
    measured = measured;
    unit_cost = cost_per_unit (cost_total items measured none) actual;
  })

module _ (uuid_text : ℕ → String) where
  unfoldable pub output_leg : ProductionRun → ProductionEvent → Option ℕ → Output → Move
  unfolding leg_of
  output_leg run e actor_id o =
      let reason = str_append "Production run " (str_append (uuid_text run.id) " published") in
      leg_of e o.sellable_id o.actual production_output "user" actor_id reason false o.unit_cost

  -- The transaction.
  unfoldable pub write_output :
      ℕ → ProductionRun → Option ℕ → Output → ProductionEvent → Exec Kitchen KitchenError (Unit {0})
  write_output now run actor_id o e = or_rollback (do
    modify (add_run_event e o)
    in_stock (perform_legs (output_leg run e actor_id o ∷ []))
    modify (keep_run_cost o)
    modify (write_run (published_run now run))
    modify commit)

  unfoldable pub publish_output :
      ℕ → ProductionRun → Option ℕ → Output → Exec Kitchen KitchenError ProductionEvent
  publish_output now run actor_id o = do
    id ← gets (λ k. k.next_id)
    write_output now run actor_id o (run_event id run actor_id o)
    modify (
        notify (
          production_recorded id run.business_id
          ∷ audit_published actor_id run.business_id id
          ∷ []))
    pure (run_event id run actor_id o)

  unfoldable pub publish_new :
      ℕ → ProductionRun → Option ℕ → Exec Kitchen KitchenError ProductionEvent
  publish_new now run actor_id = do o ← prepare run; publish_output now run actor_id o

  unfoldable pub publish_by_status :
      ℕ → Option ℕ → RunStatus → ProductionRun → Exec Kitchen KitchenError ProductionEvent
  publish_by_status now actor_id pending run = published_event run
  publish_by_status now actor_id in_progress run = published_event run
  publish_by_status now actor_id cancelled run = published_event run
  publish_by_status now actor_id completed run =
      if is_some run.published_at then published_event run else publish_new now run actor_id

  unfoldable pub publish_run : ℕ → ℕ → ℕ → Option ℕ → Exec Kitchen KitchenError ProductionEvent
  publish_run now b i actor_id = do
    run ← get_run_or_404 b i
    publish_by_status now actor_id run.status run
