-- ===== src/Inventory/Runs/Phase/Create.antt =====
-- `create_run` of services/inventory-service/app/services/run_service.py adds one planned run, or none.
use foodo.Prelude.{
  ℕ, ℤ, pos, leb_ℤ, ◌≡◌, refl, ap, Option, none, some, List, [], ◌∷◌, ◌++◌, Result, ok, err, Exec,
  pure, gets, lift, raise_if, modify, ◌>>=◌, ◌>>◌, arith,
}
use foodo.Inventory.Model.{Item}
use foodo.Inventory.Production.{
  Recipe, RecipeComponent, ProductionRun, ProductionRunComponent, Kitchen, KitchenError, commit,
  invalid_input, run_created,
}
use foodo.Inventory.Production.Clean.{IsClean}
use foodo.Inventory.Runs.{load_recipe, notify}
use foodo.Inventory.Runs.Plan.{
  per_unit_requirement, planned_line, add_lines, RunCreate, new_run, add_run, plan_run,
  create_new_run, create_run, find_existing,
}
use foodo.Inventory.Runs.Reads.{raise_if-Reads, load_recipe-Reads}
use foodo.Inventory.Runs.Phase.{creates, phase_of}
use foodo.Inventory.Runs.Phase.Change.{added, is_orderly}
use foodo.Inventory.Runs.Phase.Sound.{At, returned, raised, read, unchanged}

abbrev with_lines : Kitchen → List ProductionRunComponent → Kitchen
with_lines k ls = record k { book = record k.book { lines = ls } }

abbrev IsWritten : {A : Type 0} → Kitchen → Exec Kitchen KitchenError A → Type 0
IsWritten k m = (ls : List ProductionRunComponent) × ((m k).1 ≡ with_lines k ls)

line-IsWritten :
    {A : Type 0} (r : Result KitchenError A) (g : A → Kitchen → Kitchen)
    (rest : Exec Kitchen KitchenError (Unit {0})) (k : Kitchen)
    → ((a : A) → (ls : List ProductionRunComponent) × ((rest (g a k)).1 ≡ with_lines k ls))
    → IsWritten k (lift r >>= λ a. modify (g a) >> rest)
line-IsWritten (ok a) g rest k h = h a
line-IsWritten (err e) g rest k h = (k.book.lines, refl)

-- The loop writes lines only.
add_lines-IsWritten :
    (n : ℕ) (t y : ℤ) (cs : List RecipeComponent) (k : Kitchen) → IsWritten k (add_lines n t y cs)
unfolding add_lines
add_lines-IsWritten n t y [] k = (k.book.lines, refl)
add_lines-IsWritten n t y (c ∷ cs) k =
    line-IsWritten (per_unit_requirement c.quantity_required y)
      (λ p k'. with_lines k' (k'.book.lines ++ (planned_line n t c p ∷ []))) (add_lines n t y cs) k
      (λ p.
        add_lines-IsWritten n t y cs (with_lines k (k.book.lines ++ (planned_line n t c p ∷ []))))

module _ (b : ℕ) (actor_id : Option ℕ) (body : RunCreate) (k : Kitchen) (c : IsClean k) where
  -- The end of the plan, by how the loop ended.
  planned-At :
      (recipe : Recipe) (components : List RecipeComponent) (sellable : Item)
      (r : Result KitchenError (Unit {0})) (t : Kitchen) (ls : List ProductionRunComponent)
      → add_lines k.next_id body.target_output_quantity recipe.target_yield_quantity components
          (add_run (new_run k.next_id b actor_id body recipe sellable) k)
        ≡ (r, t)
      → t ≡ with_lines (add_run (new_run k.next_id b actor_id body recipe sellable) k) ls
      → At creates k (plan_run b actor_id body recipe components sellable)
  unfolding plan_run add_run new_run phase_of is_orderly commit notify
  planned-At recipe components sellable (ok tt) t ls e w =
      let run = new_run k.next_id b actor_id body recipe sellable in
      let end : Kitchen → Kitchen = λ x. notify (run_created k.next_id b ∷ []) (commit x) in
      returned k (plan_run b actor_id body recipe components sellable) run
        (end (with_lines (add_run run k) ls)) (rw e (ap (λ x. (ok run, end x)) w))
        (record {
          change = added run refl refl refl refl refl refl;
          clean = record { stock = refl; book = refl };
        })
  planned-At recipe components sellable (err x) t ls e w =
      raised k (plan_run b actor_id body recipe components sellable) x t c (rw e refl) (
        rw w (record {
          book = refl;
          stock = refl;
          outbox = refl;
          notices = refl;
          next_id = omega arith;
        }))

  plan_run-At :
      (recipe : Recipe) (components : List RecipeComponent) (sellable : Item)
      → At creates k (plan_run b actor_id body recipe components sellable)
  plan_run-At recipe components sellable =
      let written =
        add_lines-IsWritten k.next_id body.target_output_quantity recipe.target_yield_quantity
          components (add_run (new_run k.next_id b actor_id body recipe sellable) k) in
      planned-At recipe components sellable _ _ written.0 refl written.1

  create_new_run-At : At creates k (create_new_run b actor_id body)
  unfolding create_new_run
  create_new_run-At =
      read k (load_recipe b body.recipe_id) _ c ((load_recipe-Reads b body.recipe_id).same k)
        (λ x e. plan_run-At x.0 x.1 x.2)

  existing-At :
      (o : Option ProductionRun)
      → At creates k (elim o [ some r ↦ pure r | none ↦ create_new_run b actor_id body ])
  existing-At none = create_new_run-At
  existing-At (some r) = returned k (pure r) r k refl (unchanged k c)

  pub create_run-At : At creates k (create_run b actor_id body)
  unfolding create_run
  create_run-At =
      read k (raise_if (leb_ℤ body.target_output_quantity (pos 0)) invalid_input) _ c
        ((raise_if-Reads _ _).same k)
        (λ u g.
          read k (gets (λ k'. find_existing b body.idempotency_key k'.book.runs)) _ c refl
            (λ o e. existing-At o))
