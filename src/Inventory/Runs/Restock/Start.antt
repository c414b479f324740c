-- ===== src/Inventory/Runs/Restock/Start.antt =====
-- What a start that returned has done.
use mathlib.Core.Path.{subst}
use foodo.Prelude.{
  ℕ, ℤ, pos, leb_ℤ, String, ◌≡◌, refl, sym, ap, ◌∙◌, false, not, Option, none, some, List, [], ◌∷◌,
  Result, ok, err, continue, raise_if, pure,
}
use foodo.Inventory.Model.{Session}
use foodo.Inventory.Rules.{MoveError}
use foodo.Inventory.Legs.{perform_legs}
use foodo.Inventory.Production.{
  Recipe, RecipeComponent, ProductionRun, ProductionRunComponent, Kitchen, KitchenError,
  invalid_input, invalid_run_state, run_started, commit, or_rollback, in_stock, rollback,
  movement_failed,
}
use foodo.Inventory.Runs.{is_pending, get_run_or_404, load_recipe, run_lines, write_run, notify}
use foodo.Inventory.Runs.Start.{
  Amounts, is_ingredient, check_override, measure, check_stock, measured_lines, write_lines,
  started_run, RunStart, start_legs, deduct, start_run,
}
use foodo.Inventory.Runs.Reads.{
  peel, raise_if-Reads, get_run_or_404-Reads, load_recipe-Reads, measure-Reads, check_stock-Reads,
  IsRunOf, get_run_or_404-IsRunOf,
}
use foodo.Inventory.Runs.Phase.Serve.{raise_if-passed}
use foodo.Inventory.Runs.Restock.{taken}

override_kept :
    (r : Result KitchenError (Unit {0})) (k : Kitchen) (override as' : Amounts)
    → (continue r (λ u. pure override) k).0 ≡ ok as'
    → override ≡ as'
override_kept (ok u) k override as' h = cc (h)
override_kept (err e) k override as' h = absurd (cc (h))

measure-taken :
    (leading : ℕ) (quantity : ℤ) (cs : List RecipeComponent) (snap : List ProductionRunComponent)
    (o : Option Amounts) (k : Kitchen) (as' : Amounts)
    → (measure leading quantity cs snap o k).0 ≡ ok as'
    → taken leading quantity snap o ≡ as'
unfolding measure
measure-taken leading quantity cs snap none k as' h = cc (h)
measure-taken leading quantity cs snap (some override) k as' h =
    override_kept (check_override leading quantity cs override k).0
      (check_override leading quantity cs override k).1 override as' h

module _ (uuid_text : ℕ → String) (now b i : ℕ) (actor_id : Option ℕ) (body : RunStart)
    (k : Kitchen) where
  -- The state after the transaction, and the parts of it that could have raised.
  abbrev pub started : ProductionRun → Recipe → Session → List ProductionRunComponent → Kitchen
  started run recipe s ls = notify (run_started run.id run.business_id ∷ []) (
      commit (
        write_run (started_run now body.leading_item_id run)
          (write_lines ls (record k { stock = s }))))

  abbrev lines_of : ProductionRun → List ProductionRunComponent
  lines_of run = run_lines run.id k.book.lines

  abbrev pub taken_by : ProductionRun → Amounts
  taken_by run =
      taken body.leading_item_id body.leading_quantity_used (lines_of run) body.components

  pub record IsStarted (run : ProductionRun) (t : Kitchen) : Type 0 where
    pub recipe : Recipe
    pub lines : List ProductionRunComponent
    pub found : IsRunOf b i k run
    pub was_pending : not (is_pending run.status) ≡ false
    pub moved :
        (perform_legs (start_legs uuid_text run recipe actor_id (taken_by run)) k.stock).0 ≡ ok tt
    pub written : measured_lines run.id (taken_by run) k.book.lines ≡ ok lines
    pub state :
        t
        ≡ started run recipe
            (perform_legs (start_legs uuid_text run recipe actor_id (taken_by run)) k.stock).1
            lines

  deduct-started :
      (run : ProductionRun) (recipe : Recipe) (as' : Amounts) (x : ProductionRun) (t : Kitchen)
      (r : Result MoveError (Unit {0})) (s : Session)
      (rows : Result KitchenError (List ProductionRunComponent))
      → perform_legs (start_legs uuid_text run recipe actor_id as') k.stock ≡ (r, s)
      → measured_lines run.id as' k.book.lines ≡ rows
      → deduct uuid_text now run recipe actor_id body.leading_item_id as' k ≡ (ok x, t)
      → (ls : List ProductionRunComponent) × (r ≡ ok tt)
        × (rows ≡ ok ls)
        × (t ≡ started run recipe s ls)
  unfolding deduct or_rollback in_stock write_lines
  deduct-started run recipe as' x t (err e) s rows l m h =
      (let bad : deduct uuid_text now run recipe actor_id body.leading_item_id as' k
            ≡ (err (movement_failed e), rollback (record k { stock = s })) =
          rw l refl in
        absurd (cc (ap (λ z. z.0) (sym bad ∙ h))))
  deduct-started run recipe as' x t (ok v) s (err e) l m h =
      (let bad : deduct uuid_text now run recipe actor_id body.leading_item_id as' k
            ≡ (err e, rollback (record k { stock = s })) =
          rw (l, m) refl in
        absurd (cc (ap (λ z. z.0) (sym bad ∙ h))))
  deduct-started run recipe as' x t (ok v) s (ok ls) l m h =
      let done : deduct uuid_text now run recipe actor_id body.leading_item_id as' k
          ≡ (ok (started_run now body.leading_item_id run), started run recipe s ls) =
        rw (l, m) refl in
      (ls, refl, refl, ap (λ z. z.1) (sym h ∙ done))

  -- A start that returned.
  pub start_run-IsStarted :
      (x : ProductionRun) (t : Kitchen)
      → start_run uuid_text now b i actor_id body k ≡ (ok x, t)
      → (run : ProductionRun) × IsStarted run t
  unfolding start_run
  start_run-IsStarted x t h =
      let p1 =
        peel k (raise_if (leb_ℤ body.leading_quantity_used (pos 0)) invalid_input) _ x t
          (raise_if-Reads _ _) h in
      let p2 = peel k (get_run_or_404 b i) _ x t (get_run_or_404-Reads b i) p1.2 in
      let run = p2.0 in
      let p3 =
        peel k (raise_if (not (is_pending run.status)) (invalid_run_state run.status)) _ x t
          (raise_if-Reads _ _) p2.2 in
      let p4 =
        peel k (load_recipe b run.recipe_id) _ x t (load_recipe-Reads b run.recipe_id) p3.2 in
      let recipe = p4.0.0 in
      let components = p4.0.1 in
      let p5 =
        peel k (raise_if (not (is_ingredient body.leading_item_id components)) invalid_input) _ x t
          (raise_if-Reads _ _) p4.2 in
      let p7 =
        peel k
          (measure body.leading_item_id body.leading_quantity_used components (lines_of run)
            body.components)
          _ x t (measure-Reads _ _ _ _ _) p5.2 in
      let p8 = peel k (check_stock run.store_id p7.0) _ x t (check_stock-Reads _ _) p7.2 in
      let e : taken_by run ≡ p7.0 =
        measure-taken _ _ components (lines_of run) body.components k p7.0 p7.1 in
      let d = deduct-started run recipe (taken_by run) x t _ _ _ refl refl (
        subst (λ z. deduct uuid_text now run recipe actor_id body.leading_item_id z k ≡ (ok x, t))
          (sym e) p8.2) in
      (
        run,
        record {
          recipe = recipe;
          lines = d.0;
          found = get_run_or_404-IsRunOf b i k run p2.1;
          was_pending = raise_if-passed _ _ k p3.0 p3.1;
          moved = d.1;
          written = d.2;
          state = d.3;
        },
      )
