-- ===== src/Inventory/Runs/Phase/Stock.antt =====
-- `start_run`, `cancel_run` and `publish_run` of
-- services/inventory-service/app/services/run_service.py move stock and make at most one change.
use foodo.Prelude.{
  ℕ, pos, leb_ℤ, String, ◌≡◌, refl, true, false, not, Option, List, [], ◌∷◌, Result, ok, err, gets,
  raise_if, arith,
}
use foodo.Inventory.Model.{Session}
use foodo.Inventory.Rules.{MoveError}
use foodo.Inventory.Legs.{perform_legs}
use foodo.Inventory.Production.{
  Recipe, RunStatus, pending, in_progress, completed, cancelled, ProductionRun,
  ProductionRunComponent, Kitchen, KitchenError, commit, rollback, movement_failed, or_rollback,
  in_stock, invalid_input, invalid_run_state, run_started,
}
use foodo.Inventory.Runs.{is_pending, get_run_or_404, load_recipe, run_lines, write_run, notify}
use foodo.Inventory.Runs.Start.{
  Amounts, is_ingredient, measure, check_stock, measured_lines, write_lines, started_run, RunStart,
  start_legs, deduct, start_run,
}
use foodo.Inventory.Runs.Reads.{
  raise_if-Reads, get_run_or_404-Reads, load_recipe-Reads, measure-Reads, check_stock-Reads,
  IsRunOf, get_run_or_404-IsRunOf,
}
use foodo.Inventory.Runs.Phase.{starts, phase_of, PhaseStep, begin_cooking}
use foodo.Inventory.Runs.Phase.Change.{is_orderly}
use foodo.Inventory.Runs.Restock.Legs.{start_legs-AllQuiet}
use foodo.Inventory.Runs.Phase.Sound.{At, IsRetained-legs, retained, returned, raised, read}
use foodo.Inventory.Runs.Phase.Serve.{IsReady, raise_if-passed, saved}

begin-step :
    (s : RunStatus) (p : Option ℕ)
    → not (is_pending s) ≡ false
    → PhaseStep starts (phase_of s p) (phase_of in_progress p)
unfolding phase_of is_pending
begin-step pending p h = begin_cooking
begin-step in_progress p h = absurd (cc)
begin-step completed p h = absurd (cc)
begin-step cancelled p h = absurd (cc)

pending-is_orderly :
    (s : RunStatus) (p : Option ℕ)
    → not (is_pending s) ≡ false
    → is_orderly s p ≡ true
    → is_orderly in_progress p ≡ true
unfolding is_orderly is_pending
pending-is_orderly pending p h o = o
pending-is_orderly in_progress p h o = absurd (cc)
pending-is_orderly completed p h o = absurd (cc)
pending-is_orderly cancelled p h o = absurd (cc)

module _ (uuid_text : ℕ → String) (now b i : ℕ) (k : Kitchen) (c : IsReady k) where
  -- The transaction of the start, by how its two parts that may raise end.
  deduct-At :
      (run : ProductionRun) (recipe : Recipe) (actor_id : Option ℕ) (leading : ℕ) (as' : Amounts)
      (r : Result MoveError (Unit {0})) (s : Session)
      (rows : Result KitchenError (List ProductionRunComponent))
      → perform_legs (start_legs uuid_text run recipe actor_id as') k.stock ≡ (r, s)
      → measured_lines run.id as' k.book.lines ≡ rows
      → IsRunOf b i k run
      → not (is_pending run.status) ≡ false
      → At starts k (deduct uuid_text now run recipe actor_id leading as')
  unfolding deduct or_rollback in_stock started_run write_lines notify
  deduct-At run recipe actor_id leading as' (err x) s rows e m f h =
      raised k (deduct uuid_text now run recipe actor_id leading as') (movement_failed x)
        (rollback (record k { stock = s })) c.clean (rw e refl)
        (IsRetained-legs k k _ _ s (retained k)
          (start_legs-AllQuiet uuid_text run recipe actor_id as') e)
  deduct-At run recipe actor_id leading as' (ok tt) s (err x) e m f h =
      raised k (deduct uuid_text now run recipe actor_id leading as') x
        (rollback (record k { stock = s })) c.clean (rw (e, m) refl)
        (IsRetained-legs k k _ _ s (retained k)
          (start_legs-AllQuiet uuid_text run recipe actor_id as') e)
  deduct-At run recipe actor_id leading as' (ok tt) s (ok ls) e m f h =
      let x = started_run now leading run in
      returned k (deduct uuid_text now run recipe actor_id leading as') x
        (notify (run_started run.id run.business_id ∷ [])
          (commit (write_run x (write_lines ls (record k { stock = s })))))
        (rw (e, m) refl)
        (saved k (write_lines ls (record k { stock = s })) run x f.found
          (begin-step run.status run.published_at h)
          (pending-is_orderly run.status run.published_at h (c.orderly run.id run f.found)) refl
          (omega arith) _)

  pub start_run-At :
      (actor_id : Option ℕ) (body : RunStart)
      → At starts k (start_run uuid_text now b i actor_id body)
  unfolding start_run
  start_run-At actor_id body =
      read k (raise_if (leb_ℤ body.leading_quantity_used (pos 0)) invalid_input) _ c.clean
        ((raise_if-Reads _ _).same k)
        (λ u g. read k (get_run_or_404 b i) _ c.clean ((get_run_or_404-Reads b i).same k) (λ run f.
          read k (raise_if (not (is_pending run.status)) (invalid_run_state run.status)) _ c.clean
            ((raise_if-Reads _ _).same k)
            (λ v p.
              read k (load_recipe b run.recipe_id) _ c.clean
                ((load_recipe-Reads b run.recipe_id).same k)
                (λ loaded q.
                  read k
                    (raise_if (not (is_ingredient body.leading_item_id loaded.1)) invalid_input) _
                    c.clean ((raise_if-Reads _ _).same k)
                    (λ w g'.
                      read k (gets (λ k'. run_lines run.id k'.book.lines)) _ c.clean refl
                        (λ snap g''.
                          read k
                            (measure body.leading_item_id body.leading_quantity_used loaded.1 snap
                              body.components)
                            _ c.clean ((measure-Reads _ _ _ _ _).same k)
                            (λ amounts g'''.
                              read k (check_stock run.store_id amounts) _ c.clean
                                ((check_stock-Reads _ _).same k)
                                (λ z y.
                                  deduct-At run loaded.0 actor_id body.leading_item_id amounts _ _ _
                                    refl refl (get_run_or_404-IsRunOf b i k run f)
                                    (raise_if-passed _ _ k v p)))))))))
