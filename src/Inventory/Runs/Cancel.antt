-- ===== src/Inventory/Runs/Cancel.antt =====
-- `cancel_run` of services/inventory-service/app/services/run_service.py.
use Prim.Native.Char.{Char}
use Prim.Native.String.{◌++◌ as str_append}
use foodo.Prelude.{
  first_chars, is_empty, lstrip, rstrip, strip, ℕ, ℤ, String, Bool, true, Option, none, some, List,
  [], ◌∷◌, map, if◌then◌else◌, is_some, Exec, pure, gets, or_raise, raise_if, modify, ◌>>=◌, ◌>>◌,
}
use foodo.Inventory.Model.{production_reversal}
use foodo.Inventory.Movement.{Move}
use foodo.Inventory.Legs.{perform_legs}
use foodo.Inventory.Production.{
  RunStatus, pending, in_progress, completed, cancelled, ProductionRun, ProductionRunComponent,
  run_cancelled, Kitchen, KitchenError, invalid_run_state, not_measured, in_stock, or_rollback,
  commit,
}
use foodo.Inventory.Runs.{is_pending, get_run_or_404, run_lines, write_run, notify, run_leg}
use foodo.Inventory.Runs.Start.{Amounts}

abbrev and_amount : ℕ → Option ℤ → Option Amounts → Option Amounts
and_amount i none rest = none
and_amount i (some q) none = none
and_amount i (some q) (some as') = some ((i, q) ∷ as')

-- `{c.raw_material_item_id: c.measured_quantity ...}`, if no quantity is None.
unfoldable pub measured_amounts : List ProductionRunComponent → Option Amounts
measured_amounts [] = some []
measured_amounts (c ∷ cs) =
    and_amount c.raw_material_item_id c.measured_quantity (measured_amounts cs)

-- The quantities of a run that has them all.
unfoldable pub all_measured : ℕ → Exec Kitchen KitchenError Amounts
unfolding measured_amounts
all_measured i = do
  amounts ← gets (λ k. measured_amounts (run_lines i k.book.lines))
  or_raise amounts (not_measured i)

module _ (uuid_text : ℕ → String) (is_space : Char → Bool) where
  -- `(reason or "").strip() or "Stopped by staff"`
  unfoldable pub stop_reason : Option String → String
  unfolding lstrip rstrip is_empty
  stop_reason none = "Stopped by staff"
  stop_reason (some reason) =
      let text = strip is_space reason in if is_empty text then "Stopped by staff" else text

  unfoldable pub cancelled_run : ℕ → Option String → ProductionRun → ProductionRun
  unfolding stop_reason first_chars
  cancelled_run now reason run = record run {
    status = cancelled;
    cancel_reason = some (first_chars 500 (stop_reason reason));
    cancelled_at = some now;
  }

  unfoldable pub put_back_legs : ProductionRun → Option ℕ → Amounts → List Move
  unfolding run_leg
  put_back_legs run actor_id as' =
      let reason = str_append "Stop batch " (str_append (uuid_text run.id) ": put back") in
      map (λ a. run_leg run a.0 a.1 production_reversal actor_id reason true) as'

  -- The weighed items back, the row and the commit.
  unfoldable pub put_back_run :
      ℕ → Option String → Option ℕ → ProductionRun → Exec Kitchen KitchenError (Unit {0})
  put_back_run now reason actor_id run = do
    amounts ← all_measured run.id
    or_rollback (do
      in_stock (perform_legs (put_back_legs run actor_id amounts))
      modify (write_run (cancelled_run now reason run))
      modify commit)

  unfoldable pub stop_pending :
      ℕ → Option String → ProductionRun → Exec Kitchen KitchenError (Unit {0})
  stop_pending now reason run = do modify (write_run (cancelled_run now reason run)); modify commit

  unfoldable pub stop_run :
      ℕ → Option String → Option ℕ → ProductionRun → Exec Kitchen KitchenError ProductionRun
  unfolding is_pending
  stop_run now reason actor_id run = do
    if is_pending run.status
        then stop_pending now reason run
        else put_back_run now reason actor_id run
    modify (notify (run_cancelled run.id run.business_id (stop_reason reason) ∷ []))
    pure (cancelled_run now reason run)

  -- What is left when the run is not cancelled.
  unfoldable pub stop_unless_done :
      ℕ
      → Option String
      → Option ℕ
      → RunStatus
      → ProductionRun
      → Exec Kitchen KitchenError ProductionRun
  stop_unless_done now reason actor_id cancelled run = pure run
  stop_unless_done now reason actor_id completed run =
      raise_if true (invalid_run_state completed) >> pure run
  stop_unless_done now reason actor_id pending run = do
    raise_if (is_some run.published_at) (invalid_run_state pending)
    stop_run now reason actor_id run
  stop_unless_done now reason actor_id in_progress run = do
    raise_if (is_some run.published_at) (invalid_run_state in_progress)
    stop_run now reason actor_id run

  unfoldable pub cancel_run :
      ℕ → ℕ → ℕ → Option String → Option ℕ → Exec Kitchen KitchenError ProductionRun
  cancel_run now b i reason actor_id = do
    run ← get_run_or_404 b i
    stop_unless_done now reason actor_id run.status run
