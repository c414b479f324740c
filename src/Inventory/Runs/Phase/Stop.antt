-- ===== src/Inventory/Runs/Phase/Stop.antt =====
-- `cancel_run` of services/inventory-service/app/services/run_service.py makes at most one change.
use Prim.Native.Char.{Char}
use mathlib.Core.Path.{subst}
use foodo.Prelude.{
  ℕ, String, ◌≡◌, refl, sym, Bool, true, false, Option, none, some, Option-cases, inl, inr, [], ◌∷◌,
  is_some, Result, ok, err, pure, raise_if, ◌>>◌, arith,
}
use foodo.Inventory.Model.{Session}
use foodo.Inventory.Rules.{MoveError}
use foodo.Inventory.Legs.{perform_legs}
use foodo.Inventory.Production.{
  RunStatus, pending, in_progress, completed, cancelled, ProductionRun, Kitchen, commit, rollback,
  movement_failed, not_measured, or_rollback, in_stock, invalid_run_state, run_cancelled,
}
use foodo.Inventory.Runs.{is_pending, get_run_or_404, run_lines, write_run, notify}
use foodo.Inventory.Runs.Start.{Amounts}
use foodo.Inventory.Runs.Cancel.{
  measured_amounts, all_measured, cancelled_run, stop_reason, put_back_legs, put_back_run,
  stop_pending, stop_run, stop_unless_done, cancel_run,
}
use foodo.Inventory.Runs.Reads.{
  raise_if-Reads, get_run_or_404-Reads, IsRunOf, get_run_or_404-IsRunOf,
}
use foodo.Inventory.Runs.Phase.{cancels, phase_of, PhaseStep, stopped, stop_planned, stop_cooking}
use foodo.Inventory.Runs.Phase.Change.{is_orderly}
use foodo.Inventory.Runs.Restock.Legs.{put_back_legs-AllQuiet}
use foodo.Inventory.Runs.Phase.Sound.{
  IsSound, At, IsRetained-legs, retained, returned, raised, read, unchanged,
}
use foodo.Inventory.Runs.Phase.Serve.{IsReady, raise_if-passed, saved}

unpublished-is_orderly : (p : Option ℕ) → is_some p ≡ false → is_orderly cancelled p ≡ true
unfolding is_orderly
unpublished-is_orderly none h = refl
unpublished-is_orderly (some t) h = absurd (cc)

module _ (uuid_text : ℕ → String) (is_space : Char → Bool) (now b i : ℕ) (reason : Option String)
    (actor_id : Option ℕ) (k : Kitchen) (c : IsReady k) where
  -- The row, written to a database with the table of `k`.
  stopped-IsSound :
      (run : ProductionRun) (s : Session)
      → IsRunOf b i k run
      → PhaseStep cancels (phase_of run.status run.published_at) stopped
      → is_some run.published_at ≡ false
      → IsSound cancels k (
          notify
            (run_cancelled run.id run.business_id (stop_reason uuid_text is_space reason) ∷ [])
            (commit (
              write_run
                (cancelled_run uuid_text is_space now reason run)
                (record k { stock = s }))))
  unfolding cancelled_run phase_of
  stopped-IsSound run s f step u =
      saved k (record k { stock = s }) run (cancelled_run uuid_text is_space now reason run) f.found
        step (unpublished-is_orderly run.published_at u) refl (omega arith) _

  stop_pending-At :
      (run : ProductionRun)
      → IsRunOf b i k run
      → is_pending run.status ≡ true
      → PhaseStep cancels (phase_of run.status run.published_at) stopped
      → is_some run.published_at ≡ false
      → At cancels k (stop_run uuid_text is_space now reason actor_id run)
  unfolding stop_run stop_pending
  stop_pending-At run f e p u =
      returned k (stop_run uuid_text is_space now reason actor_id run)
        (cancelled_run uuid_text is_space now reason run) _ (rw e refl)
        (stopped-IsSound run k.stock f p u)

  put_back-At :
      (run : ProductionRun) (as' : Amounts) (r : Result MoveError (Unit {0})) (s : Session)
      → measured_amounts (run_lines run.id k.book.lines) ≡ some as'
      → perform_legs (put_back_legs uuid_text is_space run actor_id as') k.stock ≡ (r, s)
      → IsRunOf b i k run
      → is_pending run.status ≡ false
      → PhaseStep cancels (phase_of run.status run.published_at) stopped
      → is_some run.published_at ≡ false
      → At cancels k (stop_run uuid_text is_space now reason actor_id run)
  unfolding stop_run put_back_run all_measured or_rollback in_stock
  put_back-At run as' (err x) s m l f e p u =
      raised k (stop_run uuid_text is_space now reason actor_id run) (movement_failed x)
        (rollback (record k { stock = s })) c.clean (rw (e, m, l) refl)
        (IsRetained-legs k k _ _ s (retained k)
          (put_back_legs-AllQuiet uuid_text is_space run actor_id as') l)
  put_back-At run as' (ok v) s m l f e p u =
      returned k (stop_run uuid_text is_space now reason actor_id run)
        (cancelled_run uuid_text is_space now reason run) _ (rw (e, m, l) refl)
        (stopped-IsSound run s f p u)

  put_back_any-At :
      (run : ProductionRun)
      → IsRunOf b i k run
      → is_pending run.status ≡ false
      → PhaseStep cancels (phase_of run.status run.published_at) stopped
      → is_some run.published_at ≡ false
      → At cancels k (stop_run uuid_text is_space now reason actor_id run)
  unfolding stop_run put_back_run all_measured
  put_back_any-At run f e p u =
      elim (Option-cases (measured_amounts (run_lines run.id k.book.lines))) [
        | inl m ↦
            raised k (stop_run uuid_text is_space now reason actor_id run) (not_measured run.id) k
              c.clean (rw (e, m) refl) (retained k)
        | inr (as', m) ↦ put_back-At run as' _ _ m refl f e p u
      ]

  stop_unless_done-At :
      (run : ProductionRun) (s : RunStatus)
      → IsRunOf b i k run
      → run.status ≡ s
      → At cancels k (stop_unless_done uuid_text is_space now reason actor_id s run)
  unfolding stop_unless_done is_pending phase_of
  stop_unless_done-At run cancelled f e = returned k (pure run) run k refl (unchanged k c.clean)
  stop_unless_done-At run completed f e =
      raised k (raise_if true (invalid_run_state completed) >> pure run)
        (invalid_run_state completed) k c.clean refl (retained k)
  stop_unless_done-At run pending f e =
      read k (raise_if (is_some run.published_at) (invalid_run_state pending)) _ c.clean
        ((raise_if-Reads _ _).same k)
        (λ v p.
          stop_pending-At run f (subst (λ x. is_pending x ≡ true) (sym e) refl)
            (subst (λ x. PhaseStep cancels (phase_of x run.published_at) stopped) (sym e)
              stop_planned)
            (raise_if-passed _ _ k v p))
  stop_unless_done-At run in_progress f e =
      read k (raise_if (is_some run.published_at) (invalid_run_state in_progress)) _ c.clean
        ((raise_if-Reads _ _).same k)
        (λ v p.
          put_back_any-At run f (subst (λ x. is_pending x ≡ false) (sym e) refl)
            (subst (λ x. PhaseStep cancels (phase_of x run.published_at) stopped) (sym e)
              stop_cooking)
            (raise_if-passed _ _ k v p))

  pub cancel_run-At : At cancels k (cancel_run uuid_text is_space now b i reason actor_id)
  unfolding cancel_run
  cancel_run-At =
      read k (get_run_or_404 b i) _ c.clean ((get_run_or_404-Reads b i).same k)
        (λ run f. stop_unless_done-At run run.status (get_run_or_404-IsRunOf b i k run f) refl)
