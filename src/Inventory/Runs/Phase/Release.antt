-- ===== src/Inventory/Runs/Phase/Release.antt =====
-- `publish_run` of services/inventory-service/app/services/run_service.py makes at most one change.
use foodo.Prelude.{
  ℕ, String, ◌≡◌, refl, Bool-cases, true, false, Option, none, some, inl, inr, [], ◌∷◌, is_some,
  Result, ok, err, arith,
}
use foodo.Inventory.Model.{Session}
use foodo.Inventory.Rules.{MoveError}
use foodo.Inventory.Legs.{perform_legs}
use foodo.Inventory.Production.{
  RunStatus, pending, in_progress, completed, cancelled, ProductionRun, Kitchen, commit, rollback,
  movement_failed, or_rollback, in_stock, production_recorded, audit_published,
}
use foodo.Inventory.Runs.{get_run_or_404, write_run, notify}
use foodo.Inventory.Runs.Publish.{
  published_event, Output, published_run, run_event, add_run_event, keep_run_cost, output_leg,
  write_output, publish_output, prepare, publish_new, publish_by_status, publish_run,
}
use foodo.Inventory.Runs.Reads.{
  get_run_or_404-Reads, published_event-Reads, prepare-Reads, IsRunOf, get_run_or_404-IsRunOf,
}
use foodo.Inventory.Runs.Phase.{publishes, phase_of, PhaseStep, release}
use foodo.Inventory.Runs.Phase.Change.{is_orderly}
use foodo.Inventory.Production.Void.Legs.{leg-IsQuiet}
use foodo.Inventory.Runs.Phase.Sound.{At, IsRetained-legs, returned, raised, read, Reads-At}
use foodo.Inventory.Runs.Phase.Serve.{IsReady, saved}

release-step :
    (s : RunStatus) (p : Option ℕ) (now : ℕ)
    → s ≡ completed
    → is_some p ≡ false
    → PhaseStep publishes (phase_of s p) (phase_of s (some now))
unfolding phase_of
release-step s none now e h = rw e release
release-step s (some t) now e h = absurd (cc)

completed-is_orderly : (s : RunStatus) (p : Option ℕ) → s ≡ completed → is_orderly s p ≡ true
unfolding is_orderly
completed-is_orderly s p e = rw e refl

module _ (uuid_text : ℕ → String) (now b i : ℕ) (actor_id : Option ℕ) (k : Kitchen)
    (c : IsReady k) where
  publish_output-At :
      (run : ProductionRun) (o : Output) (r : Result MoveError (Unit {0})) (s : Session)
      → perform_legs
          (output_leg uuid_text run (run_event k.next_id run actor_id o) actor_id o ∷ [])
          k.stock
        ≡ (r, s)
      → IsRunOf b i k run
      → run.status ≡ completed
      → is_some run.published_at ≡ false
      → At publishes k (publish_output uuid_text now run actor_id o)
  unfolding output_leg publish_output write_output or_rollback in_stock add_run_event keep_run_cost
      published_run run_event
  publish_output-At run o (err x) s l f e u =
      let event = run_event k.next_id run actor_id o in
      raised k (publish_output uuid_text now run actor_id o) (movement_failed x)
        (rollback (record (add_run_event event o k) { stock = s })) c.clean (rw l refl)
        (IsRetained-legs k (add_run_event event o k) _ _ s
          (record {
            book = refl;
            stock = refl;
            outbox = refl;
            notices = refl;
            next_id = omega arith;
          })
          (leg-IsQuiet event _ _ _ _ _ _ _ _, tt) l)
  publish_output-At run o (ok v) s l f e u =
      let event = run_event k.next_id run actor_id o in
      let kept = keep_run_cost o (record (add_run_event event o k) { stock = s }) in
      returned k (publish_output uuid_text now run actor_id o) event
        (notify
          (production_recorded event.id run.business_id
            ∷ audit_published actor_id run.business_id event.id
            ∷ [])
          (commit (write_run (published_run now run) kept)))
        (rw l refl)
        (saved k kept run (published_run now run) f.found
          (release-step run.status run.published_at now e u)
          (completed-is_orderly run.status (some now) e) refl (omega arith) _)

  publish_by_status-At :
      (run : ProductionRun) (s : RunStatus)
      → IsRunOf b i k run
      → run.status ≡ s
      → At publishes k (publish_by_status uuid_text now actor_id s run)
  unfolding publish_by_status publish_new
  publish_by_status-At run pending f e =
      Reads-At k (published_event run) c.clean (published_event-Reads run)
  publish_by_status-At run in_progress f e =
      Reads-At k (published_event run) c.clean (published_event-Reads run)
  publish_by_status-At run cancelled f e =
      Reads-At k (published_event run) c.clean (published_event-Reads run)
  publish_by_status-At run completed f e = elim (Bool-cases (is_some run.published_at)) [
    | inl p ↦ rw p (Reads-At k (published_event run) c.clean (published_event-Reads run))
    | inr p ↦ rw p (
        read k (prepare run) _ c.clean ((prepare-Reads run).same k)
          (λ o g. publish_output-At run o _ _ refl f e p))
  ]

  pub publish_run-At : At publishes k (publish_run uuid_text now b i actor_id)
  unfolding publish_run
  publish_run-At =
      read k (get_run_or_404 b i) _ c.clean ((get_run_or_404-Reads b i).same k)
        (λ run f. publish_by_status-At run run.status (get_run_or_404-IsRunOf b i k run f) refl)
