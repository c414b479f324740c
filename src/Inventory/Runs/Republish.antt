-- ===== src/Inventory/Runs/Republish.antt =====
-- Publishing a run twice: services/inventory-service/app/services/run_service.py.
use mathlib.Core.Path.{subst}
use foodo.Prelude.{
  ℕ, String, ◌≡◌, refl, sym, ap, ◌∙◌, Bool-cases, true, false, inl, inr, Option, none, some, List,
  [], ◌∷◌, Result, ok, err, is_some, if◌then◌else◌, ◌==◌, arith,
}
use foodo.Inventory.Model.{Session}
use foodo.Inventory.Rules.{MoveError}
use foodo.Inventory.Legs.{perform_legs}
use foodo.Inventory.Production.{
  RunStatus, pending, in_progress, completed, cancelled, ProductionEvent, ProductionRun, Kitchen,
  commit, rollback, movement_failed, or_rollback, in_stock, production_recorded, audit_published,
}
use foodo.Inventory.Runs.{find_run, get_run_or_404, write_run, notify}
use foodo.Inventory.Runs.Publish.{
  published_event, find_published, Output, published_run, run_event, add_run_event, keep_run_cost,
  output_leg, write_output, publish_output, prepare, publish_new, publish_by_status, publish_run,
}
use foodo.Inventory.Runs.Reads.{
  peel, get_run_or_404-Reads, published_event-Reads, prepare-Reads, IsRunOf, get_run_or_404-IsRunOf,
  get_run_or_404-found,
}
use foodo.Inventory.Runs.Phase.Change.{find_run-set_run_same}

published_event-some :
    (run : ProductionRun) (k : Kitchen) (e : ProductionEvent) (t : Kitchen)
    → published_event run k ≡ (ok e, t)
    → is_some run.published_at ≡ true
unfolding published_event
published_event-some run k e t h = elim (Bool-cases (is_some run.published_at)) [
  | inl p ↦ p
  | inr p ↦ absurd (cc (ap (λ z. z.0) (rw p at h)))
]

of_run :
    (o : Option ℕ) (i : ℕ) (e : ProductionEvent) (rest : Option ProductionEvent)
    → o ≡ some i
    → (if elim o [ none ↦ false | some r ↦ r == i ] then some e else rest) ≡ some e
of_run none i e rest h = absurd (cc)
of_run (some r) i e rest h = let own : (r == i) ≡ true = ground (arith, h) in rw own refl

-- The event of a run is found at once where it was just added.
find_published-first :
    (e : ProductionEvent) (i : ℕ) (es : List ProductionEvent)
    → e.run_id ≡ some i
    → find_published i (e ∷ es) ≡ some e
unfolding find_published
find_published-first e i es h = of_run e.run_id i e (find_published i es) h

module _ (uuid_text : ℕ → String) (now later b i : ℕ) (actor_id who : Option ℕ) (k : Kitchen) where
  -- What the database is after a publication.
  abbrev released : ProductionRun → Output → Session → Kitchen
  released run o s =
      let e = run_event k.next_id run actor_id o in
      notify
        (production_recorded e.id run.business_id
          ∷ audit_published actor_id run.business_id e.id
          ∷ [])
        (commit (
          write_run (published_run now run)
            (keep_run_cost o (record (add_run_event e o k) { stock = s }))))

  publish_output-released :
      (run : ProductionRun) (o : Output) (e : ProductionEvent) (t : Kitchen)
      (r : Result MoveError (Unit {0})) (s : Session)
      → perform_legs
          (output_leg uuid_text run (run_event k.next_id run actor_id o) actor_id o ∷ [])
          k.stock
        ≡ (r, s)
      → publish_output uuid_text now run actor_id o k ≡ (ok e, t)
      → (e ≡ run_event k.next_id run actor_id o) × (t ≡ released run o s)
  unfolding publish_output write_output or_rollback in_stock add_run_event keep_run_cost run_event
  publish_output-released run o e t (err x) s l h =
      let bad : publish_output uuid_text now run actor_id o k ≡ (
        err (movement_failed x),
        rollback (record (add_run_event (run_event k.next_id run actor_id o) o k) { stock = s }),
      ) =
        rw l refl in
      absurd (cc (ap (λ z. z.0) (sym bad ∙ h)))
  publish_output-released run o e t (ok v) s l h =
      let done : publish_output uuid_text now run actor_id o k
          ≡ (ok (run_event k.next_id run actor_id o), released run o s) =
        rw l refl in
      (cc (ap (λ z. z.0) (sym done ∙ h)), ap (λ z. z.1) (sym h ∙ done))

  -- The second call, on a database with the row and the event.
  again_by_status :
      (run : ProductionRun) (e : ProductionEvent) (t : Kitchen) (s : RunStatus)
      → published_event run t ≡ (ok e, t)
      → is_some run.published_at ≡ true
      → publish_by_status uuid_text later who s run t ≡ (ok e, t)
  unfolding publish_by_status
  again_by_status run e t pending p u = p
  again_by_status run e t in_progress p u = p
  again_by_status run e t cancelled p u = p
  again_by_status run e t completed p u = rw u p

  publish_run-found :
      (run : ProductionRun) (e : ProductionEvent) (t : Kitchen)
      → get_run_or_404 b i t ≡ (ok run, t)
      → published_event run t ≡ (ok e, t)
      → is_some run.published_at ≡ true
      → publish_run uuid_text later b i who t ≡ (ok e, t)
  unfolding publish_run
  publish_run-found run e t g p u = rw g (again_by_status run e t run.status p u)

  -- A call that only looked the event up.
  looked_up :
      (run : ProductionRun) (e : ProductionEvent) (t : Kitchen)
      → IsRunOf b i k run
      → published_event run k ≡ (ok e, t)
      → publish_run uuid_text later b i who t ≡ (ok e, t)
  looked_up run e t f h =
      let same : t ≡ k = ap (λ z. z.1) (sym h) ∙ (published_event-Reads run).same k in
      let there : find_run i k.book.runs ≡ some run =
        subst (λ j. find_run j k.book.runs ≡ some run) f.id f.found in
      subst (λ z. publish_run uuid_text later b i who z ≡ (ok e, z)) (sym same)
        (publish_run-found run e k (get_run_or_404-found b i k run there f.business)
          (h ∙ ap (λ z. (ok e, z)) same) (published_event-some run k e t h))

  published_event-known :
      (t : Kitchen) (run : ProductionRun) (e : ProductionEvent)
      → find_published run.id t.book.events ≡ some e
      → published_event (published_run now run) t ≡ (ok e, t)
  unfolding published_event published_run
  published_event-known t run e h = rw h refl

  -- A call that published.
  released_now :
      (run : ProductionRun) (o : Output) (e : ProductionEvent) (t : Kitchen)
      → IsRunOf b i k run
      → publish_output uuid_text now run actor_id o k ≡ (ok e, t)
      → publish_run uuid_text later b i who t ≡ (ok e, t)
  unfolding notify commit write_run keep_run_cost add_run_event published_run run_event
  released_now run o e t f h =
      let d = publish_output-released run o e t _ _ refl h in
      let s =
        (perform_legs
          (output_leg uuid_text run (run_event k.next_id run actor_id o) actor_id o ∷ [])
          k.stock).1 in
      let after = released run o s in
      let there : find_run i after.book.runs ≡ some (published_run now run) =
        subst (λ j. find_run j after.book.runs ≡ some (published_run now run)) f.id
          (find_run-set_run_same (published_run now run) k.book.runs run f.found) in
      let event = run_event k.next_id run actor_id o in
      let known : find_published run.id after.book.events ≡ some event =
        find_published-first event run.id k.book.events refl in
      subst (λ (z : Kitchen). publish_run uuid_text later b i who z ≡ (ok e, z)) (sym d.1)
        (subst (λ (y : ProductionEvent). publish_run uuid_text later b i who after ≡ (ok y, after))
          (sym d.0)
          (publish_run-found (published_run now run) event after
            (get_run_or_404-found b i after (published_run now run) there f.business)
            (published_event-known after run event known) refl))

  by_status :
      (run : ProductionRun) (e : ProductionEvent) (t : Kitchen) (s : RunStatus)
      → IsRunOf b i k run
      → publish_by_status uuid_text now actor_id s run k ≡ (ok e, t)
      → publish_run uuid_text later b i who t ≡ (ok e, t)
  unfolding publish_by_status publish_new
  by_status run e t pending f h = looked_up run e t f h
  by_status run e t in_progress f h = looked_up run e t f h
  by_status run e t cancelled f h = looked_up run e t f h
  by_status run e t completed f h = elim (Bool-cases (is_some run.published_at)) [
    | inl p ↦ looked_up run e t f (rw p at h)
    | inr p ↦
        let rest =
          peel k (prepare run) (λ o. publish_output uuid_text now run actor_id o) e t
            (prepare-Reads run) (rw p at h) in
        released_now run rest.0 e t f rest.2
  ]

  -- Publishing a run that was published returns the same record and changes nothing, whoever asks and
  -- whenever.
  pub publish_run_again :
      (e : ProductionEvent) (t : Kitchen)
      → publish_run uuid_text now b i actor_id k ≡ (ok e, t)
      → publish_run uuid_text later b i who t ≡ (ok e, t)
  unfolding publish_run
  publish_run_again e t h =
      let found =
        peel k (get_run_or_404 b i) (λ run. publish_by_status uuid_text now actor_id run.status run)
          e t (get_run_or_404-Reads b i) h in
      by_status found.0 e t found.0.status (get_run_or_404-IsRunOf b i k found.0 found.1) found.2
