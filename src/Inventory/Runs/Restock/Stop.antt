-- ===== src/Inventory/Runs/Restock/Stop.antt =====
-- A start and a stop after it leave the stock as it was.
use Prim.Native.Char.{Char}
use mathlib.Core.Path.{subst}
use foodo.Prelude.{
  ℕ, ℤ, pos, ◌+ℤ◌, ◌-ℤ◌, String, ◌≡◌, refl, sym, ap, ◌∙◌, Bool, true, false, not, Option, none,
  some, List, [], ◌∷◌, Result, ok, is_some, if◌then◌else◌, ◌==◌, int_laws,
}
use foodo.Inventory.Model.{Session}
use foodo.Inventory.Movement.Outcome.{on_hand}
use foodo.Inventory.Movement.{Move}
use foodo.Inventory.Legs.{perform_legs}
use foodo.Inventory.Legs.Effect.{IsMoved, AllFound}
use foodo.Inventory.Legs.Run.{perform_legs-IsMoved, perform_legs_free}
use foodo.Inventory.Production.{
  RunStatus, pending, in_progress, completed, cancelled, ProductionRun, Kitchen, KitchenError,
  commit, run_cancelled, or_rollback, in_stock,
}
use foodo.Inventory.Runs.{is_pending, find_run, get_run_or_404, run_lines, write_run, notify}
use foodo.Inventory.Runs.Start.{
  Amounts, has_amount, write_lines, started_run, RunStart, start_legs, start_run,
}
use foodo.Inventory.Runs.Cancel.{
  measured_amounts, all_measured, cancelled_run, stop_reason, put_back_legs, put_back_run, stop_run,
  stop_unless_done, cancel_run,
}
use foodo.Inventory.Runs.Reads.{get_run_or_404-found}
use foodo.Inventory.Runs.Phase.Change.{is_orderly, find_run-set_run_same}
use foodo.Inventory.Runs.Phase.Refine.{IsValid}
use foodo.Inventory.Runs.Restock.{noted, has_line, AllDistinct, AllUnique, IsTraced, total}
use foodo.Inventory.Runs.Restock.Amounts.{total-noted_all}
use foodo.Inventory.Runs.Restock.Lines.{measured_lines-noted, measured_lines-amount}
use foodo.Inventory.Runs.Restock.Legs.{
  start_legs-AllQuiet, net-start_legs, start_legs-found, put_back_legs-AllQuiet,
  put_back_legs-AllFree, net-put_back_legs, put_back_legs-AllFound,
}
use foodo.Inventory.Runs.Restock.Start.{IsStarted, start_run-IsStarted, started, taken_by}

pending-unpublished :
    (s : RunStatus) (p : Option ℕ)
    → not (is_pending s) ≡ false
    → is_orderly s p ≡ true
    → is_some p ≡ false
unfolding is_pending is_orderly
pending-unpublished pending none h o = refl
pending-unpublished pending (some t) h o = absurd (cc)
pending-unpublished in_progress p h o = absurd (cc)
pending-unpublished completed p h o = absurd (cc)
pending-unpublished cancelled p h o = absurd (cc)

there_and_back : (h t : ℤ) → h +ℤ (pos 0 -ℤ t) +ℤ t ≡ h
there_and_back h t = omega int_laws

and_back :
    (b : Bool) (h t u : ℤ)
    → u ≡ t
    → h +ℤ (if b then pos 0 -ℤ t else pos 0) +ℤ (if b then u else pos 0) ≡ h
and_back true h t u e = ap (λ x. h +ℤ (pos 0 -ℤ t) +ℤ x) e ∙ there_and_back h t
and_back false h t u e = omega int_laws

module _ (uuid_text : ℕ → String) (is_space : Char → Bool) (now later b i : ℕ)
    (actor_id who : Option ℕ) (body : RunStart) (reason : Option String) (k : Kitchen)
    (v : IsValid k) where
  -- What the stop gives back, of a run that was started.
  abbrev amounts : ProductionRun → Amounts
  amounts run =
      noted (taken_by uuid_text now b i actor_id body k run) (run_lines run.id k.book.lines)

  abbrev begun : ProductionRun → ProductionRun
  begun run = started_run now body.leading_item_id run

  module _ (run : ProductionRun) (t : Kitchen)
      (s : IsStarted uuid_text now b i actor_id body k run t) where
    abbrev back : List Move
    back = put_back_legs uuid_text is_space (begun run) who (amounts run)

    abbrev middle : Session
    middle =
        (perform_legs
          (start_legs uuid_text run s.recipe actor_id
            (taken_by uuid_text now b i actor_id body k run))
          k.stock).1

    start-IsMoved :
        IsMoved
          (start_legs uuid_text run s.recipe actor_id
            (taken_by uuid_text now b i actor_id body k run))
          k.stock
          middle
    start-IsMoved =
        (perform_legs-IsMoved _ k.stock (start_legs-AllQuiet uuid_text run s.recipe actor_id _)
          s.moved).0

    abbrev after : Kitchen
    after = started uuid_text now b i actor_id body k run s.recipe middle s.lines

    back-found : AllFound back after.stock.items
    unfolding notify commit write_run write_lines
    back-found = subst (AllFound back) (sym start-IsMoved.items) (
        put_back_legs-AllFound uuid_text is_space (begun run) who _ k.stock.items
          (run_lines run.id k.book.lines)
          (λ a l.
            start_legs-found uuid_text run s.recipe actor_id
              (taken_by uuid_text now b i actor_id body k run) k.stock.items
              (perform_legs-IsMoved _ k.stock
                (start_legs-AllQuiet uuid_text run s.recipe actor_id _) s.moved).1
              a (measured_lines-amount run.id _ k.book.lines s.lines s.written a l)))

    back-done : (perform_legs back after.stock).0 ≡ ok tt
    back-done =
        perform_legs_free back after.stock
          (put_back_legs-AllQuiet uuid_text is_space (begun run) who (amounts run))
          (put_back_legs-AllFree uuid_text is_space (begun run) who (amounts run)) back-found

    begun-found : get_run_or_404 b i after ≡ (ok (begun run), after)
    unfolding notify commit write_run write_lines started_run
    begun-found =
        get_run_or_404-found b i after (begun run)
          (subst (λ j. find_run j after.book.runs ≡ some (begun run)) s.found.id
            (find_run-set_run_same (begun run) k.book.runs run s.found.found))
          s.found.business

    unpublished : is_some run.published_at ≡ false
    unpublished =
        pending-unpublished run.status run.published_at s.was_pending
          (v.orderly run.id run s.found.found)

    begun-measured : measured_amounts (run_lines run.id after.book.lines) ≡ some (amounts run)
    unfolding notify commit write_run write_lines
    begun-measured = measured_lines-noted run.id _ k.book.lines s.lines s.written

    cancel_run-stopped : cancel_run uuid_text is_space later b i reason who after ≡ (
      ok (cancelled_run uuid_text is_space later reason (begun run)),
      notify (run_cancelled run.id run.business_id (stop_reason uuid_text is_space reason) ∷ []) (
          commit (
            write_run
              (cancelled_run uuid_text is_space later reason (begun run))
              (record after { stock = (perform_legs back after.stock).1 }))),
    )
    unfolding cancel_run stop_unless_done stop_run put_back_run all_measured or_rollback in_stock
        started_run is_pending
    cancel_run-stopped = rw (begun-found, unpublished, begun-measured, back-done) refl

    stopped-levels :
        AllDistinct (taken_by uuid_text now b i actor_id body k run)
        → AllUnique (run_lines run.id k.book.lines)
        → ((a : ℕ)
            → has_line a (run_lines run.id k.book.lines) ≡ false
            → has_amount a (taken_by uuid_text now b i actor_id body k run) ≡ false)
        → (a j : ℕ) → on_hand a j (perform_legs back after.stock).1 ≡ on_hand a j k.stock
    unfolding notify commit write_run write_lines started_run
    stopped-levels d u f a j =
        (perform_legs-IsMoved back after.stock
            (put_back_legs-AllQuiet uuid_text is_space (begun run) who (amounts run))
            back-done).0.levels
          a j
        ∙ ap (λ x. on_hand a j middle +ℤ x)
            (net-put_back_legs uuid_text is_space (begun run) who (amounts run) a j)
        ∙ ap (λ x. x +ℤ (if run.store_id == j then total a (amounts run) else pos 0))
            (start-IsMoved.levels a j
              ∙ ap (λ x. on_hand a j k.stock +ℤ x)
                  (net-start_legs uuid_text run s.recipe actor_id _ a j))
        ∙ and_back (run.store_id == j) (on_hand a j k.stock)
            (total a (taken_by uuid_text now b i actor_id body k run)) (total a (amounts run))
            (total-noted_all a _ (run_lines run.id k.book.lines) d u (f a))

  abbrev pub stop : Kitchen → Result KitchenError ProductionRun × Kitchen
  stop = cancel_run uuid_text is_space later b i reason who

  stopped_restores :
      (run : ProductionRun) (t : Kitchen)
      → IsStarted uuid_text now b i actor_id body k run t
      → IsTraced body (run_lines run.id k.book.lines)
      → (r : ProductionRun) × ((stop t).0 ≡ ok r)
        × (r.status ≡ cancelled)
        × ((a j : ℕ) → on_hand a j (stop t).1.stock ≡ on_hand a j k.stock)
  unfolding cancelled_run notify commit write_run write_lines
  stopped_restores run t s c =
      let closed : stop t ≡ _ = ap stop s.state ∙ cancel_run-stopped run t s in
      (
        cancelled_run uuid_text is_space later reason (begun run),
        ap (λ z. z.0) closed,
        refl,
        λ a j.
            ap (λ z. on_hand a j z.1.stock) closed
            ∙ stopped-levels run t s c.distinct c.unique c.covered a j,
      )

  -- A start that succeeds, and a stop right after it, leave every stock quantity as it was: the stop
  -- succeeds, whatever the reason, and the run is cancelled. The condition is on what the start takes,
  -- by the client's body and the lines of the run: one amount for an item, as one line for an item,
  -- and none for an item without a line.
  pub start_run_then_cancel :
      (x : ProductionRun) (t : Kitchen)
      → start_run uuid_text now b i actor_id body k ≡ (ok x, t)
      → IsTraced body (run_lines i k.book.lines)
      → (r : ProductionRun) × ((stop t).0 ≡ ok r)
        × (r.status ≡ cancelled)
        × ((a j : ℕ) → on_hand a j (stop t).1.stock ≡ on_hand a j k.stock)
  start_run_then_cancel x t h c =
      let s = start_run-IsStarted uuid_text now b i actor_id body k x t h in
      stopped_restores s.0 t s.1
        (subst (λ j. IsTraced body (run_lines j k.book.lines)) (sym s.1.found.id) c)
