-- ===== src/Inventory/Runs/Phase/Serve.antt =====
-- Every method of services/inventory-service/app/services/run_service.py makes at most one change.
use Prim.Native.Char.{Char}
use foodo.Prelude.{
  ℕ, ℤ, pos, leb_ℤ, String, ◌≤◌, ◌≡◌, refl, Bool, true, false, not, Option, none, some, List, [],
  ◌∷◌, ok, raise_if, modify, arith,
}
use foodo.Inventory.Production.{
  RunStatus, pending, in_progress, completed, cancelled, ProductionRun, Kitchen, KitchenError,
  commit, invalid_input, invalid_run_state, Notice, run_completed,
}
use foodo.Inventory.Production.Clean.{IsClean}
use foodo.Inventory.Runs.{
  is_pending, is_in_progress, find_run, get_run_or_404, write_run, notify, completed_run,
  finish_run, complete_run, remove_run, delete_run,
}
use foodo.Inventory.Runs.Reads.{
  raise_if-Reads, get_run_or_404-Reads, IsRunOf, get_run_or_404-IsRunOf,
}
use foodo.Inventory.Runs.Phase.{
  Operation, completes, deletes, planned, phase_of, PhaseStep, finish_cooking,
}
use foodo.Inventory.Runs.Phase.Change.{moved, dropped, is_orderly, IsOrderly}
use foodo.Inventory.Runs.Phase.Sound.{IsSound, At, returned, read}

-- What a request starts from.
pub record IsReady (k : Kitchen) : Type 0 where
  pub clean : IsClean k
  pub orderly : IsOrderly k.book.runs

pub raise_if-passed :
    (b : Bool) (e : KitchenError) (k : Kitchen) (u : Unit {0})
    → (raise_if b e k).0 ≡ ok u
    → b ≡ false
raise_if-passed true e k u h = absurd (cc)
raise_if-passed false e k u h = refl

finish-step :
    (s : RunStatus) (p : Option ℕ)
    → not (is_in_progress s) ≡ false
    → is_orderly s p ≡ true
    → PhaseStep completes (phase_of s p) (phase_of completed p)
unfolding phase_of is_in_progress is_orderly
finish-step pending p h o = absurd (cc)
finish-step in_progress none h o = finish_cooking
finish-step in_progress (some t) h o = absurd (cc)
finish-step completed p h o = absurd (cc)
finish-step cancelled p h o = absurd (cc)

pub pending-phase :
    (s : RunStatus) (p : Option ℕ) → not (is_pending s) ≡ false → phase_of s p ≡ planned
unfolding phase_of is_pending
pending-phase pending p h = refl
pending-phase in_progress p h = absurd (cc)
pending-phase completed p h = absurd (cc)
pending-phase cancelled p h = absurd (cc)

-- A row that is written back and committed.
pub saved :
    {o : Operation} (k t : Kitchen) (r x : ProductionRun)
    → find_run x.id k.book.runs ≡ some r
    → PhaseStep o (phase_of r.status r.published_at) (phase_of x.status x.published_at)
    → is_orderly x.status x.published_at ≡ true
    → t.book.runs ≡ k.book.runs
    → k.next_id ≤ t.next_id
    → (ns : List Notice) → IsSound o k (notify ns (commit (write_run x t)))
unfolding notify commit write_run
saved k t r x f s w e l ns = record {
  change = moved r x f s w (rw e refl) l;
  clean = record { stock = refl; book = refl };
}

finish_run-At :
    {o : Operation} (k : Kitchen) (r x : ProductionRun) (n : Notice)
    → find_run x.id k.book.runs ≡ some r
    → PhaseStep o (phase_of r.status r.published_at) (phase_of x.status x.published_at)
    → is_orderly x.status x.published_at ≡ true
    → At o k (finish_run x n)
unfolding finish_run
finish_run-At k r x n f s w =
    returned k (finish_run x n) x (notify (n ∷ []) (commit (write_run x k))) refl
      (saved k k r x f s w refl (omega arith) (n ∷ []))

module _ (is_space : Char → Bool) (now b i : ℕ) (k : Kitchen) (c : IsReady k) where
  completed-At :
      (actual : ℤ) (waste : Option String) (r : ProductionRun)
      → IsRunOf b i k r
      → not (is_in_progress r.status) ≡ false
      → At completes k (
          finish_run (completed_run is_space now actual waste r) (run_completed r.id r.business_id))
  unfolding completed_run phase_of is_orderly
  completed-At actual waste r f s =
      finish_run-At k r (completed_run is_space now actual waste r) _ f.found
        (finish-step r.status r.published_at s (c.orderly r.id r f.found)) refl

  pub complete_run-At :
      (actual : ℤ) (waste : Option String)
      → At completes k (complete_run is_space now b i actual waste)
  unfolding complete_run
  complete_run-At actual waste =
      read k (raise_if (leb_ℤ actual (pos 0)) invalid_input) _ c.clean ((raise_if-Reads _ _).same k)
        (λ u g. read k (get_run_or_404 b i) _ c.clean ((get_run_or_404-Reads b i).same k) (λ r f.
          read k (raise_if (not (is_in_progress r.status)) (invalid_run_state r.status)) _ c.clean
            ((raise_if-Reads _ _).same k)
            (λ v p.
              completed-At actual waste r (get_run_or_404-IsRunOf b i k r f)
                (raise_if-passed _ _ k v p))))

  remove_run-At :
      (r : ProductionRun)
      → IsRunOf b i k r
      → not (is_pending r.status) ≡ false
      → At deletes k (modify (remove_run r.id))
  unfolding remove_run commit
  remove_run-At r f s = returned k (modify (remove_run r.id)) tt (remove_run r.id k) refl (record {
    change = dropped r refl f.found (pending-phase r.status r.published_at s) refl (omega arith);
    clean = record { stock = refl; book = refl };
  })

  pub delete_run-At : At deletes k (delete_run b i)
  unfolding delete_run
  delete_run-At = read k (get_run_or_404 b i) _ c.clean ((get_run_or_404-Reads b i).same k) (λ r f.
      read k (raise_if (not (is_pending r.status)) (invalid_run_state r.status)) _ c.clean
        ((raise_if-Reads _ _).same k)
        (λ v p. remove_run-At r (get_run_or_404-IsRunOf b i k r f) (raise_if-passed _ _ k v p)))
