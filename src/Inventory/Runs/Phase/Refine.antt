-- ===== src/Inventory/Runs/Phase/Refine.antt =====
-- The requests about runs refine the life of a run.
use Prim.Native.Char.{Char}
use foodo.Prelude.{◌≡◌, refl, ℕ, String, Bool, List, [], ◌∷◌, ok, err, Result, Exec, pure, ◌>>◌}
use foodo.Inventory.Production.{Kitchen, KitchenError, or_rollback}
use foodo.Inventory.Production.Clean.{IsClean}
use foodo.Inventory.Runs.Requests.{
  Request, create, start, complete, publish, delete, cancel, perform, serve,
}
use foodo.Inventory.Runs.Phase.{
  Operation, creates, starts, completes, publishes, deletes, cancels, phase, AtMostOneStep,
}
use foodo.Inventory.Runs.Phase.Change.{
  IsFresh, IsOrderly, Change-step, Change-IsFresh, Change-IsOrderly,
}
use foodo.Inventory.Runs.Phase.Sound.{IsSound, IsUndone, Ends, At}
use foodo.Inventory.Runs.Phase.Serve.{IsReady, complete_run-At, delete_run-At}
use foodo.Inventory.Runs.Phase.Create.{create_run-At}
use foodo.Inventory.Runs.Phase.Stock.{start_run-At}
use foodo.Inventory.Runs.Phase.Stop.{cancel_run-At}
use foodo.Inventory.Runs.Phase.Release.{publish_run-At}

-- The operation of a request.
unfoldable pub operation_of : Request → Operation
operation_of (create a body) = creates
operation_of (start i a body) = starts
operation_of (complete i q w) = completes
operation_of (publish i a) = publishes
operation_of (delete i) = deletes
operation_of (cancel i w a) = cancels

-- Nothing waits for a commit, the next identifiers are free, and only completed runs are published.
pub record IsValid (k : Kitchen) : Type 0 where
  pub clean : IsClean k
  pub fresh : IsFresh k.book.runs k.next_id
  pub orderly : IsOrderly k.book.runs

ready : (k : Kitchen) → IsValid k → IsReady k
ready k v = record { clean = v.clean; orderly = v.orderly }

-- The result that is dropped does not matter.
without_result :
    {A : Type 0} {o : Operation} (k : Kitchen) (m : Exec Kitchen KitchenError A)
    → At o k m
    → At o k (m >> pure tt)
unfolding or_rollback
without_result {A = A} {o = o} k m h = record { ends = go (m k).0 (m k).1 h.ends }
  where
    go :
        (r : Result KitchenError A) (t : Kitchen)
        → Ends o k (or_rollback (λ z. (r, t)) k)
        → Ends o k (or_rollback ((λ z. (r, t)) >> pure tt) k)
    go (ok a) t s = record { sound = s.sound; undone = λ x h. absurd (cc) }
    go (err e) t s = record { sound = s.sound; undone = λ x h. s.undone e refl }

module _ (uuid_text : ℕ → String) (is_space : Char → Bool) where
  perform-At :
      (now b : ℕ) (r : Request) (k : Kitchen)
      → IsValid k
      → At (operation_of r) k (perform uuid_text is_space now b r)
  unfolding perform operation_of
  perform-At now b (create a body) k v = without_result k _ (create_run-At b a body k v.clean)
  perform-At now b (start i a body) k v =
      without_result k _ (start_run-At uuid_text now b i k (ready k v) a body)
  perform-At now b (complete i q w) k v =
      without_result k _ (complete_run-At is_space now b i k (ready k v) q w)
  perform-At now b (publish i a) k v =
      without_result k _ (publish_run-At uuid_text now b i a k (ready k v))
  perform-At now b (delete i) k v = delete_run-At is_space now b i k (ready k v)
  perform-At now b (cancel i w a) k v =
      without_result k _ (cancel_run-At uuid_text is_space now b i w a k (ready k v))

  serve-IsSound :
      (now b : ℕ) (r : Request) (k : Kitchen)
      → IsValid k
      → IsSound (operation_of r) k (serve uuid_text is_space now b r k)
  unfolding serve
  serve-IsSound now b r k v = (perform-At now b r k v).ends.sound

  -- A request about runs that raises, whichever it is and at whichever step, leaves the tables and the
  -- messages as they were in a valid database: no stock moves, no row is written, and nothing is
  -- published.
  pub serve-IsUndone :
      (now b : ℕ) (r : Request) (k : Kitchen) (x : KitchenError)
      → IsValid k
      → (perform uuid_text is_space now b r k).0 ≡ err x
      → IsUndone k (serve uuid_text is_space now b r k)
  unfolding serve or_rollback
  serve-IsUndone now b r k x v h = (perform-At now b r k v).ends.undone x h

  -- A request about runs keeps a valid database valid: nothing waits for a commit, the next identifiers
  -- are free, and only completed runs are published.
  pub serve-IsValid :
      (now b : ℕ) (r : Request) (k : Kitchen)
      → IsValid k
      → IsValid (serve uuid_text is_space now b r k)
  serve-IsValid now b r k v =
      let s = serve-IsSound now b r k v in
      record {
        clean = s.clean;
        fresh = Change-IsFresh _ _ _ _ _ v.fresh s.change;
        orderly = Change-IsOrderly _ _ _ _ _ v.orderly s.change;
      }

  pub serve-AtMostOneStep :
      (now b : ℕ) (r : Request) (k : Kitchen)
      → IsValid k
      → (i : ℕ)
      → AtMostOneStep
          (operation_of r)
          (phase i k.book.runs)
          (phase i (serve uuid_text is_space now b r k).book.runs)
  serve-AtMostOneStep now b r k v = Change-step _ _ _ _ _ v.fresh (serve-IsSound now b r k v).change

  -- The life of a run through the requests, one after the other: at each of them the run stays in its
  -- phase, or it takes one step, which is one of the operation requested.
  abbrev pub Life : ℕ → List (ℕ × ℕ × Request) → Kitchen → Type 0
  Life i [] k = Unit
  Life i (r ∷ rs) k =
      let t = serve uuid_text is_space r.0 r.1 r.2 k in
      AtMostOneStep (operation_of r.2) (phase i k.book.runs) (phase i t.book.runs) × Life i rs t

  -- From a valid database, whatever is requested about runs, in whatever order and for whatever
  -- business: at each request every run stays in its phase or takes one step, which belongs to the
  -- operation. Creating brings an absent run to planned, starting a planned one to cooking, completing
  -- a cooking one to cooked, publishing a cooked one to published, deleting a planned one to absent,
  -- and cancelling a planned or a cooking one to stopped.
  pub serve_all-Life :
      (rs : List (ℕ × ℕ × Request)) (k : Kitchen) → IsValid k → (i : ℕ) → Life i rs k
  serve_all-Life [] k v i = tt
  serve_all-Life (r ∷ rs) k v i = (
    serve-AtMostOneStep r.0 r.1 r.2 k v i,
    serve_all-Life rs (serve uuid_text is_space r.0 r.1 r.2 k) (serve-IsValid r.0 r.1 r.2 k v) i,
  )
