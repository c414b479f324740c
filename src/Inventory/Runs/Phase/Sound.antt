-- ===== src/Inventory/Runs/Phase/Sound.antt =====
-- How a change of the table of runs passes through a method.
use mathlib.Core.Path.{subst}
use foodo.Prelude.{
  List, ◌≤◌, ◌≡◌, refl, sym, ap, ◌∙◌, Result, ok, err, Exec, continue, ◌>>=◌, arith,
}
use foodo.Inventory.Model.{Session}
use foodo.Inventory.Rules.{MoveError}
use foodo.Inventory.Movement.{Move}
use foodo.Inventory.Legs.{perform_legs}
use foodo.Inventory.Legs.Effect.{AllQuiet}
use foodo.Inventory.Legs.Run.{perform_legs-keeps}
use foodo.Inventory.Production.{Kitchen, KitchenError, or_rollback, rollback}
use foodo.Inventory.Production.Clean.{IsClean}
use foodo.Inventory.Runs.Reads.{Reads}
use foodo.Inventory.Runs.Phase.{Operation}
use foodo.Inventory.Runs.Phase.Change.{Change, kept}

-- One change of the table, and nothing that waits for a commit.
pub record IsSound (o : Operation) (k t : Kitchen) : Type 0 where
  pub change : Change o k.book.runs t.book.runs k.next_id t.next_id
  pub clean : IsClean t

-- The tables and the messages are those from before.
pub record IsUndone (k t : Kitchen) : Type 0 where
  pub rows : t.stock.rows ≡ k.stock.rows
  pub outbox : t.stock.outbox ≡ k.stock.outbox
  pub book : t.book ≡ k.book
  pub notices : t.notices ≡ k.notices

pub record Ends {A : Type 0} (o : Operation) (k : Kitchen) (p : Result KitchenError A × Kitchen)
    : Type 0 where
  pub sound : IsSound o k p.1
  pub undone : (x : KitchenError) → p.0 ≡ err x → IsUndone k p.1

-- The method, with the rollback that follows when it raises.
pub record At {A : Type 0} (o : Operation) (k : Kitchen) (m : Exec Kitchen KitchenError A)
    : Type 0 where
  pub ends : Ends o k (or_rollback m k)

pub unchanged : {o : Operation} (k : Kitchen) → IsClean k → IsSound o k k
unchanged k c = record { change = kept refl (omega arith); clean = c }

-- What a rollback goes back to is as before, and nothing was published.
pub record IsRetained (k t : Kitchen) : Type 0 where
  pub book : t.committed_book ≡ k.committed_book
  pub stock : t.stock.committed ≡ k.stock.committed
  pub outbox : t.stock.outbox ≡ k.stock.outbox
  pub notices : t.notices ≡ k.notices
  pub next_id : k.next_id ≤ t.next_id

pub retained : (k : Kitchen) → IsRetained k k
retained k = record {
  book = refl;
  stock = refl;
  outbox = refl;
  notices = refl;
  next_id = omega arith;
}

-- Movements of a transaction that is rolled back.
pub IsRetained-legs :
    (k t : Kitchen) (ms : List Move) (r : Result MoveError (Unit {0})) (s : Session)
    → IsRetained k t
    → AllQuiet ms
    → perform_legs ms k.stock ≡ (r, s)
    → IsRetained k (rollback (record t { stock = s }))
unfolding rollback
IsRetained-legs k t ms r s w q e =
    let keep = perform_legs-keeps ms k.stock q in
    record {
      book = w.book;
      stock = ap (λ z. z.1.committed) (sym e) ∙ keep.0;
      outbox = ap (λ z. z.1.outbox) (sym e) ∙ keep.1;
      notices = w.notices;
      next_id = w.next_id;
    }

rolled_back :
    {A : Type 0} {o : Operation} (k t : Kitchen) (x : KitchenError)
    → IsClean k
    → IsRetained k t
    → Ends {A = A} o k (err x, rollback t)
unfolding rollback
rolled_back k t x c w = record {
  sound = record {
    change = kept (ap (λ b. b.runs) (w.book ∙ sym c.book)) w.next_id;
    clean = record { stock = refl; book = refl };
  };
  undone = λ y h. record {
    rows = w.stock ∙ sym c.stock;
    outbox = w.outbox;
    book = w.book ∙ sym c.book;
    notices = w.notices;
  };
}

settled : {A : Type 0} {o : Operation} (k t : Kitchen) (a : A) → IsSound o k t → Ends o k (ok a, t)
settled k t a s = record { sound = s; undone = λ x h. absurd (cc) }

pub raised :
    {A : Type 0} {o : Operation} (k : Kitchen) (m : Exec Kitchen KitchenError A) (x : KitchenError)
    (t : Kitchen)
    → IsClean k
    → m k ≡ (err x, t)
    → IsRetained k t
    → At o k m
unfolding or_rollback
raised k m x t c h w = record { ends = rw h (rolled_back k t x c w) }

pub returned :
    {A : Type 0} {o : Operation} (k : Kitchen) (m : Exec Kitchen KitchenError A) (a : A)
    (t : Kitchen)
    → m k ≡ (ok a, t)
    → IsSound o k t
    → At o k m
unfolding or_rollback
returned k m a t h s = record { ends = rw h (settled k t a s) }

read_continue :
    {A B : Type 0} {o : Operation} (k t : Kitchen) (r : Result KitchenError A)
    (f : A → Exec Kitchen KitchenError B)
    → IsClean k
    → t ≡ k
    → ((a : A) → r ≡ ok a → At o k (f a))
    → At o k (λ z. continue r f t)
unfolding or_rollback
read_continue {o = o} k t (ok a) f c e l = record {
  ends = subst (λ z. Ends o k (or_rollback (f a) z)) (sym e) (l a refl).ends;
}
read_continue {B = B} {o = o} k t (err x) f c e l = record {
  ends =
      subst (λ z. Ends {A = B} o k (err x, rollback z)) (sym e) (rolled_back k k x c (retained k));
}

-- A step that only reads, and what follows.
pub read :
    {A B : Type 0} {o : Operation} (k : Kitchen) (m : Exec Kitchen KitchenError A)
    (f : A → Exec Kitchen KitchenError B)
    → IsClean k
    → (m k).1 ≡ k
    → ((a : A) → (m k).0 ≡ ok a → At o k (f a))
    → At o k (m >>= f)
unfolding or_rollback
read k m f c h l = record { ends = (read_continue k (m k).1 (m k).0 f c h l).ends }

reads_settled :
    {A : Type 0} {o : Operation} (k t : Kitchen) (r : Result KitchenError A)
    → IsClean k
    → t ≡ k
    → At o k (λ z. (r, t))
unfolding or_rollback
reads_settled {o = o} k t (ok a) c e = record {
  ends = subst (λ z. Ends o k (ok a, z)) (sym e) (settled k k a (unchanged k c));
}
reads_settled {A = A} {o = o} k t (err x) c e = record {
  ends =
      subst (λ z. Ends {A = A} o k (err x, rollback z)) (sym e) (rolled_back k k x c (retained k));
}

-- A method that only reads.
pub Reads-At :
    {A : Type 0} {o : Operation} (k : Kitchen) (m : Exec Kitchen KitchenError A)
    → IsClean k
    → Reads m
    → At o k m
unfolding or_rollback
Reads-At k m c h = record { ends = (reads_settled k (m k).1 (m k).0 c (h.same k)).ends }
