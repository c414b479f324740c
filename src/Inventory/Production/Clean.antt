-- ===== src/Inventory/Production/Clean.antt =====
-- What a rollback brings back.
use foodo.Prelude.{◌≡◌, refl, sym, List}
use foodo.Inventory.Model.{Session}
use foodo.Inventory.Movement.{Move}
use foodo.Inventory.Legs.{perform_legs}
use foodo.Inventory.Legs.Effect.{AllQuiet}
use foodo.Inventory.Legs.Run.{perform_legs-keeps}
use foodo.Inventory.Production.{Kitchen, rollback}

-- Nothing that was written waits for a commit.
pub record IsClean (k : Kitchen) : Type 0 where
  pub stock : k.stock.rows ≡ k.stock.committed
  pub book : k.book ≡ k.committed_book

pub rollback-clean :
    (k : Kitchen) (s : Session)
    → IsClean k
    → s.committed ≡ k.stock.committed
    → s.outbox ≡ k.stock.outbox
    → rollback (record k { stock = s }) ≡ k
unfolding rollback
rollback-clean k s c p q = rw (p, q, sym c.stock, sym c.book) refl

pub rollback-legs :
    (k : Kitchen) (ms : List Move)
    → IsClean k
    → AllQuiet ms
    → rollback (record k { stock = (perform_legs ms k.stock).1 }) ≡ k
rollback-legs k ms c q =
    let keep = perform_legs-keeps ms k.stock q in
    rollback-clean k (perform_legs ms k.stock).1 c keep.0 keep.1
