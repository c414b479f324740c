-- ===== src/Pos/Sync.antt =====
-- `sync_sale_batch` of services/pos-service/app/services/sale_service.py with the helpers that it calls,
-- and the inputs of services/pos-service/app/schemas/sales.py and line_items.py.
pub mod Validate
pub mod Create
pub mod Checks
pub mod Outcome
pub mod Clients
pub mod Batch
pub mod Sound
pub mod Whole
mod Examples
use text.Mathlib.Text.{◌==◌ as str_eq}
use foodo.Prelude.{
  ℕ, String, Bool, true, false, ◌||◌, Option, none, some, List, [], ◌∷◌, if◌then◌else◌, Exec,
  Result, ok, err,
}
use foodo.Pos.Tax.{Response, DecodeError}
use foodo.Pos.Decimal.{Decimal}
use foodo.Pos.Model.{
  Sale, SaleStatus, completed, voided, refunded, Tables, Session, PosError, sale_completed,
}
use foodo.Pos.Delivery.{publish, commit}
use Validate.{SaleLineItemInput, SaleSyncInput}
use Create.{Till, SyncError, invalid, integrity, undecodable, create_sale}

pub data SyncStatus : Type 0 where
  created duplicate : SyncStatus
  failed : PosError → SyncStatus

pub record SyncResult : Type 0 where
  pub client_sale_id : String
  pub status : SyncStatus

-- The select by `Sale.client_sale_id`, over every business.
unfoldable pub is_known : String → List Sale → Bool
is_known c [] = false
is_known c (x ∷ xs) = str_eq x.client_sale_id c || is_known c xs

unfoldable pub sold_lines : List SaleLineItemInput → List (ℕ × Decimal)
sold_lines [] = []
sold_lines (l ∷ ls) = (l.item_id, l.quantity) ∷ sold_lines ls

-- `_publish_sale_events`: only a completed sale is published.
unfoldable pub publish_sale_events : SaleStatus → Sale → SaleSyncInput → Session → Session
unfolding sold_lines
publish_sale_events completed sale i s =
    publish (sale_completed sale.id sale (sold_lines i.line_items)) s
publish_sale_events voided sale i s = s
publish_sale_events refunded sale i s = s

-- The clauses of the `except`, and an exception that they let through.
abbrev pub status_of : SyncError → Result DecodeError SyncStatus
status_of (invalid e) = ok (failed e)
status_of integrity = ok duplicate
status_of (undecodable e) = err e

-- A raise inside the savepoint takes the rows back to those of its start.
unfoldable pub leave_savepoint :
    SaleSyncInput → Session → Result SyncError Sale → Exec Till DecodeError SyncStatus
unfolding publish_sale_events
leave_savepoint i before (ok sale) t =
    (ok created, record t { db = publish_sale_events sale.status sale i t.db })
leave_savepoint i before (err e) t =
    (status_of e, record t { db = record t.db { rows = before.rows } })

-- A turn of the loop before the others, which an exception in it ends.
unfoldable pub and_then :
    SaleSyncInput
    → Result DecodeError SyncStatus × Till
    → Result DecodeError (List SyncResult) × Till
    → Result DecodeError (List SyncResult) × Till
and_then i (ok status, next) (ok rest, last) =
    (ok (record { client_sale_id = i.client_sale_id; status = status } ∷ rest), last)
and_then i (ok status, next) (err e, last) = (err e, last)
and_then i (err e, next) rest = (err e, next)

-- The end of `session.begin()`: it commits, and takes the rows back to those of its start when an
-- exception leaves it.
unfoldable pub end_transaction :
    Till → Result DecodeError (List SyncResult) × Till → Result DecodeError (List SyncResult) × Till
end_transaction before (ok results, last) = (ok results, record last { db = commit last.db })
end_transaction before (err e, last) =
    (err e, record last { db = record last.db { rows = before.db.rows } })

-- The identity service, the rate of the settings, and whether the database refuses the flush of
-- a sale, which another transaction may bring about.
module _ (lookup : ℕ → ℕ → ℕ → Option String → Response) (default_rate : Decimal)
    (is_refused : Sale → Tables → Bool) where
  -- One turn of the loop, at the moment `now`.
  unfoldable pub sync_sale :
      ℕ → Option ℕ → Option String → ℕ → SaleSyncInput → Exec Till DecodeError SyncStatus
  unfolding is_known leave_savepoint create_sale
  sync_sale business_id actor_id authorization now i t =
      if is_known i.client_sale_id t.db.sales
      then (ok duplicate, t)
      else let (r, after) =
          create_sale lookup default_rate is_refused business_id actor_id authorization now i t in
        leave_savepoint i t.db r after

  -- The loop. Each input stands with the moment at which its turn comes.
  unfoldable pub sync_sales :
      ℕ
      → Option ℕ
      → Option String
      → List (ℕ × SaleSyncInput)
      → Exec Till DecodeError (List SyncResult)
  unfolding sync_sale and_then
  sync_sales business_id actor_id authorization [] t = (ok [], t)
  sync_sales business_id actor_id authorization ((now, i) ∷ is) t =
      let turn = sync_sale business_id actor_id authorization now i t in
      let rest = sync_sales business_id actor_id authorization is turn.1 in and_then i turn rest

  unfoldable pub sync_sale_batch :
      ℕ
      → Option ℕ
      → Option String
      → List (ℕ × SaleSyncInput)
      → Exec Till DecodeError (List SyncResult)
  unfolding sync_sales end_transaction
  sync_sale_batch business_id actor_id authorization batch t =
      end_transaction t (sync_sales business_id actor_id authorization batch t)
