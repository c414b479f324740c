-- ===== src/Pos/Sync/Whole.antt =====
-- A batch is kept as a whole, or not at all.
use foodo.Prelude.{ℕ, ◌≡◌, refl, ap, ◌∙◌, String, Bool, Option, List, [], ◌∷◌, map, Result, ok, err}
use foodo.Pos.Decimal.{Decimal}
use foodo.Pos.Tax.{Response, DecodeError}
use foodo.Pos.Model.{Sale, Session, SaleStatus, completed, voided, refunded, Tables}
use foodo.Pos.Sync.{
  SyncStatus, SyncResult, publish_sale_events, and_then, end_transaction, sync_sale, sync_sales,
  sync_sale_batch,
}
use foodo.Pos.Sync.Validate.{SaleLineItemInput, SaleSyncInput}
use foodo.Pos.Sync.Create.{Till, add_sale}
use foodo.Pos.Sync.Clients.{client_id_of, and_then-state}
use foodo.Pos.Sync.Outcome.{outcome, known, rejected, added}

abbrev result_id : SyncResult → String
result_id r = r.client_sale_id

-- What a batch leaves. At its end there is one result for each sale sent, in the order of the batch,
-- and all rows are committed. If it raises, the rows and the last commit are those from before.
abbrev pub IsWhole :
    List (ℕ × SaleSyncInput) → Till → Result DecodeError (List SyncResult) × Till → Type 0
IsWhole batch t (ok rs, u) =
    (map result_id rs ≡ map client_id_of batch) × (u.db.committed ≡ u.db.rows)
IsWhole batch t (err e, u) = (u.db.rows ≡ t.db.rows) × (u.db.committed ≡ t.db.committed)

abbrev HasIds : List (ℕ × SaleSyncInput) → Result DecodeError (List SyncResult) → Type 0
HasIds batch (ok rs) = map result_id rs ≡ map client_id_of batch
HasIds batch (err e) = Unit

and_then-HasIds :
    (now : ℕ) (i : SaleSyncInput) (is : List (ℕ × SaleSyncInput))
    (a : Result DecodeError SyncStatus × Till) (rest : Result DecodeError (List SyncResult) × Till)
    → HasIds is rest.0
    → HasIds ((now, i) ∷ is) (and_then i a rest).0
unfolding and_then
and_then-HasIds now i is (ok x, next) (ok rs, last) h = ap (λ cs. i.client_sale_id ∷ cs) h
and_then-HasIds now i is (ok x, next) (err e, last) h = tt
and_then-HasIds now i is (err e, next) rest h = tt

committed-publish_sale_events :
    (d : SaleStatus) (v w : Sale) (i : SaleSyncInput) (ls : List SaleLineItemInput) (s : Session)
    → (publish_sale_events d v i (add_sale w ls s)).committed ≡ s.committed
unfolding publish_sale_events add_sale
committed-publish_sale_events completed v w i ls s = refl
committed-publish_sale_events voided v w i ls s = refl
committed-publish_sale_events refunded v w i ls s = refl

end_transaction-IsWhole :
    (batch : List (ℕ × SaleSyncInput)) (t : Till) (p : Result DecodeError (List SyncResult) × Till)
    → HasIds batch p.0
    → p.1.db.committed ≡ t.db.committed
    → IsWhole batch t (end_transaction t p)
unfolding end_transaction
end_transaction-IsWhole batch t (ok rs, last) h c = (h, refl)
end_transaction-IsWhole batch t (err e, last) h c = (refl, c)

module _ (lookup : ℕ → ℕ → ℕ → Option String → Response) (default_rate : Decimal)
    (is_refused : Sale → Tables → Bool) (business_id : ℕ) (actor_id : Option ℕ)
    (authorization : Option String) where
  sync_sale-committed :
      (now : ℕ) (i : SaleSyncInput) (t : Till)
      → (sync_sale lookup default_rate is_refused business_id actor_id authorization now i
          t).1.db.committed
        ≡ t.db.committed
  sync_sale-committed now i t =
      elim (outcome lookup default_rate is_refused business_id actor_id authorization now i t) [
        | known old q ↦ ap (λ x. x.1.db.committed) q
        | rejected e cache new q ↦ ap (λ x. x.1.db.committed) q
        | added new valid q ↦
            ap (λ x. x.1.db.committed) q ∙ committed-publish_sale_events _ _ _ i i.line_items t.db
      ]

  sync_sales-committed :
      (batch : List (ℕ × SaleSyncInput)) (t : Till)
      → (sync_sales lookup default_rate is_refused business_id actor_id authorization batch
          t).1.db.committed
        ≡ t.db.committed
  unfolding sync_sales
  sync_sales-committed [] t = refl
  sync_sales-committed ((now, i) ∷ is) t =
      let p = sync_sale lookup default_rate is_refused business_id actor_id authorization now i t in
      let first = sync_sale-committed now i t in
      and_then-state (λ x. x.db.committed ≡ t.db.committed) i p
        (sync_sales lookup default_rate is_refused business_id actor_id authorization is p.1) first
        (sync_sales-committed is p.1 ∙ first)

  sync_sales-HasIds :
      (batch : List (ℕ × SaleSyncInput)) (t : Till)
      → HasIds batch
          (sync_sales lookup default_rate is_refused business_id actor_id authorization batch t).0
  unfolding sync_sales
  sync_sales-HasIds [] t = refl
  sync_sales-HasIds ((now, i) ∷ is) t =
      let p = sync_sale lookup default_rate is_refused business_id actor_id authorization now i t in
      and_then-HasIds now i is p
        (sync_sales lookup default_rate is_refused business_id actor_id authorization is p.1)
        (sync_sales-HasIds is p.1)

  -- A batch that comes to its end has one result for each sale, in the order in which they were sent,
  -- and has committed all its rows. A batch that an answer of the identity service ends, because it
  -- is no JSON, leaves the rows and the last commit as they were before it: the sales that were
  -- created before the exception are lost with it.
  pub sync_sale_batch-IsWhole :
      (batch : List (ℕ × SaleSyncInput)) (t : Till)
      → IsWhole batch t (
          sync_sale_batch lookup default_rate is_refused business_id actor_id authorization batch t)
  unfolding sync_sale_batch
  sync_sale_batch-IsWhole batch t =
      end_transaction-IsWhole batch t
        (sync_sales lookup default_rate is_refused business_id actor_id authorization batch t)
        (sync_sales-HasIds batch t) (sync_sales-committed batch t)
