-- ===== src/Pos/Sync/Outcome.antt =====
-- The ways in which the turn of one sale can end.
use foodo.Prelude.{
  ℕ, ◌≡◌, refl, inl, inr, String, Bool, true, false, Option, List, Result, ok, err, Bool-cases,
}
use foodo.Pos.Decimal.{Decimal, decimal_zero}
use foodo.Pos.Tax.{Response, DecodeError, CacheEntry, get_store_tax}
use foodo.Pos.Model.{Sale, Tables}
use foodo.Pos.Sync.{
  is_known, SyncStatus, created, duplicate, status_of, publish_sale_events, leave_savepoint,
  sync_sale,
}
use foodo.Pos.Sync.Validate.{SaleSyncInput, validate_sale}
use foodo.Pos.Sync.Checks.{validate_sale-cases}
use foodo.Pos.Sync.Create.{
  Till, SyncError, invalid, integrity, undecodable, sale_of, add_sale, tax_rate_of, create_sale,
}

-- The rate of an answer.
abbrev rate_in : Result DecodeError (Bool × Decimal) → Decimal
rate_in (ok p) = p.1
rate_in (err e) = decimal_zero

module _ (lookup : ℕ → ℕ → ℕ → Option String → Response) (default_rate : Decimal)
    (is_refused : Sale → Tables → Bool) where
  module _ (business_id : ℕ) (actor_id : Option ℕ) (authorization : Option String) (now : ℕ)
      (i : SaleSyncInput) (t : Till) where
    abbrev turn : Result DecodeError SyncStatus × Till
    turn = sync_sale lookup default_rate is_refused business_id actor_id authorization now i t

    abbrev looked_up : Result DecodeError (Bool × Decimal) × List CacheEntry
    looked_up =
        get_store_tax lookup default_rate now business_id i.store_id authorization t.tax_cache

    abbrev pub new_sale : Sale
    new_sale = sale_of t.db.next_id business_id actor_id now (rate_in looked_up.0) i

    abbrev pub after_sale : Till
    after_sale = record {
      db = publish_sale_events new_sale.status new_sale i (add_sale new_sale i.line_items t.db);
      tax_cache = looked_up.1;
    }

    pub data Outcome : Type 0 where
      known : is_known i.client_sale_id t.db.sales ≡ true → turn ≡ (ok duplicate, t) → Outcome
      rejected :
          (e : SyncError) (cache : List CacheEntry)
          → is_known i.client_sale_id t.db.sales ≡ false
          → turn ≡ (status_of e, record t { tax_cache = cache })
          → Outcome
      added :
          is_known i.client_sale_id t.db.sales ≡ false
          → validate_sale business_id i t.db ≡ (ok tt, t.db)
          → turn ≡ (ok created, after_sale)
          → Outcome

    Outcome-valid :
        is_known i.client_sale_id t.db.sales ≡ false
        → validate_sale business_id i t.db ≡ (ok tt, t.db)
        → (r : Result DecodeError (Bool × Decimal)) → looked_up.0 ≡ r
        → Outcome
    unfolding sync_sale create_sale leave_savepoint tax_rate_of
    Outcome-valid new v (err x) q = rejected (undecodable x) looked_up.1 new (rw (new, v, q) refl)
    Outcome-valid new v (ok p) q =
        elim (Bool-cases
          (is_refused (sale_of t.db.next_id business_id actor_id now p.1 i) t.db.rows)) [
            | inl bad ↦ rejected integrity looked_up.1 new (rw (new, v, q, bad) refl)
            | inr fine ↦ added new v (rw (new, v, q, fine) refl)
          ]

    pub outcome : Outcome
    unfolding sync_sale create_sale leave_savepoint
    outcome = elim (Bool-cases (is_known i.client_sale_id t.db.sales)) [
      | inl old ↦ known old (rw old refl)
      | inr new ↦ elim (validate_sale-cases i business_id t.db) [
        | inl v ↦ Outcome-valid new v looked_up.0 refl
        | inr (e, v) ↦ rejected (invalid e) t.tax_cache new (rw (new, v) refl)
      ]
    ]
