-- ===== src/Pos/Sync/Batch.antt =====
-- Batches: their results, what they leave alone, and what a second delivery of one does.
use mathlib.Core.Path.{subst}
use text.Mathlib.TextPositions.{eq_refl}
use foodo.Prelude.{
  ℕ, ◌≡◌, ◌≢◌, refl, sym, ap, ◌∙◌, ◌⊎◌, inl, inr, String, Bool, true, false, Option, List, [], ◌∷◌,
  ◌++◌, map, Result, ok,
}
use foodo.Pos.Decimal.{Decimal}
use foodo.Pos.Tax.{Response, DecodeError}
use foodo.Pos.Model.{Sale, Tables}
use foodo.Pos.Delivery.{commit}
use foodo.Pos.Sync.{
  is_known, SyncStatus, SyncResult, created, and_then, end_transaction, sync_sale, sync_sales,
  sync_sale_batch,
}
use foodo.Pos.Sync.Validate.{SaleSyncInput}
use foodo.Pos.Sync.Create.{Till, sale_of, add_sale}
use foodo.Pos.Sync.Outcome.{outcome, known, rejected, added, new_sale, after_sale}
use foodo.Pos.Sync.Clients.{
  UniqueClients, AllCreated, AllKnown, client_id_of, duplicate_of, AllKnown-ids, is_known-++,
  UniqueClients-append, publish_sale_events-rows, status_of-created, and_then-state,
  and_then-AllCreated, end_transaction-sales, end_transaction-AllCreated,
}

module _ (lookup : ℕ → ℕ → ℕ → Option String → Response) (default_rate : Decimal)
    (is_refused : Sale → Tables → Bool) where
  module _ (business_id : ℕ) (actor_id : Option ℕ) (authorization : Option String) where
    module _ (now : ℕ) (i : SaleSyncInput) (t : Till) where
      abbrev turn : Result DecodeError SyncStatus × Till
      turn = sync_sale lookup default_rate is_refused business_id actor_id authorization now i t

      abbrev next : Till
      next = turn.1

      abbrev fresh_sale : Sale
      fresh_sale =
          new_sale lookup default_rate is_refused business_id actor_id authorization now i t

      pub after_sale-sales :
          (after_sale lookup default_rate is_refused business_id actor_id authorization now i
            t).db.sales
          ≡ t.db.sales ++ fresh_sale ∷ []
      unfolding add_sale
      after_sale-sales =
          ap (λ r. r.sales)
            (publish_sale_events-rows fresh_sale.status fresh_sale i
              (add_sale fresh_sale i.line_items t.db))

      -- A sale that is not created, because it is known, because a check or the database refuses it, or
      -- because the look-up of its tax raises, leaves the rows, the commit and the messages as they
      -- were before its turn.
      pub sync_sale_not_created :
          (sync_sale lookup default_rate is_refused business_id actor_id authorization now i t).0
            ≢ ok created
          → (sync_sale lookup default_rate is_refused business_id actor_id authorization now i
              t).1.db
            ≡ t.db
      sync_sale_not_created n =
          elim (outcome lookup default_rate is_refused business_id actor_id authorization now i t) [
            | known old q ↦ ap (λ x. x.1.db) q
            | rejected e cache new q ↦ ap (λ x. x.1.db) q
            | added new valid q ↦ absurd (n (ap (λ x. x.0) q))
          ]

      next-sales :
          (next.db.sales ≡ t.db.sales)
          ⊎ ((next.db.sales ≡ t.db.sales ++ fresh_sale ∷ [])
              × (is_known i.client_sale_id t.db.sales ≡ false))
      next-sales =
          elim (outcome lookup default_rate is_refused business_id actor_id authorization now i t) [
            | known old q ↦ inl (ap (λ x. x.1.db.sales) q)
            | rejected e cache new q ↦ inl (ap (λ x. x.1.db.sales) q)
            | added new valid q ↦ inr (ap (λ x. x.1.db.sales) q ∙ after_sale-sales, new)
          ]

      next-is_known : (c : String) → is_known c t.db.sales ≡ true → is_known c next.db.sales ≡ true
      next-is_known c h = elim next-sales [
        | inl e ↦ ap (is_known c) e ∙ h
        | inr (e, new) ↦ ap (is_known c) e ∙ is_known-++ c t.db.sales (fresh_sale ∷ []) ∙ simp h
      ]

      is_known-fresh_sale : is_known i.client_sale_id (fresh_sale ∷ []) ≡ true
      unfolding is_known sale_of
      is_known-fresh_sale = simp eq_refl

      created-is_known :
          (sync_sale lookup default_rate is_refused business_id actor_id authorization now i t).0
            ≡ ok created
          → is_known i.client_sale_id next.db.sales ≡ true
      created-is_known h =
          elim (outcome lookup default_rate is_refused business_id actor_id authorization now i t) [
            | known old q ↦ next-is_known i.client_sale_id old
            | rejected e cache new q ↦ absurd (status_of-created e (sym (ap (λ x. x.0) q) ∙ h))
            | added new valid q ↦
                ap (λ x. is_known i.client_sale_id x.1.db.sales) q
                ∙ ap (is_known i.client_sale_id) after_sale-sales
                ∙ is_known-++ i.client_sale_id t.db.sales (fresh_sale ∷ [])
                ∙ simp (new, is_known-fresh_sale)
          ]

      next-UniqueClients : UniqueClients t.db.sales → UniqueClients next.db.sales
      unfolding sale_of
      next-UniqueClients u = elim next-sales [
        | inl e ↦ subst UniqueClients (sym e) u
        | inr (e, new) ↦
            subst UniqueClients (sym e) (UniqueClients-append t.db.sales fresh_sale u new)
      ]

    abbrev others :
        List (ℕ × SaleSyncInput)
        → ℕ
        → SaleSyncInput
        → Till
        → Result DecodeError (List SyncResult) × Till
    others is now i t =
        sync_sales lookup default_rate is_refused business_id actor_id authorization is
          (next now i t)

    sync_sales-UniqueClients :
        (batch : List (ℕ × SaleSyncInput)) (t : Till)
        → UniqueClients t.db.sales
        → UniqueClients
            (sync_sales lookup default_rate is_refused business_id actor_id authorization batch
              t).1.db.sales
    unfolding sync_sales
    sync_sales-UniqueClients [] t u = u
    sync_sales-UniqueClients ((now, i) ∷ is) t u =
        let v = next-UniqueClients now i t u in
        and_then-state (λ x. UniqueClients x.db.sales) i (turn now i t) (others is now i t) v
          (sync_sales-UniqueClients is (next now i t) v)

    sync_sales-is_known :
        (batch : List (ℕ × SaleSyncInput)) (t : Till) (c : String)
        → is_known c t.db.sales ≡ true
        → is_known c
            (sync_sales lookup default_rate is_refused business_id actor_id authorization batch
              t).1.db.sales
          ≡ true
    unfolding sync_sales
    sync_sales-is_known [] t c h = h
    sync_sales-is_known ((now, i) ∷ is) t c h =
        let k = next-is_known now i t c h in
        and_then-state (λ x. is_known c x.db.sales ≡ true) i (turn now i t) (others is now i t) k
          (sync_sales-is_known is (next now i t) c k)

    pub sync_sales-AllKnown :
        (batch : List (ℕ × SaleSyncInput)) (t : Till)
        → AllCreated
            (sync_sales lookup default_rate is_refused business_id actor_id authorization batch t).0
        → AllKnown batch
            (sync_sales lookup default_rate is_refused business_id actor_id authorization batch
              t).1.db.sales
    unfolding sync_sales
    sync_sales-AllKnown [] t h = tt
    sync_sales-AllKnown ((now, i) ∷ is) t h =
        let p = and_then-AllCreated i (turn now i t) (others is now i t) h in
        subst (λ x. AllKnown ((now, i) ∷ is) x.db.sales) (sym p.2)
          (
            sync_sales-is_known is (next now i t) i.client_sale_id (created-is_known now i t p.0),
            sync_sales-AllKnown is (next now i t) p.1,
          )

    pub sync_sales-duplicate :
        (batch : List (ℕ × SaleSyncInput)) (t : Till)
        → AllKnown batch t.db.sales
        → sync_sales lookup default_rate is_refused business_id actor_id authorization batch t
          ≡ (ok (map duplicate_of batch), t)
    unfolding sync_sales sync_sale and_then
    sync_sales-duplicate [] t h = refl
    sync_sales-duplicate ((now, i) ∷ is) t h = rw (h.0, sync_sales-duplicate is t h.1) refl

    -- No batch makes two sales with one client id.
    pub sync_sale_batch-UniqueClients :
        (batch : List (ℕ × SaleSyncInput)) (t : Till)
        → UniqueClients t.db.sales
        → UniqueClients
            (sync_sale_batch lookup default_rate is_refused business_id actor_id authorization batch
              t).1.db.sales
    unfolding sync_sale_batch
    sync_sale_batch-UniqueClients batch t u =
        end_transaction-sales UniqueClients t
          (sync_sales lookup default_rate is_refused business_id actor_id authorization batch t) u
          (sync_sales-UniqueClients batch t u)

  -- A batch of which every sale was created can be sent again, at other times and by anyone: every
  -- sale is reported as a duplicate and nothing changes.
  pub resync_changes_nothing :
      (business_id business_id' : ℕ) (actor_id actor_id' : Option ℕ)
      (authorization authorization' : Option String) (batch batch' : List (ℕ × SaleSyncInput))
      (t : Till)
      → map client_id_of batch' ≡ map client_id_of batch
      → AllCreated
          (sync_sale_batch lookup default_rate is_refused business_id actor_id authorization batch
            t).0
      → let t' =
          (sync_sale_batch lookup default_rate is_refused business_id actor_id authorization batch
            t).1 in
        sync_sale_batch lookup default_rate is_refused business_id' actor_id' authorization' batch'
          t'
        ≡ (ok (map duplicate_of batch'), t')
  unfolding sync_sale_batch end_transaction
  resync_changes_nothing b b' a a' z z' batch batch' t same h =
      let p = sync_sales lookup default_rate is_refused b a z batch t in
      let done = end_transaction-AllCreated t p h in
      let t' = record p.1 { db = commit p.1.db } in
      let again =
        sync_sales-duplicate b' a' z' batch' t'
          (AllKnown-ids batch batch' t'.db.sales same (sync_sales-AllKnown b a z batch t done.0)) in
      subst
        (λ x.
          sync_sale_batch lookup default_rate is_refused b' a' z' batch' x
          ≡ (ok (map duplicate_of batch'), x))
        (sym done.1) (ap (end_transaction t') again)
