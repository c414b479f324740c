-- ===== src/Pos/Sync/Sound.antt =====
-- What the checks guarantee of the sales that a batch creates.
use mathlib.Core.Path.{subst}
use foodo.Prelude.{
  ℕ, ◌≡◌, ◌≢◌, refl, sym, ap, ◌∙◌, ◌⊎◌, inl, inr, String, Bool, true, false, not, Option, none,
  some, List, [], ◌∷◌, ◌++◌, Result, ok, err, Exec, continue, ◌>>◌, raise_if, is_some,
}
use foodo.Pos.Decimal.{Decimal, quantize}
use foodo.Pos.Tax.{Response}
use foodo.Pos.Model.{
  Sale, Tables, Session, PosError, OrderType, dine_in, takeaway, delivery, SaleStatus, completed,
  voided, refunded, reason_required, address_required, courier_not_allowed, address_not_allowed,
  phone_not_allowed, note_not_allowed, fee_not_allowed,
}
use foodo.Pos.Delivery.Rows.{All}
use foodo.Pos.Sync.Validate.{
  SaleSyncInput, is_filled, is_nonzero, needs_reason, validate_customer, validate_no_delivery,
  validate_delivery, validate_sale,
}
use foodo.Pos.Sync.{sync_sale, sync_sales, sync_sale_batch}
use foodo.Pos.Sync.Checks.{validate_customer-Keeps}
use foodo.Pos.Sync.Outcome.{outcome, known, rejected, added, new_sale}
use foodo.Pos.Sync.Batch.{after_sale-sales}
use foodo.Pos.Sync.Clients.{and_then-state, end_transaction-sales}
use foodo.Pos.Sync.Create.{Till, sale_of, first_delivery_status, reason_of}

-- A sale that is no delivery has nothing of a delivery.
abbrev pub IsServed : Sale → Type 0
IsServed v =
    (v.courier_id ≡ none)
    × (v.delivery_address_line1 ≡ none)
    × (v.delivery_recipient_phone ≡ none)
    × (v.delivery_note ≡ none)
    × (is_nonzero v.delivery_fee ≡ false)
    × (v.delivery_status ≡ none)

abbrev pub IsShipped : Sale → Type 0
IsShipped v = (is_filled v.delivery_address_line1 ≡ true) × (v.delivery_status ≢ none)

abbrev pub IsFitting : OrderType → Sale → Type 0
IsFitting delivery v = IsShipped v
IsFitting dine_in v = IsServed v
IsFitting takeaway v = IsServed v

-- The fields of a delivery stand on deliveries only, and a voided or refunded sale has a reason.
abbrev pub IsSound : Sale → Type 0
IsSound v =
    IsFitting v.order_type v × ((v.status ≡ completed) ⊎ (is_filled v.void_or_refund_reason ≡ true))

module _ {B : Type 0} where
  -- A chain that ends well has passed its first test.
  raise_if-passed :
      (b : Bool) (e : PosError) (m : Exec Session PosError B) (s s' : Session) (x : B)
      → (raise_if b e >> m) s ≡ (ok x, s')
      → (b ≡ false) × (m s ≡ (ok x, s'))
  raise_if-passed true e m s s' x h = absurd (cc)
  raise_if-passed false e m s s' x h = (refl, h)

raise_if-last :
    (b : Bool) (e : PosError) (s s' : Session) → raise_if b e s ≡ (ok tt, s') → b ≡ false
raise_if-last true e s s' h = absurd (cc)
raise_if-last false e s s' h = refl

not-false : (b : Bool) → not b ≡ false → b ≡ true
not-false true h = refl
not-false false h = absurd (cc)

-- Only a corrected sale has a reason, which is the one that was checked.
is_filled-reason_of :
    (d : SaleStatus) (r : Option String)
    → needs_reason d r ≡ false
    → (d ≡ completed) ⊎ (is_filled (reason_of d r) ≡ true)
unfolding needs_reason reason_of
is_filled-reason_of completed r h = inl refl
is_filled-reason_of voided r h = inr (not-false (is_filled r) h)
is_filled-reason_of refunded r h = inr (not-false (is_filled r) h)

is_some-none : {A : Type 0} (o : Option A) → is_some o ≡ false → o ≡ none
is_some-none none h = refl
is_some-none (some a) h = absurd (cc)

chain-passed :
    {A B : Type 0} (r : Result PosError A) (k : A → Exec Session PosError B) (s s' : Session)
    (x : B)
    → continue r k s ≡ (ok x, s')
    → (a : A) × (k a s ≡ (ok x, s'))
chain-passed (ok a) k s s' x h = (a, h)
chain-passed (err e) k s s' x h = absurd (cc)

module _ (i : SaleSyncInput) (s : Session) where
  validate_no_delivery-passed :
      validate_no_delivery i s ≡ (ok tt, s)
      → (i.courier_id ≡ none)
        × (i.delivery_address_line1 ≡ none)
        × (i.delivery_recipient_phone ≡ none)
        × (i.delivery_note ≡ none)
        × (is_nonzero (quantize 2 i.delivery_fee) ≡ false)
  unfolding validate_no_delivery
  validate_no_delivery-passed h =
      let p = raise_if-passed (is_some i.courier_id) courier_not_allowed _ s s tt h in
      let q = raise_if-passed (is_some i.delivery_address_line1) address_not_allowed _ s s tt p.1 in
      let r = raise_if-passed (is_some i.delivery_recipient_phone) phone_not_allowed _ s s tt q.1 in
      let n = raise_if-passed (is_some i.delivery_note) note_not_allowed _ s s tt r.1 in
      let f = raise_if-last (is_nonzero (quantize 2 i.delivery_fee)) fee_not_allowed s s n.1 in
      (
        is_some-none i.courier_id p.0,
        is_some-none i.delivery_address_line1 q.0,
        is_some-none i.delivery_recipient_phone r.0,
        is_some-none i.delivery_note n.0,
        f,
      )

  -- The row that has these fields of the input.
  module _ (b : ℕ) (v : Sale) (e1 : v.courier_id ≡ i.courier_id)
      (e2 : v.delivery_address_line1 ≡ i.delivery_address_line1)
      (e3 : v.delivery_recipient_phone ≡ i.delivery_recipient_phone)
      (e4 : v.delivery_note ≡ i.delivery_note)
      (e5 : v.delivery_fee ≡ quantize 2 i.delivery_fee) where
    served : v.delivery_status ≡ none → validate_no_delivery i s ≡ (ok tt, s) → IsServed v
    served d h =
        let p = validate_no_delivery-passed h in
        (e1 ∙ p.0, e2 ∙ p.1, e3 ∙ p.2, e4 ∙ p.3, ap is_nonzero e5 ∙ p.4, d)

    fitting :
        (o : OrderType)
        → v.delivery_status ≡ first_delivery_status o
        → validate_delivery b o i s ≡ (ok tt, s)
        → IsFitting o v
    unfolding validate_delivery first_delivery_status
    fitting delivery d h =
        let p =
          raise_if-passed (not (is_filled i.delivery_address_line1)) address_required _ s s tt h in
        (ap is_filled e2 ∙ not-false (is_filled i.delivery_address_line1) p.0, λ n. absurd (cc))
    fitting dine_in d h = served d h
    fitting takeaway d h = served d h

  new_sale-IsSound :
      (b id : ℕ) (actor : Option ℕ) (now : ℕ) (rate : Decimal)
      → validate_sale b i s ≡ (ok tt, s)
      → IsSound (sale_of id b actor now rate i)
  unfolding validate_sale sale_of
  new_sale-IsSound b id actor now rate h =
      let p =
        raise_if-passed (needs_reason i.status i.void_or_refund_reason) reason_required _ s s tt
          h in
      let q =
        chain-passed (validate_customer b i.customer_id s).0
          (λ _. validate_delivery b i.order_type i) (validate_customer b i.customer_id s).1 s tt
          p.1 in
      let r =
        subst (λ x. validate_delivery b i.order_type i x ≡ (ok tt, s))
          (validate_customer-Keeps b i.customer_id s) q.1 in
      (
        fitting b (sale_of id b actor now rate i) refl refl refl refl refl i.order_type refl r,
        is_filled-reason_of i.status i.void_or_refund_reason p.0,
      )

All-append : (P : Sale → Type 0) (xs : List Sale) (v : Sale) → All P xs → P v → All P (xs ++ v ∷ [])
All-append P [] v h p = (p, tt)
All-append P (x ∷ xs) v h p = (h.0, All-append P xs v h.1 p)

module _ (lookup : ℕ → ℕ → ℕ → Option String → Response) (default_rate : Decimal)
    (is_refused : Sale → Tables → Bool) where
  module _ (business_id : ℕ) (actor_id : Option ℕ) (authorization : Option String) where
    sync_sale-IsSound :
        (now : ℕ) (i : SaleSyncInput) (t : Till)
        → All IsSound t.db.sales
        → All IsSound
            (sync_sale lookup default_rate is_refused business_id actor_id authorization now i
              t).1.db.sales
    sync_sale-IsSound now i t h =
        elim (outcome lookup default_rate is_refused business_id actor_id authorization now i t) [
          | known old q ↦ subst (λ x. All IsSound x.1.db.sales) (sym q) h
          | rejected e cache new q ↦ subst (λ x. All IsSound x.1.db.sales) (sym q) h
          | added new valid q ↦
              let v =
                new_sale lookup default_rate is_refused business_id actor_id authorization now i
                  t in
              subst (λ x. All IsSound x.1.db.sales) (sym q)
                (subst (All IsSound)
                  (sym (
                    after_sale-sales lookup default_rate is_refused business_id actor_id
                      authorization now i t))
                  (All-append IsSound t.db.sales v h
                    (new_sale-IsSound i t.db business_id t.db.next_id actor_id now _ valid)))
        ]

    sync_sales-IsSound :
        (batch : List (ℕ × SaleSyncInput)) (t : Till)
        → All IsSound t.db.sales
        → All IsSound
            (sync_sales lookup default_rate is_refused business_id actor_id authorization batch
              t).1.db.sales
    unfolding sync_sales
    sync_sales-IsSound [] t h = h
    sync_sales-IsSound ((now, i) ∷ is) t h =
        let p =
          sync_sale lookup default_rate is_refused business_id actor_id authorization now i t in
        let v = sync_sale-IsSound now i t h in
        and_then-state (λ x. All IsSound x.db.sales) i p
          (sync_sales lookup default_rate is_refused business_id actor_id authorization is p.1) v
          (sync_sales-IsSound is p.1 v)

    -- If every sale of the table is sound then so it is after any batch: a sale that is no delivery has no
    -- courier, address, phone, note, fee or delivery status, a delivery has an address and a delivery
    -- status, and a sale that is voided or refunded has a reason.
    pub sync_sale_batch-IsSound :
        (batch : List (ℕ × SaleSyncInput)) (t : Till)
        → All IsSound t.db.sales
        → All IsSound
            (sync_sale_batch lookup default_rate is_refused business_id actor_id authorization batch
              t).1.db.sales
    unfolding sync_sale_batch
    sync_sale_batch-IsSound batch t h =
        end_transaction-sales (All IsSound) t
          (sync_sales lookup default_rate is_refused business_id actor_id authorization batch t) h
          (sync_sales-IsSound batch t h)
