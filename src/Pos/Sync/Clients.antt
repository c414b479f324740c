-- ===== src/Pos/Sync/Clients.antt =====
-- The client ids of a batch and of the sales in the table.
use text.Mathlib.Text.{◌==◌ as str_eq}
use text.Mathlib.TextEquality.{eq_iff}
use foodo.Prelude.{
  ℕ, ◌≡◌, ◌≢◌, refl, sym, ap, ◌∙◌, inl, inr, String, true, false, ◌||◌, List, [], ◌∷◌, ◌++◌, map,
  arith, Bool-cases, Result, ok, err,
}
use foodo.Pos.Model.{Sale, Session, SaleStatus, completed, voided, refunded}
use foodo.Pos.Sync.{
  is_known, SyncStatus, created, duplicate, SyncResult, status_of, publish_sale_events, and_then,
  end_transaction,
}
use foodo.Pos.Sync.Validate.{SaleSyncInput}
use foodo.Pos.Sync.Create.{Till, SyncError, invalid, integrity, undecodable}
use foodo.Pos.Tax.{DecodeError}
use foodo.Pos.Delivery.{commit}

-- The client ids are the keys of the sales.
abbrev pub UniqueClients : List Sale → Type 0
UniqueClients [] = Unit
UniqueClients (x ∷ xs) = (is_known x.client_sale_id xs ≡ false) × UniqueClients xs

abbrev EachCreated : List SyncResult → Type 0
EachCreated [] = Unit
EachCreated (r ∷ rs) = (r.status ≡ created) × EachCreated rs

-- The batch came to its end, and every sale was created.
abbrev pub AllCreated : Result DecodeError (List SyncResult) → Type 0
AllCreated (ok rs) = EachCreated rs
AllCreated (err e) = ⊥

-- The state behind a turn and the others is one of the two.
pub and_then-state :
    (P : Till → Type 0) (i : SaleSyncInput) (a : Result DecodeError SyncStatus × Till)
    (rest : Result DecodeError (List SyncResult) × Till)
    → P a.1
    → P rest.1
    → P (and_then i a rest).1
unfolding and_then
and_then-state P i (ok x, next) (ok rs, last) h k = k
and_then-state P i (ok x, next) (err e, last) h k = k
and_then-state P i (err e, next) rest h k = h

pub and_then-AllCreated :
    (i : SaleSyncInput) (a : Result DecodeError SyncStatus × Till)
    (rest : Result DecodeError (List SyncResult) × Till)
    → AllCreated (and_then i a rest).0
    → (a.0 ≡ ok created) × AllCreated rest.0 × ((and_then i a rest).1 ≡ rest.1)
unfolding and_then
and_then-AllCreated i (ok x, next) (ok rs, last) h = (ap ok h.0, h.1, refl)
and_then-AllCreated i (ok x, next) (err e, last) h = absurd h
and_then-AllCreated i (err e, next) rest h = absurd h

-- The sales after the transaction are those of the loop, or those from before.
pub end_transaction-sales :
    (P : List Sale → Type 0) (before : Till) (p : Result DecodeError (List SyncResult) × Till)
    → P before.db.sales
    → P p.1.db.sales
    → P (end_transaction before p).1.db.sales
unfolding end_transaction
end_transaction-sales P before (ok rs, last) h k = k
end_transaction-sales P before (err e, last) h k = h

pub end_transaction-AllCreated :
    (before : Till) (p : Result DecodeError (List SyncResult) × Till)
    → AllCreated (end_transaction before p).0
    → AllCreated p.0 × ((end_transaction before p).1 ≡ record p.1 { db = commit p.1.db })
unfolding end_transaction
end_transaction-AllCreated before (ok rs, last) h = (h, refl)
end_transaction-AllCreated before (err e, last) h = absurd h

abbrev pub AllKnown : List (ℕ × SaleSyncInput) → List Sale → Type 0
AllKnown [] xs = Unit
AllKnown ((now, i) ∷ is) xs = (is_known i.client_sale_id xs ≡ true) × AllKnown is xs

abbrev pub client_id_of : ℕ × SaleSyncInput → String
client_id_of (now, i) = i.client_sale_id

abbrev pub duplicate_of : ℕ × SaleSyncInput → SyncResult
duplicate_of (now, i) = record { client_sale_id = i.client_sale_id; status = duplicate }

pub AllKnown-ids :
    (is js : List (ℕ × SaleSyncInput)) (xs : List Sale)
    → map client_id_of js ≡ map client_id_of is
    → AllKnown is xs
    → AllKnown js xs
AllKnown-ids [] [] xs e h = tt
AllKnown-ids [] ((n, j) ∷ js) xs e h = absurd (cc)
AllKnown-ids ((m, i) ∷ is) [] xs e h = absurd (cc)
AllKnown-ids ((m, i) ∷ is) ((n, j) ∷ js) xs e h =
    let first : j.client_sale_id ≡ i.client_sale_id = ground arith in
    let rest : map client_id_of js ≡ map client_id_of is = ground arith in
    (ap (λ c. is_known c xs) first ∙ h.0, AllKnown-ids is js xs rest h.1)

pub is_known-++ :
    (c : String) (xs ys : List Sale) → is_known c (xs ++ ys) ≡ (is_known c xs || is_known c ys)
unfolding is_known
is_known-++ c [] ys = refl
is_known-++ c (x ∷ xs) ys = elim (Bool-cases (str_eq x.client_sale_id c)) [
  | inl e ↦ simp e
  | inr e ↦ simp (e, is_known-++ c xs ys)
]

pub eq_comm_false : (a b : String) → str_eq a b ≡ false → str_eq b a ≡ false
eq_comm_false a b h = elim (Bool-cases (str_eq b a)) [
  | inl e ↦ let same = (eq_iff b a).0 e in let k = (eq_iff a b).1 (sym same) in absurd (cc)
  | inr e ↦ e
]

pub UniqueClients-append :
    (xs : List Sale) (v : Sale)
    → UniqueClients xs
    → is_known v.client_sale_id xs ≡ false
    → UniqueClients (xs ++ v ∷ [])
unfolding is_known
UniqueClients-append [] v u h = (refl, tt)
UniqueClients-append (x ∷ xs) v u h = elim (Bool-cases (str_eq x.client_sale_id v.client_sale_id)) [
  | inl e ↦
      let clash : true ≡ false = sym (ap (λ b. b || is_known v.client_sale_id xs) e) ∙ h in
      absurd (cc)
  | inr e ↦
      let k = eq_comm_false x.client_sale_id v.client_sale_id e in
      (
        is_known-++ x.client_sale_id xs (v ∷ []) ∙ simp (u.0, k),
        UniqueClients-append xs v u.1 (simp e at h),
      )
]

pub publish_sale_events-rows :
    (d : SaleStatus) (v : Sale) (i : SaleSyncInput) (s : Session)
    → (publish_sale_events d v i s).rows ≡ s.rows
unfolding publish_sale_events
publish_sale_events-rows completed v i s = refl
publish_sale_events-rows voided v i s = refl
publish_sale_events-rows refunded v i s = refl

pub status_of-created : (e : SyncError) → status_of e ≢ ok created
status_of-created (invalid e) h = absurd (cc)
status_of-created integrity h = absurd (cc)
status_of-created (undecodable e) h = absurd (cc)
