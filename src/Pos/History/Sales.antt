-- ===== src/Pos/History/Sales.antt =====
-- A sale over a sequence of requests.
use foodo.Prelude.{
  ℕ, ◌+◌, ◌≤◌, ◌≡◌, ◌≢◌, refl, sym, ap, ◌∙◌, ◌⊎◌, inl, inr, ◌&&◌, ◌==◌, Option, some, List, [], ◌∷◌,
  arith, ok, err, Result, Bool-cases, if◌then◌else◌, ==_iff,
}
use mathlib.Core.Path.{subst}
use foodo.Pos.Model.{Sale, completed, Session, PosError, DeliveryStatus}
use foodo.Pos.Delivery.{find_sale, update_delivery_status}
use foodo.Pos.Delivery.Rows.{
  UniqueIds, UniqueIds-put_sale, find_sale-keys, find_sale-put_sale, find_sale-put_sale_ne,
  find_sale_unique,
}
use foodo.Pos.Delivery.Lifecycle.{remaining, Moves-remaining, update_delivery_status_effect}
use foodo.Pos.History.{
  Request, deliver, undo, perform, run, target, Change, same, moved, corrected, Written, nothing,
  row, perform-Written,
}

find_sale-Written :
    (b i : ℕ) (q : Request) (s t : Session) (v : Sale)
    → UniqueIds s.sales
    → find_sale b i s.sales ≡ some v
    → Written q s t
    → (w : Sale) × (find_sale b i t.sales ≡ some w) × Change v w
find_sale-Written b i q s t v u f (nothing e) = (v, ap (find_sale b i) e ∙ f, same)
find_sale-Written b i q s t v u f (row b' old w f' same_id same_business change e) =
    elim (Bool-cases (target q == i)) [
      | inl here ↦
          let at_i : find_sale b' i s.sales ≡ some old =
            subst (λ j. find_sale b' j s.sales ≡ some old) ((==_iff (target q) i).0 here) f' in
          let is_old : old ≡ v = find_sale_unique b' b i s.sales old v u at_i f in
          let keys = find_sale-keys b i s.sales v f in
          (
            w,
            ap (find_sale b i) e
                ∙ find_sale-put_sale b i s.sales v w u f (same_id ∙ ap (λ x. x.id) is_old ∙ keys.0)
                    (same_business ∙ ap (λ x. x.business_id) is_old ∙ keys.1),
            subst (λ x. Change x w) is_old change,
          )
      | inr other ↦
          let keys = find_sale-keys b' (target q) s.sales old f' in
          (
            v,
            ap (find_sale b i) e
                ∙ find_sale-put_sale_ne b i s.sales w (λ x. ground (arith, sym same_id ∙ x, keys.0))
                ∙ f,
            same,
          )
    ]

others :
    (b i : ℕ) (q : Request) (s t : Session)
    → i ≢ target q
    → Written q s t
    → find_sale b i t.sales ≡ find_sale b i s.sales
others b i q s t ne (nothing e) = ap (find_sale b i) e
others b i q s t ne (row b' old w f same_id same_business change e) =
    let keys = find_sale-keys b' (target q) s.sales old f in
    ap (find_sale b i) e ∙ find_sale-put_sale_ne b i s.sales w (λ x. ne (sym x ∙ same_id ∙ keys.0))

UniqueIds-Written :
    (q : Request) (s t : Session) → UniqueIds s.sales → Written q s t → UniqueIds t.sales
UniqueIds-Written q s t u (nothing e) = subst UniqueIds (sym e) u
UniqueIds-Written q s t u (row b old w f k l c e) =
    subst UniqueIds (sym e) (UniqueIds-put_sale w s.sales u)

abbrev count : Result PosError Sale → ℕ
count (ok v) = 1
count (err e) = 0

-- Is this request a move of the sale, and was it granted?
unfoldable pub moves_made : ℕ → ℕ → Request → Session → ℕ
moves_made b i (deliver b' i' actor d c) s =
    if b' == b && i' == i then count (update_delivery_status b' i' actor d c s).0 else 0
moves_made b i (undo b' i' actor r now) s = 0

-- The number of granted moves of one sale in a sequence of requests.
unfoldable pub moves_in : ℕ → ℕ → List Request → Session → ℕ
moves_in b i [] s = 0
moves_in b i (q ∷ qs) s = moves_made b i q s + moves_in b i qs (perform q s).1

Change-remaining :
    {v w : Sale} → Change v w → remaining w.delivery_status ≤ remaining v.delivery_status
Change-remaining same = omega arith
Change-remaining (moved d e m k l) = let fewer = Moves-remaining m in rw e (omega arith)
Change-remaining (corrected c n k l) = rw k (omega arith)

Change-settled :
    {v w : Sale} → Change v w → (w.total ≡ v.total) × (v.status ≢ completed → w.status ≡ v.status)
Change-settled same = (refl, λ n. refl)
Change-settled (moved d e m k l) = (l, λ n. k)
Change-settled (corrected c n k l) = (l, λ n'. absurd (n' c))

result-cases :
    (o : Result PosError Sale) → ((v : Sale) × (o ≡ ok v)) ⊎ ((e : PosError) × (o ≡ err e))
result-cases (ok v) = inl (v, refl)
result-cases (err e) = inr (e, refl)

some-inj : {v w : Sale} → some v ≡ some w → v ≡ w
some-inj e = ground arith

deliver-remaining :
    (b i : ℕ) (actor : Option ℕ) (d : DeliveryStatus) (c : Option ℕ) (s : Session) (v w : Sale)
    → UniqueIds s.sales
    → find_sale b i s.sales ≡ some v
    → let t = (update_delivery_status b i actor d c s).1 in
      find_sale b i t.sales ≡ some w
      → Change v w
      → count (update_delivery_status b i actor d c s).0 + remaining w.delivery_status
        ≤ remaining v.delivery_status
deliver-remaining b i actor d c s v w u f g change =
    elim (result-cases (update_delivery_status b i actor d c s).0) [
      | inl (x, e) ↦
          let effect = update_delivery_status_effect b i actor d c s x u e in
          let fewer = Moves-remaining effect.0.3 in
          let is_old : effect.0.0 ≡ v = some-inj (sym effect.0.1 ∙ f) in
          let is_new : x ≡ w = some-inj (sym effect.3 ∙ g) in
          let before = ap (λ y. remaining y.delivery_status) is_old in
          let now = sym (ap (λ y. remaining y.delivery_status) is_new) ∙ ap remaining effect.1 in
          rw e (omega arith)
      | inr (x, e) ↦ let fewer = Change-remaining change in rw e (omega arith)
    ]

at_same_keys :
    {b b' i i' : ℕ}
    → b' ≡ b
    → i' ≡ i
    → (xs : List Sale) (y : Sale) → find_sale b i xs ≡ some y
    → find_sale b' i' xs ≡ some y
at_same_keys p q xs y f = rw (p, q) f

moves_made-remaining :
    (b i : ℕ) (q : Request) (s : Session) (v w : Sale)
    → UniqueIds s.sales
    → find_sale b i s.sales ≡ some v
    → find_sale b i (perform q s).1.sales ≡ some w
    → Change v w
    → moves_made b i q s + remaining w.delivery_status ≤ remaining v.delivery_status
unfolding moves_made perform
moves_made-remaining b i (undo b' i' actor r now) s v w u f g change =
    let fewer = Change-remaining change in omega arith
moves_made-remaining b i (deliver b' i' actor d c) s v w u f g change =
    elim (Bool-cases (b' == b && i' == i)) [
      | inl here ↦
          let of_b : b' ≡ b = ground arith in
          let of_i : i' ≡ i = ground arith in
          let h =
            deliver-remaining b' i' actor d c s v w u (at_same_keys of_b of_i s.sales v f)
              (at_same_keys of_b of_i (update_delivery_status b' i' actor d c s).1.sales w g)
              change in
          simp here h
      | inr other ↦ let fewer = Change-remaining change in simp other (omega arith)
    ]

-- A sale that is in the table stays in it, and however the requests to the service go, what is
-- granted of its delivery's moves and what remains of them is no more than what remained at first:
-- at most three moves are ever granted.
pub moves_in-remaining :
    (b i : ℕ) (qs : List Request) (s : Session) (v : Sale)
    → UniqueIds s.sales
    → find_sale b i s.sales ≡ some v
    → (w : Sale) × (find_sale b i (run qs s).sales ≡ some w)
      × (moves_in b i qs s + remaining w.delivery_status ≤ remaining v.delivery_status)
unfolding run moves_in
moves_in-remaining b i [] s v u f = (v, f, omega arith)
moves_in-remaining b i (q ∷ qs) s v u f =
    let step = perform-Written q s in
    let next = find_sale-Written b i q s (perform q s).1 v u f step in
    let rest =
      moves_in-remaining b i qs (perform q s).1 next.0
        (UniqueIds-Written q s (perform q s).1 u step) next.1 in
    let first = moves_made-remaining b i q s v next.0 u f next.1 next.2 in
    let later = rest.2 in (rest.0, rest.1, omega arith)

run-Change-settled :
    (b i : ℕ) (qs : List Request) (s : Session) (v : Sale)
    → UniqueIds s.sales
    → find_sale b i s.sales ≡ some v
    → (w : Sale) × (find_sale b i (run qs s).sales ≡ some w)
      × (w.total ≡ v.total)
      × (v.status ≢ completed → w.status ≡ v.status)
unfolding run
run-Change-settled b i [] s v u f = (v, f, refl, λ n. refl)
run-Change-settled b i (q ∷ qs) s v u f =
    let step = perform-Written q s in
    let next = find_sale-Written b i q s (perform q s).1 v u f step in
    let rest =
      run-Change-settled b i qs (perform q s).1 next.0
        (UniqueIds-Written q s (perform q s).1 u step) next.1 in
    let kept = Change-settled next.2 in
    (rest.0, rest.1, rest.2 ∙ kept.0, λ n. rest.3 (λ e. n (sym (kept.1 n) ∙ e)) ∙ kept.1 n)

-- A sale that was voided or refunded keeps its status and its total through every sequence of
-- requests.
pub run-settled :
    (b i : ℕ) (qs : List Request) (s : Session) (v : Sale)
    → UniqueIds s.sales
    → find_sale b i s.sales ≡ some v
    → v.status ≢ completed
    → (w : Sale) × (find_sale b i (run qs s).sales ≡ some w)
      × (w.total ≡ v.total)
      × (w.status ≡ v.status)
run-settled b i qs s v u f n = let h = run-Change-settled b i qs s v u f in (h.0, h.1, h.2, h.3 n)
