-- ===== src/Pos/Couriers/Manage/Phones.antt =====
-- The phones of a business's couriers.
use text.Mathlib.Text.{◌==◌ as str_eq}
use text.Mathlib.TextEquality.{eq_iff}
use text.Mathlib.TextPositions.{eq_refl}
use foodo.Prelude.{
  ℕ, String, ◌≡◌, refl, sym, ap, ◌∙◌, ◌⊎◌, inl, inr, true, false, Option, none, some, List, [], ◌∷◌,
  ◌==◌, ==_iff, ==_refl, arith, Bool-cases, Option-cases,
}
use foodo.Pos.Model.{Courier, Session}
use foodo.Pos.Couriers.Manage.{
  CourierCreate, CourierUpdate, has_phone, is_in_use, is_courier, find_own_courier, courier_of,
  commit_couriers, insert_courier, create_courier, get_courier, sent, set_to, is_clash, is_refused,
  patched, put_courier, update_courier, drop_courier, delete_row, delete_courier,
}

-- No two couriers of a business have one phone.
abbrev pub UniquePhones : List Courier → Type 0
UniquePhones [] = Unit
UniquePhones (c ∷ cs) = (is_in_use c.business_id c.phone cs ≡ false) × UniquePhones cs

has_phone_comm :
    (x y : Courier)
    → has_phone x.business_id x.phone y ≡ true
    → has_phone y.business_id y.phone x ≡ true
unfolding has_phone
has_phone_comm x y h =
    let b : (y.business_id == x.business_id) ≡ true = ground arith in
    let p : str_eq y.phone x.phone ≡ true = ground arith in
    let b' : (x.business_id == y.business_id) ≡ true =
      (==_iff x.business_id y.business_id).1 (sym ((==_iff y.business_id x.business_id).0 b)) in
    let p' : str_eq x.phone y.phone ≡ true =
      (eq_iff x.phone y.phone).1 (sym ((eq_iff y.phone x.phone).0 p)) in
    ground arith

is_in_use-drop :
    (b : ℕ) (p : String) (q i : ℕ) (cs : List Courier)
    → is_in_use b p cs ≡ false
    → is_in_use b p (drop_courier q i cs) ≡ false
unfolding is_in_use drop_courier
is_in_use-drop b p q i [] h = h
is_in_use-drop b p q i (c ∷ cs) h = ground (arith, is_in_use-drop b p q i cs)

UniquePhones-drop :
    (b i : ℕ) (cs : List Courier) → UniquePhones cs → UniquePhones (drop_courier b i cs)
unfolding drop_courier
UniquePhones-drop b i [] u = u
UniquePhones-drop b i (c ∷ cs) u = elim (Bool-cases (is_courier b i c)) [
  | inl e ↦ rw e u.1
  | inr e ↦ rw e (is_in_use-drop c.business_id c.phone b i cs u.0, UniquePhones-drop b i cs u.1)
]

-- Who uses a phone after the row was written.
is_in_use-put :
    (q : ℕ) (p : String) (b i : ℕ) (y : Courier) (cs : List Courier)
    → is_in_use q p cs ≡ false
    → has_phone q p y ≡ false
    → is_in_use q p (put_courier b i y cs) ≡ false
unfolding is_in_use put_courier
is_in_use-put q p b i y [] h k = h
is_in_use-put q p b i y (c ∷ cs) h k = ground (arith, is_in_use-put q p b i y cs)

has_phone_self : (c : Courier) → has_phone c.business_id c.phone c ≡ true
unfolding has_phone
has_phone_self c = rw (==_refl c.business_id, eq_refl c.phone) refl

has_phone_keys :
    (q : ℕ) (p : String) (y : Courier)
    → has_phone q p y ≡ true
    → (y.business_id ≡ q) × (y.phone ≡ p)
unfolding has_phone
has_phone_keys q p y h =
    let a : (y.business_id == q) ≡ true = ground arith in
    let b : str_eq y.phone p ≡ true = ground arith in
    ((==_iff y.business_id q).0 a, (eq_iff y.phone p).0 b)

found_in_use :
    (b i : ℕ) (cs : List Courier) (c : Courier)
    → find_own_courier b i cs ≡ some c
    → is_in_use c.business_id c.phone cs ≡ true
unfolding find_own_courier is_in_use has_phone
found_in_use b i [] c h = absurd (cc)
found_in_use b i (x ∷ xs) c h = elim (Bool-cases (is_courier b i x)) [
  | inl e ↦
      let q : some x ≡ some c = rw e at h in
      let s : x ≡ c = cc in
      let k : has_phone c.business_id c.phone x ≡ true =
        ap (has_phone c.business_id c.phone) s ∙ has_phone_self c in
      ground arith
  | inr e ↦
      let q : find_own_courier b i xs ≡ some c = rw e at h in ground (arith, found_in_use b i xs c)
]

-- The written row takes no phone that an earlier courier has.
no_clash :
    (b i : ℕ) (x y c : Courier) (xs : List Courier)
    → is_in_use x.business_id x.phone xs ≡ false
    → find_own_courier b i xs ≡ some c
    → y.business_id ≡ c.business_id
    → ((y.phone ≡ c.phone) ⊎ (is_in_use c.business_id y.phone (x ∷ xs) ≡ false))
    → has_phone x.business_id x.phone y ≡ false
unfolding is_in_use
no_clash b i x y c xs u f eb (inl ep) = elim (Bool-cases (has_phone x.business_id x.phone y)) [
  | inr h ↦ h
  | inl h ↦
      let k = has_phone_keys x.business_id x.phone y h in
      let g = found_in_use b i xs c f in
      let same : is_in_use x.business_id x.phone xs ≡ is_in_use c.business_id c.phone xs =
        ap (λ z. is_in_use z x.phone xs) (sym k.0 ∙ eb)
        ∙ ap (λ z. is_in_use c.business_id z xs) (sym k.1 ∙ ep) in
      absurd (cc)
]
no_clash b i x y c xs u f eb (inr n) = elim (Bool-cases (has_phone x.business_id x.phone y)) [
  | inr h ↦ h
  | inl h ↦
      let k = has_phone_comm x y h in
      let g : has_phone c.business_id y.phone x ≡ true =
        ap (λ z. has_phone z y.phone x) (sym eb) ∙ k in
      absurd (ground arith)
]

-- The phone is the courier's own, or nobody's.
abbrev IsFree : Courier → String → List Courier → Type 0
IsFree c phone cs = (phone ≡ c.phone) ⊎ (is_in_use c.business_id phone cs ≡ false)

later-IsFree :
    (c x : Courier) (phone : String) (xs : List Courier)
    → IsFree c phone (x ∷ xs)
    → IsFree c phone xs
unfolding is_in_use
later-IsFree c x phone xs (inl e) = inl e
later-IsFree c x phone xs (inr n) = inr (ground arith)

head_free :
    (c y : Courier) (xs : List Courier)
    → y.business_id ≡ c.business_id
    → is_in_use c.business_id c.phone xs ≡ false
    → IsFree c y.phone xs
    → is_in_use y.business_id y.phone xs ≡ false
head_free c y xs eb u (inl e) =
    ap (λ z. is_in_use z y.phone xs) eb ∙ ap (λ z. is_in_use c.business_id z xs) e ∙ u
head_free c y xs eb u (inr n) = ap (λ z. is_in_use z y.phone xs) eb ∙ n

UniquePhones-put :
    (b i : ℕ) (y c : Courier) (cs : List Courier)
    → find_own_courier b i cs ≡ some c
    → y.business_id ≡ c.business_id
    → IsFree c y.phone cs
    → UniquePhones cs
    → UniquePhones (put_courier b i y cs)
unfolding put_courier find_own_courier is_in_use
UniquePhones-put b i y c [] f eb k u = u
UniquePhones-put b i y c (x ∷ xs) f eb k u = elim (Bool-cases (is_courier b i x)) [
  | inl e ↦
      let g : some x ≡ some c = rw e at f in
      let same : x ≡ c = cc in
      let free : is_in_use c.business_id c.phone xs ≡ false =
        ap (λ z. is_in_use z.business_id z.phone xs) (sym same) ∙ u.0 in
      rw e (head_free c y xs eb free (later-IsFree c x y.phone xs k), u.1)
  | inr e ↦
      let g : find_own_courier b i xs ≡ some c = rw e at f in
      rw e (
        is_in_use-put x.business_id x.phone b i y xs u.0 (no_clash b i x y c xs u.0 g eb k),
        UniquePhones-put b i y c xs g eb (later-IsFree c x y.phone xs k) u.1,
      )
]

find_own-business :
    (b i : ℕ) (cs : List Courier) (c : Courier)
    → find_own_courier b i cs ≡ some c
    → c.business_id ≡ b
unfolding find_own_courier is_courier
find_own-business b i [] c h = absurd (cc)
find_own-business b i (x ∷ xs) c h = ground (arith, find_own-business b i xs c)

pub create-UniquePhones :
    (b : ℕ) (actor_id : Option ℕ) (payload : CourierCreate) (s : Session)
    → UniquePhones s.couriers
    → UniquePhones (create_courier b actor_id payload s).1.couriers
unfolding create_courier insert_courier courier_of
create-UniquePhones b actor_id payload s u =
    elim (Bool-cases (is_in_use b payload.phone s.couriers)) [
      | inl e ↦ rw e u
      | inr e ↦ rw e (e, u)
    ]

pub delete-UniquePhones :
    (b i : ℕ) (s : Session)
    → UniquePhones s.couriers
    → UniquePhones (delete_courier b i s).1.couriers
unfolding delete_courier get_courier delete_row
delete-UniquePhones b i s u = elim (Option-cases (find_own_courier b i s.couriers)) [
  | inl e ↦ rw e u
  | inr (c, e) ↦ rw e (UniquePhones-drop b i s.couriers u)
]

set_to-IsFree :
    (b : ℕ) (c : Courier) (patch : CourierUpdate) (cs : List Courier)
    → c.business_id ≡ b
    → is_clash b c (sent patch.phone) cs ≡ false
    → IsFree c (set_to patch.phone c.phone) cs
unfolding is_clash
set_to-IsFree b c patch cs eb h = go patch.phone h
  where
    go :
        (o : Option (Option String))
        → is_clash b c (sent o) cs ≡ false
        → IsFree c (set_to o c.phone) cs
    go none h = inl refl
    go (some none) h = inl refl
    go (some (some p)) h = elim (Bool-cases (str_eq p c.phone)) [
      | inl e ↦ inl ((eq_iff p c.phone).0 e)
      | inr e ↦
          let n : is_in_use b p cs ≡ false = ground arith in inr (ap (λ z. is_in_use z p cs) eb ∙ n)
    ]

same_business :
    (patch : CourierUpdate) (c : Courier) → (patched patch c).business_id ≡ c.business_id
unfolding patched
same_business patch c = refl

patched-IsFree :
    (patch : CourierUpdate) (c : Courier) (b : ℕ) (cs : List Courier)
    → c.business_id ≡ b
    → is_clash b c (sent patch.phone) cs ≡ false
    → IsFree c (patched patch c).phone cs
unfolding patched
patched-IsFree patch c b cs eb h = set_to-IsFree b c patch cs eb h

pub update-UniquePhones :
    (b i : ℕ) (patch : CourierUpdate) (s : Session)
    → UniquePhones s.couriers
    → UniquePhones (update_courier b i patch s).1.couriers
unfolding update_courier get_courier commit_couriers
update-UniquePhones b i patch s u = elim (Option-cases (find_own_courier b i s.couriers)) [
  | inl e ↦ rw e u
  | inr (c, e) ↦ elim (Bool-cases (is_clash b c (sent patch.phone) s.couriers)) [
    | inl k ↦ rw (e, k) u
    | inr k ↦ elim (Bool-cases (is_refused patch)) [
      | inl n ↦ rw (e, k, n) u
      | inr n ↦
          rw (e, k, n)
            (UniquePhones-put b i (patched patch c) c s.couriers e (same_business patch c)
              (patched-IsFree patch c b s.couriers (find_own-business b i s.couriers c e) k) u)
    ]
  ]
]
