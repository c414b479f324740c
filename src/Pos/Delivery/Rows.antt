-- ===== src/Pos/Delivery/Rows.antt =====
-- Reading a sale after a sale was written.
use mathlib.Core.Path.{subst}
use foodo.Prelude.{
  Bool-cases, inl, inr, ==_iff, ℕ, ◌≡◌, ◌≢◌, refl, none, some, List, [], ◌∷◌, arith, ◌==◌,
}
use foodo.Pos.Model.{Sale, Tables}
use foodo.Pos.Delivery.{find_sale, put_sale}

-- A property of every row.
abbrev pub All : (Sale → Type 0) → List Sale → Type 0
All P [] = Unit
All P (x ∷ xs) = P x × All P xs

-- No row has this id.
abbrev pub AbsentId : ℕ → List Sale → Type 0
AbsentId i xs = All (λ x. x.id ≢ i) xs

-- The primary key of the table.
abbrev pub UniqueIds : List Sale → Type 0
UniqueIds [] = Unit
UniqueIds (x ∷ xs) = AbsentId x.id xs × UniqueIds xs

find_sale-AbsentId : (b i : ℕ) (xs : List Sale) → AbsentId i xs → find_sale b i xs ≡ none
unfolding find_sale
find_sale-AbsentId b i [] h = refl
find_sale-AbsentId b i (x ∷ xs) h = ground (arith, find_sale-AbsentId b i xs h.1)

-- What a look-up finds has the id and the business that were asked for.
pub find_sale-keys :
    (b i : ℕ) (xs : List Sale) (v : Sale)
    → find_sale b i xs ≡ some v
    → (v.id ≡ i) × (v.business_id ≡ b)
unfolding find_sale
find_sale-keys b i [] v h = absurd (cc)
find_sale-keys b i (x ∷ xs) v h = ground (arith, find_sale-keys b i xs v)

pub find_sale-put_sale :
    (b i : ℕ) (xs : List Sale) (old v : Sale)
    → UniqueIds xs
    → find_sale b i xs ≡ some old
    → v.id ≡ i
    → v.business_id ≡ b
    → find_sale b i (put_sale v xs) ≡ some v
unfolding find_sale put_sale
find_sale-put_sale b i [] old v u f e k = absurd (cc)
find_sale-put_sale b i (x ∷ xs) old v u f e k =
    ground (arith, find_sale-AbsentId b i xs, find_sale-put_sale b i xs old v u.1)

-- An id has one sale, whatever business asks.
pub find_sale_unique :
    (b b' i : ℕ) (xs : List Sale) (v v' : Sale)
    → UniqueIds xs
    → find_sale b i xs ≡ some v
    → find_sale b' i xs ≡ some v'
    → v ≡ v'
unfolding find_sale
find_sale_unique b b' i [] v v' u f f' = absurd (cc)
find_sale_unique b b' i (x ∷ xs) v v' u f f' = ground (
  arith,
  find_sale-AbsentId b i xs,
  find_sale-AbsentId b' i xs,
  find_sale_unique b b' i xs v v' u.1,
)

-- A write leaves every sale of another id as it is.
pub find_sale-put_sale_ne :
    (b i : ℕ) (xs : List Sale) (v : Sale)
    → v.id ≢ i
    → find_sale b i (put_sale v xs) ≡ find_sale b i xs
unfolding find_sale put_sale
find_sale-put_sale_ne b i [] v ne = refl
find_sale-put_sale_ne b i (x ∷ xs) v ne = ground (arith, find_sale-put_sale_ne b i xs v ne)

AbsentId-put_sale : (v : Sale) (i : ℕ) (xs : List Sale) → AbsentId i xs → AbsentId i (put_sale v xs)
unfolding put_sale
AbsentId-put_sale v i [] h = tt
AbsentId-put_sale v i (x ∷ xs) h = elim (Bool-cases (x.id == v.id)) [
  | inl e ↦ simp e (λ q. h.0 (ground arith), h.1)
  | inr e ↦ simp e (h.0, AbsentId-put_sale v i xs h.1)
]

pub UniqueIds-put_sale : (v : Sale) (xs : List Sale) → UniqueIds xs → UniqueIds (put_sale v xs)
unfolding put_sale
UniqueIds-put_sale v [] u = tt
UniqueIds-put_sale v (x ∷ xs) u = elim (Bool-cases (x.id == v.id)) [
  | inl e ↦ simp e (subst (λ i. AbsentId i xs) ((==_iff x.id v.id).0 e) u.0, u.1)
  | inr e ↦ simp e (AbsentId-put_sale v x.id xs u.0, UniqueIds-put_sale v xs u.1)
]

-- Of the tables, only the sale with this id is another.
pub record IsOnlyAt (i : ℕ) (s t : Tables) : Type 0 where
  pub others : (b j : ℕ) → j ≢ i → find_sale b j t.sales ≡ find_sale b j s.sales
  pub unique : UniqueIds t.sales
  pub tables : t ≡ record s { sales = t.sales }

pub IsOnlyAt-put_sale :
    (i : ℕ) (v : Sale) (s : Tables)
    → UniqueIds s.sales
    → v.id ≡ i
    → IsOnlyAt i s (record s { sales = put_sale v s.sales })
IsOnlyAt-put_sale i v s u e = record {
  others = λ b j ne. find_sale-put_sale_ne b j s.sales v (λ h. ne (cc));
  unique = UniqueIds-put_sale v s.sales u;
  tables = refl;
}
