-- ===== src/Inventory/Runs/Restock/Lines.antt =====
-- What a start writes into the lines of its run.
use mathlib.Core.Path.{subst}
use foodo.Prelude.{
  ℕ, ℤ, ◌≡◌, refl, sym, Bool, Bool-cases, inl, inr, true, false, Option, none, some, List, [], ◌∷◌,
  Result, ok, err, ◌==◌, ◌||◌, if◌then◌else◌, arith,
}
use foodo.Inventory.Production.{ProductionRunComponent, KitchenError}
use foodo.Inventory.Runs.{run_lines}
use foodo.Inventory.Runs.Start.{
  Amounts, amount_of, has_amount, and_line, measured_line, measured_lines,
}
use foodo.Inventory.Runs.Cancel.{measured_amounts}
use foodo.Inventory.Runs.Restock.{noted, has_line}

abbrev Lines : Type 0
Lines = List ProductionRunComponent

and_line-ok :
    (c : ProductionRunComponent) (r : Result KitchenError Lines) (ls : Lines)
    → and_line c r ≡ ok ls
    → (xs : Lines) × (r ≡ ok xs) × (ls ≡ c ∷ xs)
and_line-ok c (ok xs) ls h = (xs, refl, sym (cc (h)))
and_line-ok c (err e) ls h = absurd (cc)

measured_line-ok :
    (c : ProductionRunComponent) (o : Option ℤ) (r : Result KitchenError Lines) (ls : Lines)
    → measured_line c o r ≡ ok ls
    → (q : ℤ) × (xs : Lines) × (o ≡ some q)
      × (r ≡ ok xs)
      × (ls ≡ record c { measured_quantity = some q } ∷ xs)
measured_line-ok c none r ls h = absurd (cc)
measured_line-ok c (some q) r ls h =
    let tail = and_line-ok (record c { measured_quantity = some q }) r ls h in
    (q, tail.0, refl, tail.1, tail.2)

or_left : (b h : Bool) → b ≡ true → (b || h) ≡ true
or_left true h p = refl
or_left false h p = absurd (cc)

either : (b h : Bool) → h ≡ true → (b || h) ≡ true
either true h p = refl
either false h p = p

other : {A : Type 0} (b : Bool) (x y z : A) → b ≡ false → (if b then x else y) ≡ z → y ≡ z
other true x y z p h = absurd (cc)
other false x y z p h = h

or_right : (b h : Bool) → b ≡ false → (b || h) ≡ true → h ≡ true
or_right true h p q = absurd (cc)
or_right false h p q = q

amount_of-has_amount :
    (a : ℕ) (as' : Amounts) (q : ℤ) → amount_of a as' ≡ some q → has_amount a as' ≡ true
unfolding amount_of has_amount
amount_of-has_amount a [] q h = absurd (cc)
amount_of-has_amount a (x ∷ as') q h = elim (Bool-cases (x.0 == a)) [
  | inl p ↦ or_left (x.0 == a) (has_amount a as') p
  | inr p ↦
      either (x.0 == a) (has_amount a as')
        (amount_of-has_amount a as' q (other (x.0 == a) (some x.1) (amount_of a as') (some q) p h))
]

pub measured_lines-noted :
    (i : ℕ) (as' : Amounts) (cs ls : Lines)
    → measured_lines i as' cs ≡ ok ls
    → measured_amounts (run_lines i ls) ≡ some (noted as' (run_lines i cs))
unfolding measured_lines measured_amounts run_lines
measured_lines-noted i as' [] ls h =
    let e : [] ≡ ls = cc (h) in subst (λ x. measured_amounts (run_lines i x) ≡ some []) e refl
measured_lines-noted i as' (c ∷ cs) ls h = elim (Bool-cases (c.production_run_id == i)) [
  | inl p ↦
      let line =
        measured_line-ok c (amount_of c.raw_material_item_id as') (measured_lines i as' cs) ls
          (rw p at h) in
      let rest = measured_lines-noted i as' cs line.1 line.3 in rw (line.4, p, rest, line.2) refl
  | inr p ↦
      let line = and_line-ok c (measured_lines i as' cs) ls (rw p at h) in
      rw (line.2, p, measured_lines-noted i as' cs line.0 line.1) refl
]

-- A line has its item among the amounts.
pub measured_lines-amount :
    (i : ℕ) (as' : Amounts) (cs ls : Lines)
    → measured_lines i as' cs ≡ ok ls
    → (a : ℕ) → has_line a (run_lines i cs) ≡ true
    → has_amount a as' ≡ true
unfolding measured_lines run_lines
measured_lines-amount i as' [] ls h a l = absurd (cc)
measured_lines-amount i as' (c ∷ cs) ls h a l = elim (Bool-cases (c.production_run_id == i)) [
  | inl p ↦
      let line =
        measured_line-ok c (amount_of c.raw_material_item_id as') (measured_lines i as' cs) ls
          (rw p at h) in
      elim (Bool-cases (c.raw_material_item_id == a)) [
        | inl g ↦ ground (arith, amount_of-has_amount c.raw_material_item_id as' line.0 line.2, g)
        | inr g ↦ measured_lines-amount i as' cs line.1 line.3 a (or_right _ _ g (rw p at l))
      ]
  | inr p ↦
      let line = and_line-ok c (measured_lines i as' cs) ls (rw p at h) in
      measured_lines-amount i as' cs line.0 line.1 a (rw p at l)
]
