-- ===== src/Inventory/Runs/Restock/Amounts.antt =====
-- What was taken is what the lines note, if every item that was taken has a line.
use mathlib.Core.Path.{subst}
use foodo.Prelude.{
  ℕ, ℤ, pos, ◌+ℤ◌, +ℤ_zero, zero_+ℤ, ◌≡◌, refl, sym, ap, ◌∙◌, Bool, true, false, Option, some, List,
  [], ◌∷◌, ◌==◌, ◌||◌, if◌then◌else◌, arith,
}
use foodo.Inventory.Production.{ProductionRunComponent}
use foodo.Inventory.Runs.Start.{Amounts, amount_of, has_amount}
use foodo.Inventory.Runs.Restock.{
  value_of, amount_or_zero, noted, has_line, AllDistinct, AllUnique, total,
}

-- One more amount, for another item.
add_other :
    (b h : Bool) (q t : ℤ)
    → (b || h) ≡ false
    → (h ≡ false → t ≡ pos 0)
    → (if b then q else pos 0) +ℤ t ≡ pos 0
add_other true h q t e f = absurd (cc)
add_other false h q t e f = zero_+ℤ t ∙ f e

-- One more amount, for the item or for another one.
add_amount :
    (b : Bool) (q t : ℤ) (o : Option ℤ)
    → (b ≡ true → t ≡ pos 0)
    → (b ≡ false → t ≡ value_of o)
    → (if b then q else pos 0) +ℤ t ≡ value_of (if b then some q else o)
add_amount true q t o f g = ap (λ x. q +ℤ x) (f refl) ∙ +ℤ_zero q
add_amount false q t o f g = zero_+ℤ t ∙ g refl

add_line :
    (b h : Bool) (q v t : ℤ)
    → (b ≡ true → (q ≡ v) × (t ≡ pos 0))
    → (b ≡ false → t ≡ (if h then v else pos 0))
    → (if b then q else pos 0) +ℤ t ≡ (if b || h then v else pos 0)
add_line true h q v t f g = ap (λ x. q +ℤ x) (f refl).1 ∙ +ℤ_zero q ∙ (f refl).0
add_line false h q v t f g = zero_+ℤ t ∙ g refl

same : (x y : ℕ) → (x == y) ≡ true → x ≡ y
same x y h = ground (arith, h)

total-absent : (a : ℕ) (as' : Amounts) → has_amount a as' ≡ false → total a as' ≡ pos 0
unfolding has_amount
total-absent a [] h = refl
total-absent a (x ∷ as') h =
    add_other (x.0 == a) (has_amount a as') x.1 (total a as') h (total-absent a as')

pub total-distinct : (a : ℕ) (as' : Amounts) → AllDistinct as' → total a as' ≡ amount_or_zero a as'
unfolding amount_of
total-distinct a [] d = refl
total-distinct a (x ∷ as') d =
    add_amount (x.0 == a) x.1 (total a as') (amount_of a as')
      (λ p. total-absent a as' (subst (λ y. has_amount y as' ≡ false) (same x.0 a p) d.0))
      (λ p. total-distinct a as' d.1)

noted-absent :
    (a : ℕ) (as' : Amounts) (cs : List ProductionRunComponent)
    → has_line a cs ≡ false
    → total a (noted as' cs) ≡ pos 0
noted-absent a as' [] h = refl
noted-absent a as' (c ∷ cs) h =
    add_other (c.raw_material_item_id == a) (has_line a cs) _ (total a (noted as' cs)) h
      (noted-absent a as' cs)

total-noted :
    (a : ℕ) (as' : Amounts) (cs : List ProductionRunComponent)
    → AllUnique cs
    → total a (noted as' cs) ≡ (if has_line a cs then amount_or_zero a as' else pos 0)
total-noted a as' [] u = refl
total-noted a as' (c ∷ cs) u =
    add_line (c.raw_material_item_id == a) (has_line a cs)
      (amount_or_zero c.raw_material_item_id as') (amount_or_zero a as') (total a (noted as' cs))
      (λ p.
        let e = same c.raw_material_item_id a p in
        (
          ap (λ y. amount_or_zero y as') e,
          noted-absent a as' cs (subst (λ y. has_line y cs ≡ false) e u.0),
        ))
      (λ p. total-noted a as' cs u.1)

other_amount :
    (b h : Bool) (q : ℤ) (o : Option ℤ)
    → (b || h) ≡ false
    → (h ≡ false → value_of o ≡ pos 0)
    → value_of (if b then some q else o) ≡ pos 0
other_amount true h q o e f = absurd (cc)
other_amount false h q o e f = f e

amount_or_zero-absent :
    (a : ℕ) (as' : Amounts) → has_amount a as' ≡ false → amount_or_zero a as' ≡ pos 0
unfolding has_amount amount_of
amount_or_zero-absent a [] h = refl
amount_or_zero-absent a (x ∷ as') h =
    other_amount (x.0 == a) (has_amount a as') x.1 (amount_of a as') h (amount_or_zero-absent a as')

noted_or_absent :
    (h : Bool) (v t : ℤ) → t ≡ (if h then v else pos 0) → (h ≡ false → v ≡ pos 0) → t ≡ v
noted_or_absent true v t e f = e
noted_or_absent false v t e f = e ∙ sym (f refl)

-- The two sums agree.
pub total-noted_all :
    (a : ℕ) (as' : Amounts) (cs : List ProductionRunComponent)
    → AllDistinct as'
    → AllUnique cs
    → (has_line a cs ≡ false → has_amount a as' ≡ false)
    → total a (noted as' cs) ≡ total a as'
total-noted_all a as' cs d u h =
    noted_or_absent (has_line a cs) (amount_or_zero a as') (total a (noted as' cs))
      (total-noted a as' cs u) (λ p. amount_or_zero-absent a as' (h p))
    ∙ sym (total-distinct a as' d)
