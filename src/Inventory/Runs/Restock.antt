-- ===== src/Inventory/Runs/Restock.antt =====
-- The amounts that a start takes and a stop gives back:
-- services/inventory-service/app/services/run_service.py.
pub mod Amounts
pub mod Lines
pub mod Legs
pub mod Start
pub mod Stop
use foodo.Prelude.{
  ℕ, ℤ, pos, ◌+ℤ◌, ◌≡◌, Bool, true, false, ◌||◌, Option, none, some, List, [], ◌∷◌, map, ◌==◌,
  if◌then◌else◌,
}
use foodo.Inventory.Production.{ProductionRunComponent}
use foodo.Inventory.Runs.Start.{
  Amounts as AmountList, amount_of, has_amount, set_amount, planned_amounts, RunStart,
}

abbrev pub value_of : Option ℤ → ℤ
value_of none = pos 0
value_of (some q) = q

-- The amount of an item, 0 when it has none.
abbrev pub amount_or_zero : ℕ → AmountList → ℤ
amount_or_zero a as' = value_of (amount_of a as')

-- What the lines of a run note of the amounts.
abbrev pub noted : AmountList → List ProductionRunComponent → AmountList
noted as' [] = []
noted as' (c ∷ cs) =
    (c.raw_material_item_id, amount_or_zero c.raw_material_item_id as') ∷ noted as' cs

-- What a start takes, by the leading amount, the lines of the run and the client's own amounts.
abbrev pub taken : ℕ → ℤ → List ProductionRunComponent → Option AmountList → AmountList
taken leading quantity cs none = set_amount leading quantity (planned_amounts cs)
taken leading quantity cs (some override) = override

abbrev pub has_line : ℕ → List ProductionRunComponent → Bool
has_line a [] = false
has_line a (c ∷ cs) = c.raw_material_item_id == a || has_line a cs

-- The keys of a dict.
abbrev pub AllDistinct : AmountList → Type 0
AllDistinct [] = Unit
AllDistinct (a ∷ as') = (has_amount a.0 as' ≡ false) × AllDistinct as'

-- The lines keep to the constraint `uq_run_components_run_ingredient`.
abbrev pub AllUnique : List ProductionRunComponent → Type 0
AllUnique [] = Unit
AllUnique (c ∷ cs) = (has_line c.raw_material_item_id cs ≡ false) × AllUnique cs

-- What the amounts of an item sum up to.
abbrev pub total : ℕ → AmountList → ℤ
total a [] = pos 0
total a (c ∷ cs) = (if c.0 == a then c.1 else pos 0) +ℤ total a cs

-- The amounts that the lines of a run can note: at most one for an item, as at most one line for an
-- item, and none without a line.
pub record IsTraced (body : RunStart) (cs : List ProductionRunComponent) : Type 0 where
  pub distinct :
      AllDistinct (taken body.leading_item_id body.leading_quantity_used cs body.components)
  pub unique : AllUnique cs
  pub covered :
      (a : ℕ)
      → has_line a cs ≡ false
      → has_amount a (taken body.leading_item_id body.leading_quantity_used cs body.components)
        ≡ false
