-- ===== src/Inventory/Movement/Levels.antt =====
-- The table of stock levels: one row for an item at a store (`uq_stock_levels_item_store`), and no
-- row where the stock was never moved.
use foodo.Prelude.{
  ℕ, ℤ, pos, ◌≡◌, Bool, true, ◌&&◌, Option, none, some, List, [], ◌∷◌, arith, ◌==◌, if◌then◌else◌,
  is_some,
}
use foodo.Inventory.Model.{StockLevel}

abbrev pub is_at : ℕ → ℕ → StockLevel → Bool
is_at item_id store_id l = l.item_id == item_id && l.store_id == store_id

-- The `select(StockLevel)` of Step 3.
unfoldable pub find_level : ℕ → ℕ → List StockLevel → Option StockLevel
find_level i s [] = none
find_level i s (l ∷ ls) = if is_at i s l then some l else find_level i s ls

-- `stock_level.current_quantity = new_quantity`, on the row that was found.
unfoldable pub set_level : ℕ → ℕ → ℤ → List StockLevel → List StockLevel
set_level i s q [] = []
set_level i s q (l ∷ ls) =
    if is_at i s l then (record l { current_quantity = q }) ∷ ls else l ∷ set_level i s q ls

-- What a reader takes the stock to be: a missing row reads as zero.
abbrev pub quantity_of : Option StockLevel → ℤ
quantity_of none = pos 0
quantity_of (some l) = l.current_quantity

unfoldable pub quantity_at : ℕ → ℕ → List StockLevel → ℤ
unfolding find_level
quantity_at i s ls = quantity_of (find_level i s ls)

pub quantity_at-cons :
    (i s j r : ℕ) (ls : List StockLevel)
    → find_level j r ls ≡ none
    → quantity_at i s (record { item_id = j; store_id = r; current_quantity = pos 0 } ∷ ls)
      ≡ quantity_at i s ls
unfolding quantity_at
quantity_at-cons i s j r ls h = ground arith

pub quantity_at-set_level :
    (i s j r : ℕ) (q : ℤ) (ls : List StockLevel)
    → is_some (find_level j r ls) ≡ true
    → quantity_at i s (set_level j r q ls) ≡ (if j == i && r == s then q else quantity_at i s ls)
unfolding quantity_at set_level
quantity_at-set_level i s j r q [] h = ground arith
quantity_at-set_level i s j r q (l ∷ ls) h = ground (arith, quantity_at-set_level i s j r q ls)
