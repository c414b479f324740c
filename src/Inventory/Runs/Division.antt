-- ===== src/Inventory/Runs/Division.antt =====
-- Division and multiplication of the standard library's decimals in the default context: the exact result is
-- rounded half to even to 28 significant digits. The quotients are below 10 ^ 28.
use Prim.Native.Nat.{◌^◌}
use foodo.Prelude.{ℕ, zero, suc, ◌+◌, ◌*◌, ℤ, pos, negsuc, ◌*ℤ◌, ◌-ℤ◌, true, false, leb}
use foodo.Pos.Decimal.{Decimal, round_half_even}

-- By how many places a / b is moved until it has 28 digits.
unfoldable pub places_for : ℕ → ℕ → ℕ → ℕ
places_for zero a b = 0
places_for (suc fuel) a b = elim (leb (10 ^ 27 * b) a) as (λ _. ℕ) [
  | true ↦ 0
  | false ↦ suc (places_for fuel (10 * a) b)
]

-- The columns hold 12 digits, so a dividend and a divisor have at most 40.
abbrev pub place_fuel : ℕ
place_fuel = 80

-- a / b to 28 digits.
unfoldable pub ratio : ℕ → ℕ → Decimal
ratio a b =
    let p = places_for place_fuel a b in
    record { coefficient = pos (round_half_even (a * 10 ^ p) b); places = p }

abbrev magnitude : ℤ → ℕ
magnitude (pos a) = a
magnitude (negsuc a) = suc a

abbrev signed : ℤ → Decimal → Decimal
signed (pos a) d = d
signed (negsuc a) d = record d { coefficient = pos 0 -ℤ d.coefficient }

-- The quotient by a positive divisor.
unfoldable pub divide : Decimal → ℕ → ℕ → Decimal
unfolding ratio
divide d b places =
    signed d.coefficient (ratio (magnitude d.coefficient * 10 ^ places) (b * 10 ^ d.places))

-- The product.
unfoldable pub multiply : Decimal → Decimal → Decimal
unfolding ratio
multiply d e =
    let c = d.coefficient *ℤ e.coefficient in
    signed c (ratio (magnitude c) (10 ^ (d.places + e.places)))
