-- ===== src/Pos/Decimal.antt =====
-- The decimals that the services compute with, and their rounding by `quantize`, which is half to
-- even. The 28 digits of the default context are taken to be enough; a quotient, which may need more,
-- is in Inventory.Runs.Division.
use Prim.Native.Nat.{◌^◌}
use foodo.Prelude.{
  ℕ, suc, ◌+◌, ◌-◌, ◌*◌, ◌/◌, ◌%◌, ℤ, pos, negsuc, ◌+ℤ◌, ◌-ℤ◌, ◌*ℤ◌, ltb_ℤ, Bool, ltb, ◌==◌,
  if◌then◌else◌,
}

-- coefficient / 10 ^ places
pub record Decimal : Type 0 where
  pub coefficient : ℤ
  pub places : ℕ

abbrev pub decimal_zero : Decimal
decimal_zero = record { coefficient = pos 0; places = 0 }

abbrev pub decimal_one : Decimal
decimal_one = record { coefficient = pos 1; places = 0 }

-- The coefficient at more places.
unfoldable pub scaled : ℕ → Decimal → ℤ
scaled more d = d.coefficient *ℤ pos (10 ^ more)

unfoldable pub add : Decimal → Decimal → Decimal
unfolding scaled
add d e = record {
  coefficient = scaled e.places d +ℤ scaled d.places e;
  places = d.places + e.places;
}

unfoldable pub sub : Decimal → Decimal → Decimal
unfolding scaled
sub d e = record {
  coefficient = scaled e.places d -ℤ scaled d.places e;
  places = d.places + e.places;
}

unfoldable pub mul : Decimal → Decimal → Decimal
mul d e = record { coefficient = d.coefficient *ℤ e.coefficient; places = d.places + e.places }

unfoldable pub lt : Decimal → Decimal → Bool
unfolding scaled
lt d e = ltb_ℤ (scaled e.places d) (scaled d.places e)

-- a / m to the nearest number, and to the even one of two.
unfoldable pub round_half_even : ℕ → ℕ → ℕ
round_half_even a m =
    if ltb (2 * (a % m)) m
    then a / m
    else if ltb m (2 * (a % m))
    then suc (a / m)
    else if (a / m) % 2 == 0
    then a / m
    else suc (a / m)

abbrev negated : ℕ → ℤ
negated n = if n == 0 then pos 0 else negsuc (n - 1)

-- `d.quantize` at this many places, as an integer of the last digit.
unfoldable pub quantize : ℕ → Decimal → ℤ
unfolding scaled
quantize n d = elim (scaled n d) [
  | pos a ↦ pos (round_half_even a (10 ^ d.places))
  | negsuc a ↦ negated (round_half_even (suc a) (10 ^ d.places))
]

-- What a column Numeric with this many places keeps of a value, as an integer of the last digit: the
-- database rounds to the nearest number, and half away from zero.
unfoldable pub stored : ℕ → Decimal → ℤ
unfolding scaled
stored n d =
    let half_up : ℕ → ℕ = λ a. (2 * a + 10 ^ d.places) / (2 * 10 ^ d.places) in
    elim (scaled n d) [ pos a ↦ pos (half_up a) | negsuc a ↦ negated (half_up (suc a)) ]
