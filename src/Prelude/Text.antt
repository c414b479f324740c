-- ===== src/Prelude/Text.antt =====
-- Python's `str.strip` and `text[:n]`, over a test for white space.
use Prim.Native.Char.{Char}
use Prim.Native.String as Str
use Prim.Native.String.{String}
use Prim.Native.Nat.{ℕ, zero, suc}
use mathlib.Core.Bool.{Bool, true, false, ◌&&◌}
use foodo.Prelude.Tests.{if◌then◌else◌}

-- `text[:n]`
unfoldable pub first_chars : ℕ → String → String
first_chars zero s = Str.[]
first_chars (suc n) Str.[] = Str.[]
first_chars (suc n) (Str.◌∷◌ c s) = Str.◌∷◌ c (first_chars n s)

unfoldable pub is_empty : String → Bool
is_empty Str.[] = true
is_empty (Str.◌∷◌ c s) = false

unfoldable pub lstrip : (Char → Bool) → String → String
lstrip is_space Str.[] = Str.[]
lstrip is_space (Str.◌∷◌ c s) = if is_space c then lstrip is_space s else Str.◌∷◌ c s

unfoldable pub rstrip : (Char → Bool) → String → String
unfolding is_empty
rstrip is_space Str.[] = Str.[]
rstrip is_space (Str.◌∷◌ c s) =
    let rest = rstrip is_space s in if is_space c && is_empty rest then Str.[] else Str.◌∷◌ c rest

abbrev pub strip : (Char → Bool) → String → String
strip is_space s = rstrip is_space (lstrip is_space s)
