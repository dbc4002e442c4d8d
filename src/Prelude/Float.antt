-- ===== src/Prelude/Float.antt =====
-- A float64 as its IEEE 754 bit pattern: the sign in bit 63, then eleven bits of exponent.
use Prim.Native.Nat.{ℕ, ◌%◌, ◌^◌}
use mathlib.Core.Bool.{Bool, not, ◌&&◌, ◌||◌}
use harmonia_server.Prelude.Tests.{ltb, ◌==◌}

-- The pattern without its sign: it orders the absolute values that are numbers.
abbrev pub magnitude : ℕ → ℕ
magnitude bits = bits % 2 ^ 63

-- The pattern of +Inf. A larger magnitude is a NaN.
abbrev pub inf_bits : ℕ
inf_bits = 0x7ff0000000000000

abbrev pub is_nan : ℕ → Bool
is_nan bits = ltb inf_bits (magnitude bits)

abbrev pub is_inf : ℕ → Bool
is_inf bits = magnitude bits == inf_bits

-- `x == y`: never for a NaN, and the two zeros are equal.
abbrev pub float_eq : ℕ → ℕ → Bool
float_eq a b =
    not (is_nan a) && not (is_nan b) && (a == b || (magnitude a == 0 && magnitude b == 0))
