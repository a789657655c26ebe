-- ===== src/Prelude/Int.antt =====
-- Signed integers over the native numbers, under the library's names: C's `int` where the program
-- lets it go below zero.
use e19_4yp_voluntary_comput.Prelude.{◌∷◌, decimal, CString}
use Prim.Native.Nat.{ℕ, ◌+◌, ◌-◌, ◌%◌, ◌^◌}
use e19_4yp_voluntary_comput.Prelude.Tests.{ltb, leb, if◌then◌else◌}

-- `negsuc n` is -(n + 1).
pub data ℤ : Type 0 where
  pos : ℕ → ℤ
  negsuc : ℕ → ℤ

abbrev pub minus_one : ℤ
minus_one = negsuc 0

-- a - b, as an integer.
abbrev pub sub_ℕ : ℕ → ℕ → ℤ
sub_ℕ a b = if leb b a then pos (a - b) else negsuc (b - a - 1)

-- i - k for a number k.
abbrev pub sub_int : ℤ → ℕ → ℤ
sub_int (pos n) k = sub_ℕ n k
sub_int (negsuc n) k = negsuc (n + k)

-- The `int32_t` that a conversion from `size_t` gives: the low 32 bits, read as two's complement.
abbrev pub to_int32 : ℕ → ℤ
to_int32 n =
    if ltb (n % 2 ^ 32) (2 ^ 31) then pos (n % 2 ^ 32) else negsuc (2 ^ 32 - n % 2 ^ 32 - 1)

-- `%d`
abbrev pub signed_decimal : ℤ → CString
signed_decimal (pos n) = decimal n
signed_decimal (negsuc n) = b'-' ∷ decimal (n + 1)
