-- ===== src/Prelude/Text.antt =====
-- C strings: the bytes before the terminating NUL. `strcmp`, `strncpy` into an array whose last
-- byte is NUL, and `%d` of a number that is not negative.
use Prim.Native.Nat.{ℕ, zero, suc, ◌+◌, ◌/◌, ◌%◌}
use Prim.Native.Char.{code}
use Prim.Native.String.{String}
use mathlib.Core.Path.{◌≡◌, refl}
use mathlib.Core.Logic.{◌↔◌}
use mathlib.Core.Bool.{Bool, true, false, ◌&&◌}
use mathlib.Core.List.{List, [], ◌∷◌}
use native.Mathlib.Omega.{arith}
use e19_4yp_voluntary_comput.Prelude.Tests.{◌==◌, ltb, if◌then◌else◌}
use e19_4yp_voluntary_comput.Prelude.Lists.{take}

abbrev pub CString : Type 0
CString = List ℕ

abbrev pub codes : String → CString
codes String.[] = []
codes (String.◌∷◌ c s) = code c ∷ codes s

-- `strcmp(a, b) == 0`
unfoldable pub str_eq : CString → CString → Bool
str_eq [] [] = true
str_eq [] (y ∷ ys) = false
str_eq (x ∷ xs) [] = false
str_eq (x ∷ xs) (y ∷ ys) = x == y && str_eq xs ys

pub str_eq_iff : (a b : CString) → (str_eq a b ≡ true) ↔ (a ≡ b)
unfolding str_eq
str_eq_iff [] [] = ground arith
str_eq_iff [] (y ∷ ys) = ground arith
str_eq_iff (x ∷ xs) [] = ground arith
str_eq_iff (x ∷ xs) (y ∷ ys) = ground (arith, str_eq_iff xs ys)

pub str_eq_refl : (a : CString) → str_eq a a ≡ true
str_eq_refl a = (str_eq_iff a a).1 refl

-- `strncmp(s, text, strlen(text)) == 0`
abbrev pub starts_with : CString → CString → Bool
starts_with [] s = true
starts_with (c ∷ text) [] = false
starts_with (c ∷ text) (d ∷ s) = c == d && starts_with text s

-- `strncpy(dst, src, size - 1)` or `snprintf(dst, size, …)` into `char dst[size]`, as read back.
abbrev pub fit : ℕ → CString → CString
fit zero s = []
fit (suc n) s = take n s

-- The decimal digits of a number, with fuel; `n + 1` rounds are enough for `n`.
unfoldable pub digits_from : ℕ → ℕ → CString → CString
digits_from zero n acc = acc
digits_from (suc f) n acc =
    let rest = digits_from f (n / 10) ((b'0' + n % 10) ∷ acc) in
    if ltb n 10 then (b'0' + n) ∷ acc else rest

unfoldable pub decimal : ℕ → CString
unfolding digits_from
decimal n = digits_from (suc n) n []
