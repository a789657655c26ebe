-- ===== src/Sysinfo/Numbers.antt =====
-- `%lu` and `%d` read back what they print.
use e19_4yp_voluntary_comput.Prelude.{
  ℕ, zero, suc, ◌+◌, ◌/◌, ◌%◌, ◌≤◌, ◌<◌, min, ◌≡◌, refl, sym, ap, ◌∙◌, inl, inr, true, false, none,
  some, [], ◌∷◌, ◌++◌, arith, ltb, if◌then◌else◌, ltb→lt, Bool-cases, CString, digits_from, decimal,
}
use e19_4yp_voluntary_comput.Sysinfo.{is_space, is_digit, skip_space, read_digits, read_number}

-- What does not go on with a number.
abbrev pub NoDigit : CString → Type 0
NoDigit [] = Unit
NoDigit (c ∷ s) = is_digit c ≡ false

digits_from-append :
    (f n : ℕ) (acc tail : CString) → digits_from f n acc ++ tail ≡ digits_from f n (acc ++ tail)
unfolding digits_from
digits_from-append zero n acc tail = refl
digits_from-append (suc f) n acc tail = elim (Bool-cases (ltb n 10)) [
  | inl small ↦ rw small refl
  | inr large ↦ rw large (digits_from-append f (n / 10) ((b'0' + n % 10) ∷ acc) tail)
]

read_digits-stop : (n : ℕ) (tail : CString) → NoDigit tail → read_digits n tail ≡ n
unfolding read_digits
read_digits-stop n [] h = refl
read_digits-stop n (c ∷ tail) h = rw h refl

digit : (n : ℕ) → n < 10 → is_digit (b'0' + n) ≡ true
digit n h = ground arith

read_digits-digits_from :
    (f n : ℕ) (acc : CString) → n < f → read_digits 0 (digits_from f n acc) ≡ read_digits n acc
unfolding digits_from read_digits
read_digits-digits_from zero n acc h = absurd (omega arith)
read_digits-digits_from (suc f) n acc h = elim (Bool-cases (ltb n 10)) [
  | inl small ↦
      rw small (rw (digit n (ltb→lt n 10 small)) (ap (λ k. read_digits k acc) (omega arith)))
  | inr large ↦ rw large (
      read_digits-digits_from f (n / 10) ((b'0' + n % 10) ∷ acc) (ground arith)
      ∙ rw (digit (n % 10) (omega arith)) (ap (λ k. read_digits k acc) (omega arith)))
]

-- A text that starts with a digit.
abbrev StartsDigit : CString → Type 0
StartsDigit s = (c : ℕ) × (rest : CString) × (s ≡ c ∷ rest) × (is_digit c ≡ true)

digits_from-StartsDigit : (f n : ℕ) (acc : CString) → n < f → StartsDigit (digits_from f n acc)
unfolding digits_from
digits_from-StartsDigit zero n acc h = absurd (omega arith)
digits_from-StartsDigit (suc f) n acc h = elim (Bool-cases (ltb n 10)) [
  | inl small ↦ (b'0' + n, acc, rw small refl, digit n (ltb→lt n 10 small))
  | inr large ↦
      let (c, rest, e, d) =
        digits_from-StartsDigit f (n / 10) ((b'0' + n % 10) ∷ acc) (ground arith) in
      (c, rest, rw large e, d)
]

no_space : (c : ℕ) → is_digit c ≡ true → is_space c ≡ false
no_space c h = ground arith

skip_space-digit : (s : CString) → StartsDigit s → skip_space s ≡ s
unfolding skip_space
skip_space-digit s (c, rest, e, d) =
    ap skip_space e ∙ ap (λ b. if b then skip_space rest else c ∷ rest) (no_space c d) ∙ sym e

read_number-digit :
    (largest : ℕ) (s : CString)
    → StartsDigit s
    → read_number largest s ≡ some (min largest (read_digits 0 s))
unfolding read_number
read_number-digit largest s (c, rest, e, d) =
    ap (read_number largest) e
    ∙ ap (λ b. if b then some (min largest (read_digits 0 (c ∷ rest))) else none) d
    ∙ ap (λ t. some (min largest (read_digits 0 t))) (sym e)

-- The printed number, white space before it skipped twice: by the format, and by the conversion.
pub read_number-decimal :
    (largest n : ℕ) (tail : CString)
    → n ≤ largest
    → NoDigit tail
    → read_number largest (skip_space (skip_space (decimal n ++ tail))) ≡ some n
unfolding decimal
read_number-decimal largest n tail h stop =
    let s = digits_from (suc n) n tail in
    let starts = digits_from-StartsDigit (suc n) n tail (omega arith) in
    let skipped = skip_space-digit s starts in
    ap (λ t. read_number largest (skip_space (skip_space t))) (digits_from-append (suc n) n [] tail)
    ∙ ap (λ t. read_number largest (skip_space t)) skipped
    ∙ ap (read_number largest) skipped
    ∙ read_number-digit largest s starts
    ∙ ap (λ k. some (min largest k))
        (read_digits-digits_from (suc n) n tail (omega arith) ∙ read_digits-stop n tail stop)
    ∙ ap some (omega arith)
