-- ===== src/Prelude/Decimal.antt =====
-- `%d` read back: the decimal digits of a number determine it.
use native.Mathlib.Nat.{pow-suc}
use e19_4yp_voluntary_comput.Prelude.{
  lt→ltb, ℕ, zero, suc, ◌+◌, ◌-◌, ◌*◌, ◌/◌, ◌%◌, ◌^◌, ◌≤◌, ◌<◌, ◌≡◌, refl, sym, ap, ◌∙◌, inl, inr,
  List, [], ◌∷◌, ◌++◌, arith, ltb, Bool-cases, length, take, CString, decimal,
}
use e19_4yp_voluntary_comput.Prelude.Text.{digits_from}

value : ℕ → CString → ℕ
value n [] = n
value n (c ∷ cs) = value (n * 10 + (c - b'0')) cs

digits_from-value : (f n : ℕ) (acc : CString) → n < f → value 0 (digits_from f n acc) ≡ value n acc
unfolding digits_from value
digits_from-value zero n acc h = absurd (omega arith)
digits_from-value (suc f) n acc h = elim (Bool-cases (ltb n 10)) [
  | inl small ↦ rw small (ap (λ k. value k acc) (omega arith))
  | inr large ↦ rw large (
      digits_from-value f (n / 10) ((b'0' + n % 10) ∷ acc) (ground arith)
      ∙ ap (λ k. value k acc) (omega arith))
]

pub decimal_injective : (m n : ℕ) → decimal m ≡ decimal n → m ≡ n
unfolding decimal value
decimal_injective m n e =
    sym (digits_from-value (suc m) m [] (omega arith))
    ∙ ap (value 0) e
    ∙ digits_from-value (suc n) n [] (omega arith)

length-digits_from :
    (f n k : ℕ) (acc : CString) → n < 10 ^ k → 0 < k → length (digits_from f n acc) ≤ length acc + k
unfolding digits_from
length-digits_from zero n k acc h p = omega arith
length-digits_from (suc f) n zero acc h p = absurd (omega arith)
length-digits_from (suc f) n (suc zero) acc h p = rw (lt→ltb n 10 (omega arith)) (omega arith)
length-digits_from (suc f) n (suc (suc k)) acc h p =
    let shorter : n / 10 < 10 ^ suc k = omega (arith, pow-suc 10 (suc k)) in
    elim (Bool-cases (ltb n 10)) [
      | inl small ↦ rw small (omega arith)
      | inr large ↦ rw large (
          omega (
            arith,
            length-digits_from f (n / 10) (suc k) ((b'0' + n % 10) ∷ acc) shorter (omega arith),
          ))
    ]

pub length-decimal : (n k : ℕ) → n < 10 ^ k → 0 < k → length (decimal n) ≤ k
unfolding decimal
length-decimal n k h p = omega (arith, length-digits_from (suc n) n k [] h p)

module _ {ℓ} {A : Type ℓ} where
  pub append_cancel_left : (xs ys zs : List A) → xs ++ ys ≡ xs ++ zs → ys ≡ zs
  append_cancel_left [] ys zs e = e
  append_cancel_left (x ∷ xs) ys zs e = append_cancel_left xs ys zs (cc)

  -- A prefix of a long enough list does not show what is appended.
  pub take-append_le : (n : ℕ) (xs ys : List A) → n ≤ length xs → take n (xs ++ ys) ≡ take n xs
  take-append_le zero xs ys h = refl
  take-append_le (suc n) [] ys h = absurd (omega arith)
  take-append_le (suc n) (x ∷ xs) ys h = ap (◌∷◌ x) (take-append_le n xs ys (omega arith))
