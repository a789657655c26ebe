-- ===== src/Protocol/Streams.antt =====
-- What arrives on a connection, as segments, and the loops that read a given number of its bytes.
use e19_4yp_voluntary_comput.Prelude.{
  ℕ, zero, suc, ◌-◌, ◌≤◌, ◌<◌, ◌≡◌, refl, sym, ap, subst, ◌∙◌, List, [], ◌∷◌, ◌++◌, arith, length,
  take, drop, All, length-append, length-take, length-drop,
}
use e19_4yp_voluntary_comput.Protocol.{
  put_back, prepend, Received, whole, read_rest, from_be32, be32,
}

-- The bytes of the segments that have arrived, in order.
abbrev pub stream : List (List ℕ) → List ℕ
stream [] = []
stream (f ∷ fs) = f ++ stream fs

abbrev pub NonEmpty : List ℕ → Type 0
NonEmpty bs = 0 < length bs

pub from_be32-be32 : (n : ℕ) → n < 4294967296 → from_be32 (be32 n) ≡ n
from_be32-be32 n h = omega arith

sub_zero : (n : ℕ) → n ≡ n - 0
sub_zero n = omega arith

sub_suc : (n m : ℕ) → n - m ≡ suc n - suc m
sub_suc n m = omega arith

-- Taking `n` items is taking at most `m` of the first part, and then what is missing.
pub take-append :
    {A : Type 0} (m n : ℕ) (xs ys : List A)
    → m ≤ n
    → take n (xs ++ ys) ≡ take m xs ++ take (n - length (take m xs)) (drop m xs ++ ys)
take-append zero n xs ys h = ap (λ k. take k (xs ++ ys)) (sub_zero n)
take-append (suc m) zero xs ys h = absurd (omega arith)
take-append (suc m) (suc n) [] ys h = ap (λ k. take k ys) (sub_zero (suc n))
take-append (suc m) (suc n) (x ∷ xs) ys h = ap (◌∷◌ x) (
    take-append m n xs ys (omega arith)
    ∙ ap (λ k. take m xs ++ take k (drop m xs ++ ys)) (sub_suc n (length (take m xs))))

pub drop-append :
    {A : Type 0} (m n : ℕ) (xs ys : List A)
    → m ≤ n
    → drop n (xs ++ ys) ≡ drop (n - length (take m xs)) (drop m xs ++ ys)
drop-append zero n xs ys h = ap (λ k. drop k (xs ++ ys)) (sub_zero n)
drop-append (suc m) zero xs ys h = absurd (omega arith)
drop-append (suc m) (suc n) [] ys h = ap (λ k. drop k ys) (sub_zero (suc n))
drop-append (suc m) (suc n) (x ∷ xs) ys h =
    drop-append m n xs ys (omega arith)
    ∙ ap (λ k. drop k (drop m xs ++ ys)) (sub_suc n (length (take m xs)))

pub take-whole : (text later : List ℕ) → take (length text) (text ++ later) ≡ text
take-whole [] later = refl
take-whole (x ∷ text) later = ap (◌∷◌ x) (take-whole text later)

pub drop-whole : (text later : List ℕ) → drop (length text) (text ++ later) ≡ later
drop-whole [] later = refl
drop-whole (x ∷ text) later = drop-whole text later

pub stream-put_back : (bs : List ℕ) (fs : List (List ℕ)) → stream (put_back bs fs) ≡ bs ++ stream fs
stream-put_back [] fs = refl
stream-put_back (b ∷ bs) fs = refl

pub put_back-NonEmpty :
    (bs : List ℕ) (fs : List (List ℕ)) → All NonEmpty fs → All NonEmpty (put_back bs fs)
put_back-NonEmpty [] fs h = h
put_back-NonEmpty (b ∷ bs) fs h = (omega arith, h)

pub enough_left :
    (m need : ℕ) (bs : List ℕ) (fs : List (List ℕ))
    → need ≤ length (bs ++ stream fs)
    → m ≤ need
    → need - length (take m bs) ≤ length (stream (put_back (drop m bs) fs))
enough_left m need bs fs h hm =
    subst (λ s. need - length (take m bs) ≤ length s) (sym (stream-put_back (drop m bs) fs))
      (omega (
        arith,
        h,
        length-append (drop m bs) (stream fs),
        length-append bs (stream fs),
        length-drop m bs,
        length-take m bs,
      ))

-- What a loop that reads `need` bytes ends with: those bytes, and segments with the others.
abbrev pub Reads : ℕ → List (List ℕ) → Received → Type 0
Reads need fs r =
    (left : List (List ℕ)) × (r ≡ whole (take need (stream fs)) left)
    × (stream left ≡ drop need (stream fs))
    × All NonEmpty left

-- A round that takes at most `m` bytes of the first segment, where the rest of the loop reads what is
-- missing.
pub round-Reads :
    (m need : ℕ) (b : ℕ) (bs : List ℕ) (fs : List (List ℕ)) (r : Received)
    → m ≤ need
    → Reads (need - length (take m bs)) (put_back (drop m bs) fs) r
    → Reads (suc need) ((b ∷ bs) ∷ fs) (prepend (b ∷ take m bs) r)
round-Reads m need b bs fs r hm (left, reads, rest, full) =
    let k = need - length (take m bs) in
    let same = stream-put_back (drop m bs) fs in
    (
      left,
      ap (prepend (b ∷ take m bs)) reads
          ∙ ap (λ t. whole (b ∷ t) left)
              (sym (
                take-append m need bs (stream fs) hm ∙ ap (λ t. take m bs ++ take k t) (sym same))),
      rest ∙ sym (drop-append m need bs (stream fs) hm ∙ ap (drop k) (sym same)),
      full,
    )

-- If no segment is empty, the stream has enough bytes and there are as many rounds as bytes to
-- read, the loop of `recv_json` reads them and leaves the others.
pub read_rest-Reads :
    (fuel need : ℕ) (fs : List (List ℕ))
    → All NonEmpty fs
    → need ≤ length (stream fs)
    → need ≤ fuel
    → Reads need fs (read_rest fuel need fs)
unfolding read_rest
read_rest-Reads fuel zero fs h hn hf = (fs, refl, refl, h)
read_rest-Reads zero (suc need) fs h hn hf = absurd (omega arith)
read_rest-Reads (suc fuel) (suc need) [] h hn hf = absurd (omega arith)
read_rest-Reads (suc fuel) (suc need) ([] ∷ fs) h hn hf = absurd (omega (arith, h.0))
read_rest-Reads (suc fuel) (suc need) ((b ∷ bs) ∷ fs) h hn hf =
    round-Reads need need b bs fs _ (omega arith) (
      read_rest-Reads fuel (need - length (take need bs)) (put_back (drop need bs) fs)
        (put_back-NonEmpty (drop need bs) fs h.1)
        (enough_left need need bs fs (omega arith) (omega arith)) (omega arith))
