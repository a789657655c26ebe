-- ===== src/Employee/Scanner.antt =====
-- However the script's answer is cut into chunks, `receive_complete_json_response` gives it whole.
use e19_4yp_voluntary_comput.Prelude.{
  All, append_assoc, length-append, if◌then◌else◌, arith, some, suc, zero, ◌-◌, ltb, append-nil,
  sym, true, false, Bool, Option, ◌∙◌, ◌<◌, ℕ, ◌+◌, ◌-◌, ◌<◌, ◌≡◌, refl, ap, List, [], ◌∷◌, ◌++◌,
  length,
}
use e19_4yp_voluntary_comput.Prelude.Int.{pos}
use e19_4yp_voluntary_comput.Employee.{
  CString, start, complete, clip, or_return, returned, Response, read_on,
  receive_complete_json_response, Scan, start, Scanned, complete, more, or_on, scan_byte, scan,
  Response, returned, clip, or_return, read_on, receive_complete_json_response,
}

abbrev pub joined : List (List ℕ) → List ℕ
joined [] = []
joined (c ∷ cs) = c ++ joined cs

abbrev pub NonEmpty : List ℕ → Type 0
NonEmpty bs = 0 < length bs

append_empty : (xs ys : List ℕ) → xs ++ ys ≡ [] → ys ≡ []
append_empty [] ys h = h
append_empty (x ∷ xs) ys h = absurd (omega (arith, ap length h))

-- A scan that goes on with further bytes.
abbrev and_then : Scanned → List ℕ → Scanned
unfolding scan
and_then (complete rest) cs = complete (rest ++ cs)
and_then (more s) cs = scan s cs

or_on-append :
    (r : Scan × Bool) (xs ys : List ℕ)
    → ((s : Scan) → scan s (xs ++ ys) ≡ and_then (scan s xs) ys)
    → or_on r (xs ++ ys) (λ s. scan s (xs ++ ys)) ≡ and_then (or_on r xs (λ s. scan s xs)) ys
unfolding and_then
or_on-append (s, true) xs ys h = refl
or_on-append (s, false) xs ys h = h s

scan-append : (s : Scan) (xs ys : List ℕ) → scan s (xs ++ ys) ≡ and_then (scan s xs) ys
unfolding scan and_then
scan-append s [] ys = refl
scan-append s (x ∷ xs) ys = or_on-append (scan_byte s x) xs ys (λ s'. scan-append s' xs ys)

clip_lem : (size n : ℕ) (chunk : List ℕ) → n + length chunk < size → clip size n chunk ≡ chunk
clip_lem size n chunk h = ground (arith, h)

room_left : (size n m : ℕ) → n + suc m < size → ltb n (size - 1) ≡ true
room_left size n m h = ground (arith, h)

left_of : Scanned → List ℕ
left_of (complete rest) = rest
left_of (more s) = []

ends : Scanned → ℕ
ends (complete rest) = 1
ends (more s) = 0

-- The answers that give these chunks, and then others.
abbrev pub chunks_then : List (List ℕ) → List (Option (List ℕ)) → List (Option (List ℕ))
chunks_then [] later = later
chunks_then (c ∷ cs) later = some c ∷ chunks_then cs later

or_return_lem :
    (r : Scanned) (buffer : CString) (cs : List (List ℕ)) (next : Scan → Response)
    → and_then r (joined cs) ≡ complete []
    → ((s : Scan)
        → scan s (joined cs) ≡ complete []
        → next s ≡ returned (pos (length (buffer ++ joined cs))) (buffer ++ joined cs))
    → or_return r buffer next ≡ returned (pos (length (buffer ++ joined cs))) (buffer ++ joined cs)
unfolding and_then left_of
or_return_lem (complete rest) buffer cs next h ih =
    let none_left : joined cs ≡ [] = append_empty rest (joined cs) (ap left_of h) in
    ap (λ b. returned (pos (length b)) b)
      (sym (append-nil buffer) ∙ ap (buffer ++◌) (sym none_left))
or_return_lem (more s) buffer cs next h ih = ih s h

read_on-joined :
    (size : ℕ) (buffer : CString) (s : Scan) (cs : List (List ℕ)) (later : List (Option (List ℕ)))
    → All NonEmpty cs
    → scan s (joined cs) ≡ complete []
    → length buffer + length (joined cs) < size
    → read_on size buffer s (chunks_then cs later)
      ≡ returned (pos (length (buffer ++ joined cs))) (buffer ++ joined cs)
unfolding read_on scan ends
read_on-joined size buffer s [] later hc hs hl =
    let zero_one : 0 ≡ 1 = ap ends hs in absurd (omega (arith, zero_one))
read_on-joined size buffer s ([] ∷ cs) later hc hs hl = absurd (omega (arith, hc.0))
read_on-joined size buffer s ((b ∷ bs) ∷ cs) later hc hs hl =
    let chunk = b ∷ bs in
    let on : List ℕ → Response = λ ch.
      or_return (scan s ch) (buffer ++ ch)
        (λ s'. read_on size (buffer ++ ch) s' (chunks_then cs later)) in
    let fits : length buffer + length chunk + length (joined cs) < size =
      omega (arith, hl, length-append chunk (joined cs)) in
    ap
      (λ t.
        if t then on (clip size (length buffer) chunk) else returned (pos (length buffer)) buffer)
      (room_left size (length buffer) (length bs) (omega (arith, fits)))
    ∙ ap on (clip_lem size (length buffer) chunk (omega (arith, fits)))
    ∙ or_return_lem (scan s chunk) (buffer ++ chunk) cs
        (λ s'. read_on size (buffer ++ chunk) s' (chunks_then cs later))
        (sym (scan-append s chunk (joined cs)) ∙ hs)
        (λ s' h.
          read_on-joined size (buffer ++ chunk) s' cs later (hc.1) h
            (omega (arith, fits, length-append buffer chunk)))
    ∙ ap (λ t. returned (pos (length t)) t) (append_assoc buffer chunk (joined cs))

-- If the bytes of an answer are a complete JSON object for the scanner, which ends with their last,
-- and they fit the buffer with a byte to spare: however they are cut into chunks that are not empty,
-- and whatever the script sends or does after them, the call returns all of them and their number.
pub receive_complete_json_response-joined :
    (size : ℕ) (cs : List (List ℕ)) (later : List (Option (List ℕ)))
    → All NonEmpty cs
    → scan start (joined cs) ≡ complete []
    → length (joined cs) < size
    → receive_complete_json_response true size (chunks_then cs later)
      ≡ returned (pos (length (joined cs))) (joined cs)
unfolding receive_complete_json_response
receive_complete_json_response-joined zero cs later hc hs hl = absurd (omega arith)
receive_complete_json_response-joined (suc size) cs later hc hs hl =
    read_on-joined (suc size) [] start cs later hc hs (omega (arith, hl))
