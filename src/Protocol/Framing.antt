-- ===== src/Protocol/Framing.antt =====
-- A JSON message of protocol.c reaches its receiver whole, however the connection cuts it up.
use e19_4yp_voluntary_comput.Prelude.{
  ℕ, ◌%◌, ◌^◌, ◌≤◌, ◌<◌, ◌≡◌, refl, sym, ap, ◌∙◌, Bool, true, false, ◌||◌, Option, none, some, List,
  [], ◌∷◌, ◌++◌, arith, ltb, ◌==◌, if◌then◌else◌, length, take, drop, All, length-append, take_all,
  CString,
}
use e19_4yp_voluntary_comput.Protocol.{
  ProtocolStatus, ok, err, max_json_size, be32, until_nul, Writer, written, both_written,
  write_both, put_back, send_text, delivered, parsed, recv_payload, recv_framed, whole, read_rest,
  send_json, recv_json,
}
use e19_4yp_voluntary_comput.Protocol.Streams.{
  stream, NonEmpty, from_be32-be32, take-whole, drop-whole, stream-put_back, put_back-NonEmpty,
  read_rest-Reads,
}

pub written-true :
    (bytes : List ℕ) (r : Option ℕ) → (written bytes r).0 ≡ true → (written bytes r).1 ≡ bytes
written-true bytes none h = ground arith
written-true bytes (some n) h = take_all n bytes (ground arith)

both_written-ok :
    (r r' : Bool × List ℕ) (sent : List ℕ)
    → both_written r r' ≡ (ok, sent)
    → (r.0 ≡ true) × (r'.0 ≡ true) × (sent ≡ r.1 ++ r'.1)
both_written-ok (false, a) (b, c) sent h = ground arith
both_written-ok (true, a) (false, c) sent h = ground arith
both_written-ok (true, a) (true, c) sent h = (refl, refl, ap (λ p. p.1) (sym h))

-- What `send_json` has written when it returns `ok`.
write_both-ok :
    (w w' : Writer) (header text sent : List ℕ)
    → write_both w w' header text ≡ (ok, sent)
    → sent ≡ header ++ text
write_both-ok w w' header text sent h =
    let (first, second, both) =
      both_written-ok (written header (w header)) (written text (w' text)) sent h in
    both
    ∙ ap (λ b. b ++ (written text (w' text)).1) (written-true header (w header) first)
    ∙ ap (header ++◌) (written-true text (w' text) second)

header_first :
    (n : ℕ) (first X Y : List ℕ)
    → 4 ≤ length first
    → first ++ X ≡ be32 n ++ Y
    → (take 4 first ≡ be32 n) × (drop 4 first ++ X ≡ Y)
header_first n [] X Y h e = absurd (omega arith)
header_first n (a ∷ []) X Y h e = absurd (omega arith)
header_first n (a ∷ b ∷ []) X Y h e = absurd (omega arith)
header_first n (a ∷ b ∷ c ∷ []) X Y h e = absurd (omega arith)
header_first n (a ∷ b ∷ c ∷ d ∷ r) X Y h e = (ap (take 4) e, ap (drop 4) e)

length_accepted : (n : ℕ) → 0 < n → n ≤ max_json_size → (n == 0 || ltb max_json_size n) ≡ false
length_accepted n h h' = ground arith

recv_payload_lem {ℓ} :
    {J : Type ℓ} (parse : CString → Option J) (fuel n : ℕ) (rest : List (List ℕ))
    → 0 < n
    → n ≤ max_json_size
    → recv_payload parse true fuel n rest ≡ parsed parse (read_rest fuel n rest)
recv_payload_lem parse fuel n rest h h' =
    ap (λ b. if b then some (err, none, rest) else parsed parse (read_rest fuel n rest))
      (length_accepted n h h')

-- A text that cJSON reads as the message `j`, and that a frame can carry.
pub record IsText {ℓ} {J : Type ℓ} (parse : CString → Option J) (j : J) (text : CString)
    : Type ℓ where
  pub parses : parse text ≡ some j
  pub no_nul : until_nul text ≡ text
  pub positive : 0 < length text
  pub bounded : length text ≤ max_json_size

-- What a call of `recv_json` ends with: the message, and segments with the bytes behind it.
abbrev pub Receives {ℓ} :
    {J : Type ℓ} → J → List ℕ → Option (ProtocolStatus × Option J × List (List ℕ)) → Type ℓ
Receives j later r =
    (left : List (List ℕ)) × (r ≡ some (ok, some j, left))
    × (stream left ≡ later)
    × All NonEmpty left

-- After the length, a stream that starts with the text of a message is read up to its end.
recv_payload-text {ℓ} :
    {J : Type ℓ} (parse : CString → Option J) (j : J) (text later : List ℕ) (fuel : ℕ)
    (rest : List (List ℕ))
    → IsText parse j text
    → length text ≤ fuel
    → All NonEmpty rest
    → stream rest ≡ text ++ later
    → Receives j later (recv_payload parse true fuel (length text) rest)
recv_payload-text parse j text later fuel rest t hf full hl =
    let n = length text in
    let (left, reads, after, full') =
      read_rest-Reads fuel n rest full (omega (arith, ap length hl, length-append text later)) hf in
    (
      left,
      recv_payload_lem parse fuel n rest t.positive t.bounded
          ∙ ap (parsed parse)
              (reads ∙ ap (λ t. whole t left) (ap (take n) hl ∙ take-whole text later))
          ∙ ap (λ r. some (delivered r left)) (ap parse t.no_nul ∙ t.parses),
      after ∙ ap (drop n) hl ∙ drop-whole text later,
      full',
    )

-- A frame with a text is read, and the bytes behind it are left.
pub recv_json-Receives {ℓ} :
    {J : Type ℓ} (parse : CString → Option J) (j : J) (text : CString) (fuel : ℕ) (first : List ℕ)
    (fs : List (List ℕ)) (later : List ℕ)
    → IsText parse j text
    → length text ≤ fuel
    → 4 ≤ length first
    → All NonEmpty fs
    → first ++ stream fs ≡ be32 (length text) ++ (text ++ later)
    → Receives j later (recv_json parse true fuel (first ∷ fs))
unfolding recv_json
recv_json-Receives parse j text fuel first fs later t hf h4 full hl =
    let n = length text in
    let (header, payload) = header_first n first (stream fs) (text ++ later) h4 hl in
    let rest = put_back (drop 4 first) fs in
    let (left, received, after, full') =
      recv_payload-text parse j text later fuel rest t hf (put_back-NonEmpty (drop 4 first) fs full)
        (stream-put_back (drop 4 first) fs ∙ payload) in
    (
      left,
      ap (λ h. recv_framed parse true fuel (h, rest)) header
          ∙ ap (λ k. recv_payload parse true fuel k rest)
              (from_be32-be32 n (omega (arith, t.bounded)))
          ∙ received,
      after,
      full',
    )

-- What `send_json` has written when it returns `ok`, for a text that a frame can carry.
pub send_json-ok {ℓ} :
    {J : Type ℓ} (print : J → Option CString) (j : J) (text : CString) (w w' : Writer)
    (sent : List ℕ)
    → print j ≡ some text
    → length text ≤ max_json_size
    → send_json print w w' j ≡ (ok, sent)
    → sent ≡ be32 (length text) ++ text
unfolding send_json
send_json-ok print j text w w' sent hp hm hs =
    let n = length text in
    let small : n % 2 ^ 32 ≡ n = omega arith in
    write_both-ok w w' (be32 (n % 2 ^ 32)) text sent (ap (send_text w w') (sym hp) ∙ hs)
    ∙ ap (λ k. be32 k ++ text) small

-- A message whose text has at least one and at most 65536 bytes and no NUL, and which cJSON parses
-- back from its printed text: if `send_json` returns `ok`, then `recv_json` at the other end, with
-- memory for its buffer, returns `ok` and the message, and leaves the bytes that follow it, however
-- the connection has cut the stream into segments that are not empty, of which the first has at
-- least the four bytes of the length. As many rounds as the text has bytes are enough.
pub recv_json-send_json {ℓ} :
    {J : Type ℓ} (print : J → Option CString) (parse : CString → Option J) (j : J) (text : CString)
    (w w' : Writer) (sent first : List ℕ) (fs : List (List ℕ)) (later : List ℕ)
    → print j ≡ some text
    → parse text ≡ some j
    → until_nul text ≡ text
    → 0 < length text
    → length text ≤ max_json_size
    → send_json print w w' j ≡ (ok, sent)
    → 4 ≤ length first
    → All NonEmpty fs
    → first ++ stream fs ≡ sent ++ later
    → (left : List (List ℕ)) × (recv_json parse true (length text) (first ∷ fs)
        ≡ some (ok, some j, left))
      × (stream left ≡ later)
recv_json-send_json print parse j text w w' sent first fs later hp hq hz h0 hm hs h4 hf hl =
    let framed = send_json-ok print j text w w' sent hp hm hs in
    let t : IsText parse j text = record {
      parses = hq;
      no_nul = hz;
      positive = h0;
      bounded = hm;
    } in
    let (left, received, after, full) =
      recv_json-Receives parse j text (length text) first fs later t (omega arith) h4 hf
        (hl ∙ ap (λ s. s ++ later) framed) in
    (left, received, after)
