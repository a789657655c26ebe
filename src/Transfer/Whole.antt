-- ===== src/Transfer/Whole.antt =====
-- What the senders of Transfer put on a connection when they report success and no chunk is sent in
-- part, and what the receivers' loops read from it.
use e19_4yp_voluntary_comput.Prelude.{
  CString, ◌^◌, ◌%◌, Bool, false, ℕ, zero, suc, ◌-◌, ◌≤◌, ◌<◌, min, ◌≡◌, refl, sym, ap, ◌∙◌, true,
  some, List, [], ◌∷◌, ◌++◌, arith, length, take, drop, All, take-append-drop, length-take,
  length-drop, take_all,
}
use e19_4yp_voluntary_comput.Protocol.{
  ProtocolStatus, ok, err, conn_closed, be32, put_back, Writer, written,
}
use e19_4yp_voluntary_comput.Protocol.Streams.{
  stream, NonEmpty, Reads, round-Reads, put_back-NonEmpty, enough_left,
}
use e19_4yp_voluntary_comput.Protocol.Framing.{IsText, send_json-ok, written-true}
use e19_4yp_voluntary_comput.Transfer.{
  JsonItem, Cjson, find_item, Link, Sending, sent, running, after_bytes, send_chunk, chunk_sent,
  send_content, sized, send_sized, send_message, after_metadata,
}
use e19_4yp_voluntary_comput.Transfer.Receiving.{read_capped}

pub read_capped-Reads :
    (last fuel need : ℕ) (fs : List (List ℕ))
    → All NonEmpty fs
    → need ≤ length (stream fs)
    → need ≤ fuel
    → Reads need fs (read_capped last fuel need fs)
unfolding read_capped
read_capped-Reads last fuel zero fs h hn hf = (fs, refl, refl, h)
read_capped-Reads last zero (suc need) fs h hn hf = absurd (omega arith)
read_capped-Reads last (suc fuel) (suc need) [] h hn hf = absurd (omega arith)
read_capped-Reads last (suc fuel) (suc need) ([] ∷ fs) h hn hf = absurd (omega (arith, h.0))
read_capped-Reads last (suc fuel) (suc need) ((b ∷ bs) ∷ fs) h hn hf =
    let m = min last need in
    let fits : m ≤ need = omega arith in
    round-Reads m need b bs fs _ fits (
      read_capped-Reads last fuel (need - length (take m bs)) (put_back (drop m bs) fs)
        (put_back-NonEmpty (drop m bs) fs h.1) (enough_left m need bs fs (omega arith) fits)
        (omega arith))

-- A `send` that takes all it is given.
abbrev pub TakesAll : Writer → Type 0
TakesAll w = (bytes : List ℕ) → w bytes ≡ some (length bytes)

chunk_sent-whole :
    (chunk : List ℕ) (w : Writer) (next : ℕ → Sending)
    → 0 < length chunk
    → TakesAll w
    → send_chunk chunk w next ≡ after_bytes chunk (next (length chunk))
chunk_sent-whole [] w next h hw = absurd (omega arith)
chunk_sent-whole (b ∷ bs) w next h hw =
    ap (λ n. chunk_sent (b ∷ bs) n next) (hw (b ∷ bs))
    ∙ ap (λ t. after_bytes t (next (suc (length bs))))
        (take_all (suc (length bs)) (b ∷ bs) (omega arith))

-- If every chunk is taken whole, the loop sends the file; as many rounds as bytes are enough.
pub send_content-whole :
    (fuel : ℕ) (w : ℕ → Writer) (i : ℕ) (rest : List ℕ) (left : ℕ)
    → length rest ≡ left
    → left ≤ fuel
    → ((i : ℕ) → TakesAll (w i))
    → send_content fuel w i rest left ≡ sent true rest
unfolding send_content
send_content-whole fuel w i [] zero hl hf hw = refl
send_content-whole fuel w i (b ∷ rest) zero hl hf hw = absurd (omega arith)
send_content-whole zero w i rest (suc left) hl hf hw = absurd (omega arith)
send_content-whole (suc fuel) w i rest (suc left) hl hf hw =
    let m = min 4096 (suc left) in
    let chunk = take m rest in
    let n = length chunk in
    let size : n ≡ m = omega (arith, length-take m rest) in
    chunk_sent-whole chunk (w i) _ (omega arith) (hw i)
    ∙ ap (after_bytes chunk) (
        send_content-whole fuel w (suc i) (drop n rest) (suc left - n)
          (omega (arith, length-drop n rest)) (omega arith) hw)
    ∙ ap (λ k. sent true (chunk ++ drop k rest)) size
    ∙ ap (sent true) (take-append-drop m rest)

-- What a sender that has ended has put on the connection.
abbrev bytes_of : Sending → List ℕ
bytes_of (sent result bytes) = bytes
bytes_of running = []

no_success : {xs ys : List ℕ} → ¬ (sent false xs ≡ sent true ys)
no_success e = ground (arith, e)

after_bytes-sent :
    (bytes all : List ℕ) (s : Sending)
    → after_bytes bytes s ≡ sent true all
    → (more : List ℕ) × (s ≡ sent true more) × (all ≡ bytes ++ more)
after_bytes-sent bytes all (sent true more) h = (more, refl, ap bytes_of (sym h))
after_bytes-sent bytes all (sent false more) h = absurd (no_success h)
after_bytes-sent bytes all running h = ground (arith, h)

sized-sent :
    (w : ℕ → Writer) (content : List ℕ) (r : Bool × List ℕ) (all : List ℕ)
    → ((i : ℕ) → TakesAll (w i))
    → sized w content r ≡ sent true all
    → (r.0 ≡ true) × (all ≡ r.1 ++ content)
unfolding sized
sized-sent w content (false, bytes) all hw h = absurd (no_success h)
sized-sent w content (true, bytes) all hw h = (
  refl,
  ap bytes_of (
      sym h
      ∙ ap (after_bytes bytes)
          (send_content-whole (length content) w 0 content (length content) refl (omega arith) hw)),
)

pub send_sized-sent :
    (link : Link) (content all : List ℕ)
    → length content < 4294967296
    → ((i : ℕ) → TakesAll (link.chunk i))
    → send_sized link content ≡ sent true all
    → all ≡ be32 (length content) ++ content
unfolding send_sized
send_sized-sent link content all small hw h =
    let size = be32 (length content % 2 ^ 32) in
    let (took, both) = sized-sent link.chunk content (written size (link.size size)) all hw h in
    both
    ∙ ap (λ b. b ++ content) (written-true size (link.size size) took)
    ∙ ap (λ n. be32 n ++ content) (omega arith)

module _ {ℓ} {J : Type ℓ} (c : Cjson J) (link : Link) where
  after_metadata-sent :
      (m : ProtocolStatus × List ℕ) (content all : List ℕ)
      → after_metadata c link m (some content) ≡ sent true all
      → (more : List ℕ) × (m.0 ≡ ok)
        × (send_sized link content ≡ sent true more)
        × (all ≡ m.1 ++ more)
  unfolding after_metadata
  after_metadata-sent (ok, bytes) content all h =
      let (more, ends, both) = after_bytes-sent bytes all (send_sized link content) h in
      (more, refl, ends, both)
  after_metadata-sent (err, bytes) content all h = absurd (no_success h)
  after_metadata-sent (conn_closed, bytes) content all h = absurd (no_success h)

-- What a message of these items is: the text that cJSON prints for it and parses back, and the items
-- that are found in it.
pub record Carries {ℓ} {J : Type ℓ} (c : Cjson J) (items : List (CString × JsonItem))
    (text : CString) : Type ℓ where
  pub prints : c.print (c.object items) ≡ some text
  pub is_text : IsText c.parse (c.object items) text
  pub finds : (key : CString) → c.item (c.object items) key ≡ find_item key items

-- A message and a file whose sender reports success, no chunk being sent in part, are on the
-- connection one after the other.
pub message_and_file {ℓ} :
    {J : Type ℓ} (c : Cjson J) (link : Link) (items : List (CString × JsonItem))
    (text content all : List ℕ)
    → Carries c items text
    → length content < 4294967296
    → ((i : ℕ) → TakesAll (link.chunk i))
    → after_metadata c link (send_message c link items) (some content) ≡ sent true all
    → all ≡ (be32 (length text) ++ text) ++ (be32 (length content) ++ content)
unfolding send_message
message_and_file c link items text content all k small hw h =
    let m = send_message c link items in
    let (more, is_ok, ends, both) = after_metadata-sent c link m content all h in
    let framed =
      send_json-ok c.print (c.object items) text link.header link.payload m.1 k.prints
        k.is_text.bounded (ap (λ s. (s, m.1)) is_ok) in
    both
    ∙ ap (λ b. b ++ more) framed
    ∙ ap ((be32 (length text) ++ text) ++◌) (send_sized-sent link content more small hw ends)
