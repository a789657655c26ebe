-- ===== src/Transfer/Partial.antt =====
-- What the senders of files do when the kernel takes a chunk in part.
use e19_4yp_voluntary_comput.Prelude.{
  length-take, ◌^◌, ◌%◌, append-nil, ◌++◌, take_all, min, ℕ, zero, suc, ◌-◌, ◌≤◌, ◌<◌, ◌≡◌, refl,
  ap, ◌∙◌, true, some, List, [], ◌∷◌, arith, length, take, drop,
}
use e19_4yp_voluntary_comput.Protocol.{be32, Writer, written}
use e19_4yp_voluntary_comput.Transfer.{
  Link, Sending, sent, after_bytes, chunk_sent, send_chunk, send_content, sized, send_sized,
}
use e19_4yp_voluntary_comput.Transfer.Whole.{TakesAll}

drop-short : (m : ℕ) (xs : List ℕ) → length xs ≤ m → drop m xs ≡ []
drop-short zero [] h = refl
drop-short zero (x ∷ xs) h = absurd (omega arith)
drop-short (suc m) [] h = refl
drop-short (suc m) (x ∷ xs) h = drop-short m xs (omega arith)

-- At the end of the file the loop ends, whatever is left to send.
send_content-nil :
    (fuel : ℕ) (w : ℕ → Writer) (i left : ℕ)
    → left ≤ fuel
    → send_content fuel w i [] left ≡ sent true []
unfolding send_content
send_content-nil fuel w i zero h = refl
send_content-nil zero w i (suc left) h = absurd (omega arith)
send_content-nil (suc fuel) w i (suc left) h =
    let m = min 4096 (suc left) in
    let next : List ℕ → ℕ → Sending =
      λ chunk n. send_content fuel w (suc i) (drop (length chunk) []) (suc left - n) in
    ap (λ chunk. send_chunk chunk (w i) (next chunk)) (take_all m [] (omega arith))

send_chunk-part :
    (w : Writer) (chunk : List ℕ) (n : ℕ) (next : ℕ → Sending)
    → w chunk ≡ some (suc n)
    → 0 < length chunk
    → send_chunk chunk w next ≡ after_bytes (take (suc n) chunk) (next (suc n))
send_chunk-part w [] n next h h0 = absurd (omega arith)
send_chunk-part w (b ∷ bs) n next h h0 = ap (λ r. chunk_sent (b ∷ bs) r next) h

-- A file of one chunk.
send_content-part :
    (fuel : ℕ) (w : ℕ → Writer) (content : List ℕ) (n left : ℕ)
    → w 0 content ≡ some (suc n)
    → length content ≡ left
    → 0 < left
    → left ≤ 4096
    → left ≤ fuel
    → send_content fuel w 0 content left ≡ sent true (take (suc n) content)
unfolding send_content
send_content-part fuel w content n zero h hl h0 hm hf = absurd (omega arith)
send_content-part zero w content n (suc left) h hl h0 hm hf = absurd (omega arith)
send_content-part (suc fuel) w content n (suc left) h hl h0 hm hf =
    let next : List ℕ → ℕ → Sending =
      λ chunk k. send_content fuel w 1 (drop (length chunk) content) (suc left - k) in
    let unread : drop (length content) content ≡ [] =
      drop-short (length content) content (omega arith) in
    ap (λ chunk. send_chunk chunk (w 0) (next chunk))
      (take_all (min 4096 (suc left)) content (omega arith))
    ∙ send_chunk-part (w 0) content n (next content) h (omega arith)
    ∙ ap
        (λ rest. after_bytes (take (suc n) content) (send_content fuel w 1 rest (suc left - suc n)))
        unread
    ∙ ap (after_bytes (take (suc n) content))
        (send_content-nil fuel w 1 (suc left - suc n) (omega arith))
    ∙ ap (sent true) (append-nil (take (suc n) content))

-- A file of at most 4096 bytes, where the kernel takes its size whole and only the first part of its
-- bytes: the sender reports success, and has announced the file's size but sent only that part. (The
-- loop then finds the file at its end.)
pub send_sized-part :
    (link : Link) (content : List ℕ) (n : ℕ)
    → length content ≤ 4096
    → TakesAll link.size
    → link.chunk 0 content ≡ some (suc n)
    → suc n < length content
    → (send_sized link content ≡ sent true (be32 (length content) ++ take (suc n) content))
      × (length (take (suc n) content) < length content)
unfolding send_sized sized
send_sized-part link content n hm hw h hn =
    let size = be32 (length content % 2 ^ 32) in
    let same : length content % 2 ^ 32 ≡ length content = omega arith in
    (
      ap (λ r. sized link.chunk content (written size r)) (hw size)
          ∙ ap (after_bytes size) (
              send_content-part (length content) link.chunk content n (length content) h refl
                (omega arith) hm (omega arith))
          ∙ ap (λ k. sent true (be32 k ++ take (suc n) content)) same,
      omega (arith, length-take (suc n) content),
    )
