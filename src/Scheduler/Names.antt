-- ===== src/Scheduler/Names.antt =====
-- The names of chunks: when they tell the chunks of a task apart, and when they do not.
use e19_4yp_voluntary_comput.Prelude.{
  ◌≢◌, ℕ, ◌≤◌, ◌<◌, ◌≡◌, sym, ◌∙◌, true, some, List, ◌∷◌, ◌++◌, arith, length, take, length-append,
  take_all, CString, codes, str_eq, str_eq_iff, decimal,
}
use e19_4yp_voluntary_comput.Prelude.Int.{ℤ}
use e19_4yp_voluntary_comput.Prelude.Decimal.{
  decimal_injective, length-decimal, append_cancel_left, take-append_le,
}
use e19_4yp_voluntary_comput.Scheduler.{
  ChunkInfo, Scheduler, done, chunk_name, make_chunk, at_chunk, mark_chunk_completed,
}

abbrev infix_text : CString
infix_text = codes "_chunk_"

chunk_name_whole :
    (id : CString) (i : ℕ)
    → length id ≤ 53
    → i < 1000
    → chunk_name id i ≡ (id ++ infix_text) ++ decimal i
unfolding chunk_name
chunk_name_whole id i h small = take_all 63 ((id ++ infix_text) ++ decimal i) (
    omega (
      arith,
      length-append (id ++ infix_text) (decimal i),
      length-append id infix_text,
      length-decimal i 3 small (omega arith),
    ))

-- The chunks of a task whose name has at most 53 bytes have distinct names, as far as the table of
-- 1000 chunks goes.
pub chunk_name_injective :
    (id : CString) (i j : ℕ)
    → length id ≤ 53
    → i < 1000
    → j < 1000
    → i ≢ j
    → chunk_name id i ≢ chunk_name id j
chunk_name_injective id i j h hi hj ne e = ne (
    decimal_injective i j (
      append_cancel_left (id ++ infix_text) (decimal i) (decimal j)
        (sym (chunk_name_whole id i h hi) ∙ e ∙ chunk_name_whole id j h hj)))

-- From 56 bytes on the array of 64 bytes cuts the number off.
chunk_name_cut :
    (id : CString) (i : ℕ) → 56 ≤ length id → chunk_name id i ≡ take 63 (id ++ infix_text)
unfolding chunk_name
chunk_name_cut id i h =
    take-append_le 63 (id ++ infix_text) (decimal i) (omega (arith, length-append id infix_text))

-- If a task's name has 56 bytes or more and its chunk 0 stands first in the table, reporting any of
-- its chunks as completed, by that chunk's own name, completes chunk 0 and no other.
pub long_name_completes_first :
    (s : Scheduler) (id : CString) (fs size : ℕ) (total : ℤ) (rest : List ChunkInfo) (j : ℕ)
    → 56 ≤ length id
    → s.chunks ≡ make_chunk id fs size total 0 ∷ rest
    → mark_chunk_completed s (some (chunk_name id j)) ≡ (
      done,
      record s { chunks = record (make_chunk id fs size total 0) { is_completed = true } ∷ rest },
    )
unfolding mark_chunk_completed at_chunk make_chunk
long_name_completes_first s id fs size total rest j h e =
    let same : str_eq (chunk_name id 0) (chunk_name id j) ≡ true =
      (str_eq_iff _ _).1 (chunk_name_cut id 0 h ∙ sym (chunk_name_cut id j h)) in
    ground (arith, e, same)
