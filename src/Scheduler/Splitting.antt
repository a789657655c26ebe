-- ===== src/Scheduler/Splitting.antt =====
-- `create_chunks` as a partition of the input file.
use e19_4yp_voluntary_comput.Prelude.{
  get_elem?, some, Option, ℕ, zero, suc, ◌+◌, ◌-◌, ◌*◌, ◌/◌, ◌%◌, ◌^◌, ◌≤◌, ◌<◌, min, ◌≡◌, refl,
  sym, ap, ◌∙◌, inl, inr, List, [], ◌∷◌, ◌++◌, append-nil, append_assoc, arith, ltb, ltb→lt, lt→ltb,
  Bool-cases, length, length-append, CString,
}
use e19_4yp_voluntary_comput.Prelude.Int.{ℤ, pos}
use e19_4yp_voluntary_comput.Scheduler.{
  set_chunked, find_task, create_chunks, TaskDescriptor, Scheduler, ChunkInfo, max_chunks,
  make_chunk, make_chunks, size_of_chunk, size_mod, total_chunks_of,
}

-- The rounded-up quotient that `create_chunks` computes, where nothing wraps.
abbrev pub chunks_needed : ℕ → ℕ → ℕ
chunks_needed fs size = (fs + size - 1) / size

quotient_le : (a size : ℕ) → 0 < size → a / size ≤ a
quotient_le a size h = grind arith

total_chunks_of_lem :
    (fs size : ℕ)
    → 0 < size
    → fs + size ≤ 2 ^ 31
    → total_chunks_of fs size ≡ pos (chunks_needed fs size)
unfolding total_chunks_of
total_chunks_of_lem fs size h small =
    let e : (fs + size + size_mod - 1) % size_mod ≡ fs + size - 1 = omega arith in
    rw e (ground (arith, quotient_le (fs + size - 1) size h))

-- The chunks that `n` rounds from `i` on make.
new_chunks : CString → ℕ → ℕ → ℤ → ℕ → ℕ → List ChunkInfo
new_chunks id fs size total zero i = []
new_chunks id fs size total (suc n) i =
    make_chunk id fs size total i ∷ new_chunks id fs size total n (i + 1)

length-new_chunks :
    (id : CString) (fs size : ℕ) (total : ℤ) (n i : ℕ)
    → length (new_chunks id fs size total n i) ≡ n
unfolding new_chunks
length-new_chunks id fs size total zero i = refl
length-new_chunks id fs size total (suc n) i = ap suc (length-new_chunks id fs size total n (i + 1))

make_chunks-room :
    (id : CString) (fs size : ℕ) (total : ℤ) (n i : ℕ) (cs : List ChunkInfo)
    → length cs + n ≤ max_chunks
    → make_chunks id fs size total n i cs ≡ cs ++ new_chunks id fs size total n i
unfolding make_chunks new_chunks
make_chunks-room id fs size total zero i cs h = sym (append-nil cs)
make_chunks-room id fs size total (suc n) i cs h =
    let new = make_chunk id fs size total i in
    rw (lt→ltb (length cs) max_chunks (omega arith), make_chunks)
      (make_chunks-room id fs size total n (i + 1) (cs ++ new ∷ [])
          (omega (arith, length-append cs (new ∷ [])))
        ∙ append_assoc cs (new ∷ []) (new_chunks id fs size total n (i + 1)))

length-make_chunks :
    (id : CString) (fs size : ℕ) (total : ℤ) (n i : ℕ) (cs : List ChunkInfo)
    → length cs ≤ max_chunks
    → length (make_chunks id fs size total n i cs) ≡ min (length cs + n) max_chunks
unfolding make_chunks
length-make_chunks id fs size total zero i cs h = omega arith
length-make_chunks id fs size total (suc n) i cs h =
    let new = make_chunk id fs size total i in
    elim (Bool-cases (ltb (length cs) max_chunks)) [
      | inr full ↦ rw (full, make_chunks) (ground arith)
      | inl room ↦
          rw (room, make_chunks)
            (omega (
              arith,
              ltb→lt (length cs) max_chunks room,
              length-append cs (new ∷ []),
              length-make_chunks id fs size total n (i + 1) (cs ++ new ∷ [])
                  (omega (arith, ltb→lt (length cs) max_chunks room, length-append cs (new ∷ []))),
            ))
    ]

-- Chunks numbered from `i` on that lie end to end from byte `start` to byte `end`; each starts at
-- its number times the chunk size and has at least one byte and at most the chunk size.
abbrev pub Tiles : ℕ → ℕ → ℕ → ℕ → List ChunkInfo → Type 0
Tiles size i start end [] = start ≡ end
Tiles size i start end (c ∷ cs) =
    (c.chunk_index ≡ i)
    × (start ≡ i * size)
    × (0 < c.chunk_size)
    × (c.chunk_size ≤ size)
    × Tiles size (i + 1) (start + c.chunk_size) end cs

last_size :
    (fs size q : ℕ)
    → fs < size_mod
    → q * size < fs
    → size_of_chunk fs size (pos (suc q)) q ≡ fs - q * size
unfolding size_of_chunk
last_size fs size q small h = ground arith

inner_size : (fs size q i : ℕ) → i < q → size_of_chunk fs size (pos (suc q)) i ≡ size
unfolding size_of_chunk
inner_size fs size q i h = ground arith

new_chunks-Tiles :
    (id : CString) (fs size q n i start : ℕ)
    → 0 < size
    → fs < size_mod
    → q * size < fs
    → fs ≤ q * size + size
    → i + n ≡ q
    → start ≡ i * size
    → Tiles size i start fs (new_chunks id fs size (pos (suc q)) (suc n) i)
unfolding new_chunks make_chunk
new_chunks-Tiles id fs size q zero i start p small low high e s =
    let e' : i ≡ q = omega arith in
    let s' : start ≡ q * size = s ∙ ap (λ k. k * size) e' in
    let z : size_of_chunk fs size (pos (suc q)) i ≡ fs - q * size =
      ap (size_of_chunk fs size (pos (suc q))) e' ∙ last_size fs size q small low in
    (refl, s, omega (arith, z), omega (arith, z), omega (arith, z))
new_chunks-Tiles id fs size q (suc n) i start p small low high e s =
    let z : size_of_chunk fs size (pos (suc q)) i ≡ size = inner_size fs size q i (omega arith) in
    (
      refl,
      s,
      omega (arith, z),
      omega (arith, z),
      new_chunks-Tiles id fs size q n (i + 1) _ p small low high (omega arith) (omega (arith, z)),
    )

quotient_bounds : (a d : ℕ) → 0 < d → ((a / d) * d ≤ a) × (a < (a / d) * d + d)
quotient_bounds a d h = omega arith

new_chunks_all :
    (id : CString) (fs size n : ℕ)
    → 0 < size
    → fs < size_mod
    → chunks_needed fs size ≡ n
    → Tiles size 0 0 fs (new_chunks id fs size (pos n) n 0)
unfolding new_chunks
new_chunks_all id fs size zero p small e =
    let (low, high) = quotient_bounds (fs + size - 1) size p in
    let none_needed : (chunks_needed fs size) * size ≡ 0 = ap (λ k. k * size) e ∙ omega arith in
    omega arith
new_chunks_all id fs size (suc q) p small e =
    let (low, high) = quotient_bounds (fs + size - 1) size p in
    let needed : (chunks_needed fs size) * size ≡ q * size + size =
      ap (λ k. k * size) e ∙ omega arith in
    unfold new_chunks in
    new_chunks-Tiles id fs size q q 0 0 p small (omega arith) (omega arith) (omega arith)
      (omega arith)

-- The task that a name finds, and the size of its input file.
pub record Found (s : Scheduler) (stat : CString → Option ℕ) (id : CString) (i fs : ℕ)
    : Type 0 where
  pub task : TaskDescriptor
  pub found : find_task id s.tasks ≡ some i
  pub entry : get_elem? s.tasks i ≡ some task
  pub file : stat task.input_file ≡ some fs

module _ {s : Scheduler} {stat : CString → Option ℕ} {id : CString} {i fs : ℕ} (size : ℕ)
    (f : Found s stat id i fs) (p : 0 < size) (small : fs + size ≤ 2 ^ 31) where
  create_chunks_returns_needed :
      create_chunks s stat (some id) size
      ≡ some (
        pos (chunks_needed fs size),
        record s {
          tasks = set_chunked s.tasks i;
          chunks =
              make_chunks id fs size
                (pos (chunks_needed fs size))
                (chunks_needed fs size)
                0
                s.chunks;
        },
      )
  unfolding create_chunks
  create_chunks_returns_needed =
      let total = total_chunks_of_lem fs size p small in
      ground (arith, f.found, f.entry, f.file, total)

  -- With a positive chunk size, a file and a chunk size that sum to at most 2^31, and room for all
  -- chunks in the table, `create_chunks` appends to the table as many chunks as it returns; they lie
  -- end to end, each starting at its number times the chunk size and none empty or too large, and
  -- cover the file from byte 0 to its size.
  pub create_chunks-Tiles :
      length s.chunks + chunks_needed fs size ≤ max_chunks
      → (new : List ChunkInfo) × (create_chunks s stat (some id) size
          ≡ some (
            pos (length new),
            record s { tasks = set_chunked s.tasks i; chunks = s.chunks ++ new },
          ))
        × Tiles size 0 0 fs new
  create_chunks-Tiles room =
      let n = chunks_needed fs size in
      let new = new_chunks id fs size (pos n) n 0 in
      let len : length new ≡ n = length-new_chunks id fs size (pos n) n 0 in
      let made = make_chunks-room id fs size (pos n) n 0 s.chunks room in
      (
        new,
        rw (len, ← made) create_chunks_returns_needed,
        new_chunks_all id fs size n p (omega arith) refl,
      )

  -- Where the table has no room for all chunks, `create_chunks` still returns the number of chunks
  -- that the file needs, but only fills the table up to its 1000 entries.
  pub create_chunks_truncates :
      length s.chunks ≤ max_chunks
      → max_chunks < length s.chunks + chunks_needed fs size
      → (s' : Scheduler) × (create_chunks s stat (some id) size
          ≡ some (pos (chunks_needed fs size), s'))
        × (length s'.chunks ≡ max_chunks)
  create_chunks_truncates fits full =
      let n = chunks_needed fs size in
      (
        _,
        create_chunks_returns_needed,
        omega (arith, length-make_chunks id fs size (pos n) n 0 s.chunks fits),
      )
