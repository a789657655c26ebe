-- ===== src/Scheduler/Dispatch.antt =====
-- Handing out chunks: `get_next_chunk`, `assign_chunk`, `mark_chunk_completed` and
-- `get_chunk_status` work together where the chunks' names are distinct.
use e19_4yp_voluntary_comput.Prelude.{
  not, ◌&&◌, ◌+◌, ℕ, suc, ◌≡◌, refl, sym, ap, ◌∙◌, ◌≢◌, inl, inr, Bool, true, false, ◌||◌, some,
  List, [], ◌∷◌, arith, Bool-cases, length, count, find?, update_first, length-update_first,
  CString, str_eq, str_eq_iff, str_eq_refl, fit,
}
use e19_4yp_voluntary_comput.Scheduler.{
  get_chunk_status, mark_chunk_completed, ChunkInfo, Scheduler, done, is_empty, is_available,
  get_next_chunk, at_chunk, assign_chunk,
}

abbrev pub has_chunk : CString → List ChunkInfo → Bool
has_chunk id [] = false
has_chunk id (c ∷ cs) = str_eq c.chunk_id id || has_chunk id cs

abbrev pub DistinctChunks : List ChunkInfo → Type 0
DistinctChunks [] = Unit
DistinctChunks (c ∷ cs) = (has_chunk c.chunk_id cs ≡ false) × DistinctChunks cs

-- A chunk that a test finds in the table is there under its name.
find?-has_chunk :
    (p : ChunkInfo → Bool) (cs : List ChunkInfo) (c : ChunkInfo)
    → find? p cs ≡ some c
    → (has_chunk c.chunk_id cs ≡ true) × (p c ≡ true)
find?-has_chunk p [] c e = cc
find?-has_chunk p (d ∷ cs) c e = elim (Bool-cases (p d)) [
  | inl hit ↦
      let e' : d ≡ c = ground arith in
      (
        ground (
          arith,
          ap (λ (k : ChunkInfo). str_eq k.chunk_id c.chunk_id) e',
          str_eq_refl c.chunk_id,
        ),
        ap p (sym e') ∙ hit,
      )
  | inr miss ↦ let (has, passes) = find?-has_chunk p cs c (ground arith) in (ground arith, passes)
]

-- Where names are distinct, the write by name goes to the chunk that the test found.
at_chunk-found :
    (p : ChunkInfo → Bool) (f : ChunkInfo → ChunkInfo) (cs : List ChunkInfo) (c : ChunkInfo)
    → DistinctChunks cs
    → find? p cs ≡ some c
    → at_chunk c.chunk_id f cs ≡ some (update_first p f cs)
unfolding at_chunk
at_chunk-found p f [] c d e = cc
at_chunk-found p f (x ∷ cs) c d e = elim (Bool-cases (p x)) [
  | inl hit ↦
      let e' : x ≡ c = ground arith in
      ground
        (arith, ap (λ (k : ChunkInfo). str_eq k.chunk_id c.chunk_id) e', str_eq_refl c.chunk_id)
  | inr miss ↦
      let found : find? p cs ≡ some c = ground arith in
      let (has, passes) = find?-has_chunk p cs c found in
      elim (Bool-cases (str_eq x.chunk_id c.chunk_id)) [
        | inl same ↦ cc (d.0, has, ap (λ k. has_chunk k cs) ((str_eq_iff _ _).0 same))
        | inr other ↦ ground (arith, at_chunk-found p f cs c d.1 found)
      ]
]

-- A write to the first item that passes a test, after which it passes no more.
count-update_first :
    (p : ChunkInfo → Bool) (f : ChunkInfo → ChunkInfo) (cs : List ChunkInfo) (c : ChunkInfo)
    → ((x : ChunkInfo) → p (f x) ≡ false)
    → find? p cs ≡ some c
    → suc (count p (update_first p f cs)) ≡ count p cs
count-update_first p f [] c h e = cc
count-update_first p f (x ∷ cs) c h e = elim (Bool-cases (p x)) [
  | inl hit ↦ ground (arith, h x)
  | inr miss ↦ ground (arith, count-update_first p f cs c h (ground arith))
]

DistinctChunks-update_first :
    (p : ChunkInfo → Bool) (f : ChunkInfo → ChunkInfo) (cs : List ChunkInfo)
    → ((x : ChunkInfo) → (f x).chunk_id ≡ x.chunk_id)
    → DistinctChunks cs
    → DistinctChunks (update_first p f cs)
DistinctChunks-update_first p f [] h d = tt
DistinctChunks-update_first p f (x ∷ cs) h d = elim (Bool-cases (p x)) [
  | inl hit ↦ rw hit (ap (λ k. has_chunk k cs) (h x) ∙ d.0, d.1)
  | inr miss ↦ rw miss (same x.chunk_id cs ∙ d.0, DistinctChunks-update_first p f cs h d.1)
]
  where
    same :
        (id : CString) (ds : List ChunkInfo) → has_chunk id (update_first p f ds) ≡ has_chunk id ds
    same id [] = refl
    same id (y ∷ ds) = elim (Bool-cases (p y)) [
      | inl hit ↦ rw hit (ap (λ k. str_eq k id || has_chunk id ds) (h y))
      | inr miss ↦ rw miss (ap (λ b. str_eq y.chunk_id id || b) (same id ds))
    ]

is_empty-fit : (id : CString) → id ≢ [] → is_empty (fit 64 id) ≡ false
is_empty-fit [] h = absurd (h refl)
is_empty-fit (c ∷ id) h = refl

-- Where chunk names are distinct, assigning the chunk that `get_next_chunk` gives to an employee
-- with a name that is not empty succeeds, leaves exactly one chunk fewer available, keeps the names
-- distinct and loses no chunk.
pub assign_next_chunk :
    (s : Scheduler) (c : ChunkInfo) (employee : CString) (now : ℕ)
    → DistinctChunks s.chunks
    → get_next_chunk s ≡ some c
    → employee ≢ []
    → let (status, s') = assign_chunk s (some c.chunk_id) (some employee) now in
      (status ≡ done)
      × (suc (count is_available s'.chunks) ≡ count is_available s.chunks)
      × DistinctChunks s'.chunks
      × (length s'.chunks ≡ length s.chunks)
unfolding get_next_chunk assign_chunk
assign_next_chunk s c employee now d e named =
    let f : ChunkInfo → ChunkInfo =
      λ x. record x { assigned_employee = fit 64 employee; assigned_time = now } in
    rw (at_chunk-found is_available f s.chunks c d e) (
      refl,
      count-update_first is_available f s.chunks c
          (λ x. ground (arith, is_empty-fit employee named)) e,
      DistinctChunks-update_first is_available f s.chunks (λ x. refl) d,
      length-update_first is_available f s.chunks,
    )

abbrev pub bit : Bool → ℕ
bit true = 1
bit false = 0

at_chunk-find? :
    (id : CString) (f : ChunkInfo → ChunkInfo) (cs : List ChunkInfo) (c : ChunkInfo)
    → find? (λ x. str_eq x.chunk_id id) cs ≡ some c
    → at_chunk id f cs ≡ some (update_first (λ x. str_eq x.chunk_id id) f cs)
unfolding at_chunk
at_chunk-find? id f [] c e = cc
at_chunk-find? id f (x ∷ cs) c e = ground (arith, at_chunk-find? id f cs c)

count-update_first_any :
    (p q : ChunkInfo → Bool) (f : ChunkInfo → ChunkInfo) (cs : List ChunkInfo) (c : ChunkInfo)
    → find? q cs ≡ some c
    → count p (update_first q f cs) + bit (p c) ≡ count p cs + bit (p (f c))
count-update_first_any p q f [] c e = cc
count-update_first_any p q f (x ∷ cs) c e = elim (Bool-cases (q x)) [
  | inl hit ↦ let e' : c ≡ x = ground arith in rw (hit, e') (ground arith)
  | inr miss ↦ ground (arith, count-update_first_any p q f cs c (ground arith))
]

-- Reporting a chunk that the table has as completed raises the completed count of its task by one,
-- if it was not completed yet, and changes no other count: no total, and no other task's.
pub mark_chunk_completed_status :
    (s : Scheduler) (id task : CString) (c : ChunkInfo)
    → find? (λ x. str_eq x.chunk_id id) s.chunks ≡ some c
    → let (status, s') = mark_chunk_completed s (some id) in
      let (completed, total) = get_chunk_status s task in
      (status ≡ done)
      × (get_chunk_status s' task
          ≡ (completed + bit (str_eq c.task_id task && not c.is_completed), total))
unfolding mark_chunk_completed get_chunk_status
mark_chunk_completed_status s id task c e =
    let f : ChunkInfo → ChunkInfo = λ x. record x { is_completed = true } in
    let q : ChunkInfo → Bool = λ x. str_eq x.chunk_id id in
    let one =
      count-update_first_any (λ x. str_eq x.task_id task && x.is_completed) q f s.chunks c e in
    let all = count-update_first_any (λ x. str_eq x.task_id task) q f s.chunks c e in
    rw (at_chunk-find? id f s.chunks c e) (refl, ground (arith, one, all))
