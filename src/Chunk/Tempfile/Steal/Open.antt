-- ===== src/Chunk/Tempfile/Steal/Open.antt =====
-- chunk.c: a file is sent only where the range of its chunk lies within it.
use lighttpd_multithread.Base.{
  ℕ, ◌+◌, ◌-◌, ◌≤◌, ◌≡◌, refl, ◌⊎◌, inl, inr, Bool, true, false, ◌||◌, Option, none, some, List,
  ◌∷◌, ltb, le→leb, ltb→lt, ltb→ge, Bool-cases, Outcome, ok, arith,
}
use lighttpd_multithread.Buffer.{string_bytes}
use lighttpd_multithread.Chunk.{file_chunk, Chunk, Chunkqueue}
use lighttpd_multithread.Chunk.Tempfile.{FileSystem}
use lighttpd_multithread.Chunk.Tempfile.Steal.{
  open_chunk_file, is_in_file, chunkqueue_open_file_chunk,
}

-- A chunk of a file, with its range or a part of it still to be sent.
abbrev pub of_file : Chunk → Chunk
of_file c = record c { type = file_chunk }

-- The range of the chunk lies within a file of this size.
abbrev pub LiesWithin : Chunk → Option ℕ → Type 0
LiesWithin c none = ⊥
LiesWithin c (some size) = c.file_start + c.file_length ≤ size

in_file_lem :
    (fs : FileSystem) (c : Chunk) (size : Option ℕ)
    → c.offset ≤ c.file_length
    → ((is_in_file fs c size ≡ true) × LiesWithin c size)
      ⊎ ((is_in_file fs c size ≡ false) × (LiesWithin c size → ⊥))
unfolding is_in_file
in_file_lem fs c none h = inr (refl, λ e. e)
in_file_lem fs c (some size) h =
    let offset = c.file_start + c.offset in
    let to_send = c.file_length - c.offset in
    elim (Bool-cases (ltb size offset)) [
      | inl x ↦ inr (rw x refl, λ e. omega (arith, ltb→lt _ _ x, e, h))
      | inr x ↦ elim (Bool-cases (ltb size to_send)) [
        | inl y ↦ inr (rw (x, y) refl, λ e. omega (arith, ltb→lt _ _ y, e, h))
        | inr y ↦ elim (Bool-cases (ltb (size - to_send) offset)) [
          | inl z ↦ inr (rw (x, y, z) refl, λ e. omega (arith, ltb→lt _ _ z, ltb→ge _ _ y, e, h))
          | inr z ↦ inl (rw (x, y, z) refl, omega (arith, ltb→ge _ _ z, ltb→ge _ _ y, h))
        ]
      ]
    ]

module _ (fs : FileSystem) where
  -- What the call says of a chunk whose file has the descriptor `n`.
  abbrev pub Checks : Chunk → fs.State → ℕ → Bool → Type 0
  Checks c s n good =
      ((good ≡ true) × ((c.is_temp ≡ true) ⊎ LiesWithin c (fs.fstat_size s n)))
      ⊎ ((good ≡ false) × (c.is_temp ≡ false) × (LiesWithin c (fs.fstat_size s n) → ⊥))

  abbrev pub opened : Chunkqueue → Chunk → List Chunk → ℕ → Chunkqueue
  opened q c cs n = record q { chunks = record c { file_fd = some n } ∷ cs }

  checks_lem :
      (temp : Bool) (c : Chunk) (s : fs.State) (n : ℕ)
      → c.is_temp ≡ temp
      → c.offset ≤ c.file_length
      → Checks c s n (temp || is_in_file fs c (fs.fstat_size s n))
  checks_lem true c s n e h = inl (refl, inl e)
  checks_lem false c s n e h = elim (in_file_lem fs c (fs.fstat_size s n) h) [
    | inl (f, g) ↦ inl (f, inr g)
    | inr (f, g) ↦ inr (f, e, g)
  ]

  -- What the call makes of the answer of `open`.
  abbrev answered :
      Option ℕ → fs.State → Chunkqueue → Chunk → List Chunk → Outcome (fs.State × Chunkqueue × Bool)
  answered fd t q c cs = elim fd [
    | none ↦ ok (t, record q { chunks = c ∷ cs }, false)
    | some n ↦ ok (t, opened q c cs n, c.is_temp || is_in_file fs c (fs.fstat_size t n))
  ]

  -- The file of the chunk cannot be opened: it has no descriptor, and `open` gives none.
  abbrev pub Fails : Chunk → fs.State → fs.State → Type 0
  Fails c s t = (c.file_fd ≡ none) × (fs.open_rdonly s (string_bytes c.file_name) ≡ (t, none))

  -- The chunk has this descriptor already, or `open` gives it.
  abbrev pub Opens : Chunk → fs.State → fs.State → ℕ → Type 0
  Opens c s t n =
      ((c.file_fd ≡ some n) × (t ≡ s))
      ⊎ ((c.file_fd ≡ none) × (fs.open_rdonly s (string_bytes c.file_name) ≡ (t, some n)))

  abbrev Came : Chunk → fs.State → fs.State → Option ℕ → Type 0
  Came c s t none = Fails c s t
  Came c s t (some n) = Opens c s t n

  rdonly-Came :
      (fd : Option ℕ) (c : Chunk) (s t : fs.State)
      → c.file_fd ≡ none
      → fs.open_rdonly s (string_bytes c.file_name) ≡ (t, fd)
      → Came c s t fd
  rdonly-Came none c s t e f = (e, f)
  rdonly-Came (some n) c s t e f = inr (e, f)

  by_descriptor :
      (have : Option ℕ) (c : Chunk) (s : fs.State)
      → c.file_fd ≡ have
      → let p : fs.State × Option ℕ = elim have [
        | none ↦ fs.open_rdonly s (string_bytes c.file_name)
        | some fd ↦ (s, some fd)
      ] in
        Came c s p.0 p.1
  by_descriptor none c s e =
      let (t, fd) = fs.open_rdonly s (string_bytes c.file_name) in rdonly-Came fd c s t e refl
  by_descriptor (some n) c s e = inl (e, refl)

  open_chunk_file-Came :
      (c : Chunk) (s : fs.State) → Came c s (open_chunk_file fs s c).0 (open_chunk_file fs s c).1
  unfolding open_chunk_file
  open_chunk_file-Came c s = by_descriptor c.file_fd c s refl

  answered_lem :
      (fd : Option ℕ) (s t : fs.State) (q : Chunkqueue) (c : Chunk) (cs : List Chunk)
      → c.offset ≤ c.file_length
      → Came c s t fd
      → let o = answered fd t q c cs in
        (Fails c s t × (o ≡ ok (t, record q { chunks = c ∷ cs }, false)))
        ⊎ ((n : ℕ) × (good : Bool) × Opens c s t n
            × (o ≡ ok (t, opened q c cs n, good))
            × Checks c t n good)
  answered_lem none s t q c cs h came = inl (came, refl)
  answered_lem (some n) s t q c cs h came = inr (
    n,
    c.is_temp || is_in_file fs c (fs.fstat_size t n),
    came,
    refl,
    checks_lem c.is_temp c t n refl h,
  )

  -- For a queue that begins with a chunk of a file, of which no more is sent than there is:
  -- chunkqueue_open_file_chunk returns. Either the chunk has no descriptor and `open` gives none, and
  -- the call fails and leaves the queue as it was. Or the chunk has a descriptor, its own or else the
  -- one that `open` gave, and the call succeeds exactly where the file is a temporary one, or the file
  -- has a size and the range of the chunk lies within it.
  pub open_file_chunk-Checks :
      (q : Chunkqueue) (c : Chunk) (cs : List Chunk) (s : fs.State)
      → c.offset ≤ c.file_length
      → let d = of_file c in
        let o = chunkqueue_open_file_chunk fs (record q { chunks = d ∷ cs }) s in
        (t : fs.State) × ((Fails d s t × (o ≡ ok (t, record q { chunks = d ∷ cs }, false)))
          ⊎ ((n : ℕ) × (good : Bool) × Opens d s t n
              × (o ≡ ok (t, opened q d cs n, good))
              × Checks d t n good))
  unfolding chunkqueue_open_file_chunk open_chunk_file
  open_file_chunk-Checks q c cs s h =
      let d = of_file c in
      let (t, fd) = open_chunk_file fs s d in
      (
        t,
        rw (le→leb c.offset c.file_length h)
            (answered_lem fd s t q d cs h (open_chunk_file-Came d s)),
      )
