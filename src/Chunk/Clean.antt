-- ===== src/Chunk/Clean.antt =====
-- chunk.c: counting and clearing a queue, and taking out the chunks that are sent.
use lighttpd_multithread.Base.{
  ℕ, ◌+◌, ◌≡◌, refl, sym, ap, ◌∙◌, inl, inr, true, List, [], ◌∷◌, ◌++◌, ◌==◌, ==_iff, Bool-cases,
  length, length-append, eq_nil_of_length, Outcome, ok, arith,
}
use lighttpd_multithread.Chunk.{
  Chunk, Chunkqueue, remove_finished, chunkqueue_remove_finished_chunks, length_from,
  chunkqueue_length, push_all_unused, chunkqueue_reset, sweep, sweep_all,
  chunkqueue_remove_empty_chunks,
}
use lighttpd_multithread.Chunk.Contents.{
  Octet, chunk_octets, contents, AreChunks, HasUnused, IsQueue, remaining_lem,
}
use lighttpd_multithread.Chunk.Unused.{Keeps, push_unused_lem}

length_from_lem :
    (n : ℕ) (cs : List Chunk) → AreChunks cs → length_from n cs ≡ ok (n + length (contents cs))
unfolding length_from
length_from_lem n [] all = ap ok (omega arith)
length_from_lem n (c ∷ cs) (i, others) = rw (remaining_lem c i) (
    length_from_lem (n + length (chunk_octets c)) cs others
    ∙ ap ok (omega (arith, length-append (chunk_octets c) (contents cs))))

-- `chunkqueue_length` is the number of octets that are still to be sent, and so the difference of
-- the two counters of the queue.
pub chunkqueue_length_lem :
    (q : Chunkqueue)
    → IsQueue q
    → (n : ℕ) × (chunkqueue_length q ≡ ok n)
      × (n ≡ length (contents q.chunks))
      × (q.bytes_in ≡ q.bytes_out + n)
unfolding chunkqueue_length
chunkqueue_length_lem q v = (
  length (contents q.chunks),
  length_from_lem 0 q.chunks v.all_chunks ∙ ap ok (omega arith),
  refl,
  v.balance,
)

push_all_lem :
    (q : Chunkqueue) (cs : List Chunk)
    → HasUnused q.unused q.unused_chunks
    → AreChunks cs
    → (r : Chunkqueue) × (push_all_unused q cs ≡ ok r) × Keeps q r
unfolding push_all_unused
push_all_lem q [] u all =
    (q, refl, record { same_chunks = refl; same_in = refl; same_out = refl; has_unused = u })
push_all_lem q (c ∷ cs) u (i, others) =
    let (s, e, k) = push_unused_lem q c u i in
    let (r, f, j) = push_all_lem s cs k.has_unused others in
    (
      r,
      rw e f,
      record {
        same_chunks = j.same_chunks ∙ k.same_chunks;
        same_in = j.same_in ∙ k.same_in;
        same_out = j.same_out ∙ k.same_out;
        has_unused = j.has_unused;
      },
    )

-- `chunkqueue_reset` leaves an empty, valid queue that has counted nothing.
pub chunkqueue_reset_lem :
    (q : Chunkqueue)
    → IsQueue q
    → (r : Chunkqueue) × (chunkqueue_reset q ≡ ok r)
      × IsQueue r
      × (r.chunks ≡ [])
      × (r.bytes_in ≡ 0)
unfolding chunkqueue_reset
chunkqueue_reset_lem q v =
    let (s, e, k) = push_all_lem (record q { chunks = [] }) q.chunks v.has_unused v.all_chunks in
    (
      record s { bytes_in = 0; bytes_out = 0; tempdir_idx = 0 },
      rw e refl,
      record {
        all_chunks = rw k.same_chunks tt;
        has_unused = k.has_unused;
        balance = omega (
          arith,
          ap contents k.same_chunks,
          ap (λ (cs : List Chunk). length (contents cs)) k.same_chunks,
        );
      },
      k.same_chunks,
      refl,
    )

-- A call that takes out chunks, none of which had anything left to send.
abbrev Cleans : List Chunk → Chunkqueue → Outcome Chunkqueue → Type 0
Cleans cs q o =
    (r : Chunkqueue) × (o ≡ ok r)
    × AreChunks r.chunks
    × HasUnused r.unused r.unused_chunks
    × (contents r.chunks ≡ contents cs)
    × (r.bytes_in ≡ q.bytes_in)
    × (r.bytes_out ≡ q.bytes_out)

remove_finished-Cleans :
    (cs : List Chunk) (q : Chunkqueue)
    → AreChunks cs
    → HasUnused q.unused q.unused_chunks
    → Cleans cs q (remove_finished cs q)
unfolding remove_finished
remove_finished-Cleans [] q all u = (record q { chunks = [] }, refl, tt, u, refl, refl, refl)
remove_finished-Cleans (c ∷ cs) q (i, others) u = elim (Bool-cases (length (chunk_octets c) == 0)) [
  | inl finished ↦
      let nothing : chunk_octets c ≡ [] =
        eq_nil_of_length (chunk_octets c) ((==_iff _ 0).0 finished) in
      let (s, e, k) = push_unused_lem q c u i in
      let (r, f, all, w, g, n, m) = remove_finished-Cleans cs s others k.has_unused in
      (
        r,
        rw (remaining_lem c i, finished, e) f,
        all,
        w,
        g ∙ ap (λ (xs : List Octet). xs ++ contents cs) (sym nothing),
        n ∙ k.same_in,
        m ∙ k.same_out,
      )
  | inr more ↦ (
    record q { chunks = c ∷ cs },
    rw (remaining_lem c i, more) refl,
    (i, others),
    u,
    refl,
    refl,
    refl,
  )
]

-- The loop of `chunkqueue_remove_empty_chunks`.
abbrev Sweeps : List Chunk → Chunkqueue → Outcome (List Chunk × Chunkqueue) → Type 0
Sweeps cs q o =
    (ds : List Chunk) × (r : Chunkqueue) × (o ≡ ok (ds, r))
    × AreChunks ds
    × HasUnused r.unused r.unused_chunks
    × (contents ds ≡ contents cs)
    × (r.bytes_in ≡ q.bytes_in)
    × (r.bytes_out ≡ q.bytes_out)

without_empty :
    (c e : Chunk) (cs : List Chunk)
    → (length (chunk_octets e) == 0) ≡ true
    → contents (c ∷ cs) ≡ contents (c ∷ e ∷ cs)
without_empty c e cs h =
    let nothing : chunk_octets e ≡ [] = eq_nil_of_length (chunk_octets e) ((==_iff _ 0).0 h) in
    ap (λ (xs : List Octet). chunk_octets c ++ (xs ++ contents cs)) (sym nothing)

sweep-Sweeps :
    (c : Chunk) (cs : List Chunk) (q : Chunkqueue)
    → AreChunks (c ∷ cs)
    → HasUnused q.unused q.unused_chunks
    → Sweeps (c ∷ cs) q (sweep c cs q)
unfolding sweep
sweep-Sweeps c [] q all u = (c ∷ [], q, refl, all, u, refl, refl, refl)
sweep-Sweeps c (e ∷ []) q (i, (j, others)) u = elim (Bool-cases (length (chunk_octets e) == 0)) [
  | inl empty ↦
      let (s, f, k) = push_unused_lem q e u j in
      (
        c ∷ [],
        s,
        rw (remaining_lem e j, empty, f) refl,
        (i, tt),
        k.has_unused,
        without_empty c e [] empty,
        k.same_in,
        k.same_out,
      )
  | inr more ↦ (c ∷ e ∷ [], q, rw (remaining_lem e j, more) refl, (i, (j, tt)), u, refl, refl, refl)
]
sweep-Sweeps c (e ∷ d ∷ cs) q (i, (j, others)) u =
    elim (Bool-cases (length (chunk_octets e) == 0)) [
      | inl empty ↦
          let (s, f, k) = push_unused_lem q e u j in
          let (ds, r, g, all, w, h, n, m) = sweep-Sweeps d cs s others k.has_unused in
          (
            c ∷ ds,
            r,
            rw (remaining_lem e j, empty, f, g) refl,
            (i, all),
            w,
            ap (λ (xs : List Octet). chunk_octets c ++ xs) h ∙ without_empty c e (d ∷ cs) empty,
            n ∙ k.same_in,
            m ∙ k.same_out,
          )
      | inr more ↦
          let (ds, r, g, all, w, h, n, m) = sweep-Sweeps e (d ∷ cs) q (j, others) u in
          (
            c ∷ ds,
            r,
            rw (remaining_lem e j, more, g) refl,
            (i, all),
            w,
            ap (λ (xs : List Octet). chunk_octets c ++ xs) h,
            n,
            m,
          )
    ]

sweep_all-Cleans :
    (cs : List Chunk) (q : Chunkqueue)
    → q.chunks ≡ cs
    → AreChunks cs
    → HasUnused q.unused q.unused_chunks
    → Cleans cs q (sweep_all cs q)
unfolding sweep_all
sweep_all-Cleans [] q e all u = (q, refl, rw e tt, u, ap contents e, refl, refl)
sweep_all-Cleans (c ∷ cs) q e all u =
    let (ds, r, g, all', w, h, n, m) = sweep-Sweeps c cs q all u in
    (record r { chunks = ds }, rw g refl, all', w, h, n, m)

-- On a valid queue chunkqueue_remove_empty_chunks returns, and the queue is valid and holds the same
-- octets, with as many counted as sent.
pub remove_empty_chunks_lem :
    (q : Chunkqueue)
    → IsQueue q
    → (r : Chunkqueue) × (chunkqueue_remove_empty_chunks q ≡ ok r)
      × IsQueue r
      × (contents r.chunks ≡ contents q.chunks)
      × (r.bytes_out ≡ q.bytes_out)
unfolding chunkqueue_remove_empty_chunks chunkqueue_remove_finished_chunks
remove_empty_chunks_lem q v =
    let (s, e, all, u, f, n, m) = remove_finished-Cleans q.chunks q v.all_chunks v.has_unused in
    let (r, e', all', u', f', n', m') = sweep_all-Cleans s.chunks s refl all u in
    let same = f' ∙ f in
    (
      r,
      rw (e, e') refl,
      record {
        all_chunks = all';
        has_unused = u';
        balance = omega (arith, v.balance, n, m, n', m', ap length same);
      },
      same,
      m' ∙ m,
    )

pub remove_finished_chunks_lem :
    (q : Chunkqueue)
    → IsQueue q
    → (r : Chunkqueue) × (chunkqueue_remove_finished_chunks q ≡ ok r)
      × IsQueue r
      × (contents r.chunks ≡ contents q.chunks)
      × (r.bytes_out ≡ q.bytes_out)
unfolding chunkqueue_remove_finished_chunks
remove_finished_chunks_lem q v =
    let (r, e, all, u, f, n, m) = remove_finished-Cleans q.chunks q v.all_chunks v.has_unused in
    (
      r,
      e,
      record {
        all_chunks = all;
        has_unused = u;
        balance = omega (arith, v.balance, n, m, ap length f);
      },
      f,
      m,
    )
