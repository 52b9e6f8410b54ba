-- ===== src/Connections/Places.antt =====
-- connections.c: the place that the search finds is within the chunks.
use lighttpd_multithread.Base.{
  ℕ, zero, suc, ◌+◌, ◌≤◌, ◌≡◌, inl, inr, Option, none, some, List, [], ◌∷◌, ◌==◌, Bool-cases,
  length, arith,
}
use lighttpd_multithread.Base.Memory.{Bytes}
use lighttpd_multithread.Connections.{
  Place, option_next, match_end, match_lf, Found, jumped, broken, unfound, jump_or, after_lf,
  search_chunk, search_chunks, or_before,
}
use lighttpd_multithread.Connections.Take.{InChunks}

-- A place that the search finds is within the chunks, the first of which has `n` bytes.
abbrev InPart : ℕ → List Bytes → ℕ → ℕ → Type 0
InPart n rest zero j = j ≤ n
InPart n rest (suc k) j = InChunks rest k j

abbrev AtPlace : ℕ → List Bytes → Option Place → Type 0
AtPlace n rest none = Unit
AtPlace n rest (some p) = InPart n rest p.chunk p.offset

abbrev AtFound : ℕ → List Bytes → Found → Type 0
AtFound n rest (jumped p) = InPart n rest p.chunk p.offset
AtFound n rest (broken p) = InPart n rest p.chunk p.offset
AtFound n rest unfound = Unit

InPart-InChunks :
    (b : Bytes) (rest : List Bytes) (k j : ℕ) → InPart (length b) rest k j → InChunks (b ∷ rest) k j
InPart-InChunks b rest zero j h = h
InPart-InChunks b rest (suc k) j h = h

AtPlace-next :
    (n : ℕ) (b : Bytes) (rest : List Bytes) (o : Option Place)
    → AtPlace (length b) rest o
    → AtPlace n (b ∷ rest) (option_next o)
AtPlace-next n b rest none h = tt
AtPlace-next n b rest (some p) h = InPart-InChunks b rest p.chunk p.offset h

match_end-AtPlace :
    (p b : Bytes) (rest : List Bytes) (n j : ℕ)
    → j + length b ≡ n
    → AtPlace n rest (match_end p b rest j)
unfolding match_end
match_end-AtPlace [] b rest n j h = omega (arith, h)
match_end-AtPlace (x ∷ p) (ch ∷ b) rest n j h = elim (Bool-cases (ch == x)) [
  | inl e ↦ rw e (match_end-AtPlace p b rest n (j + 1) (omega (arith, h)))
  | inr e ↦ rw e tt
]
match_end-AtPlace (x ∷ p) [] [] n j h = tt
match_end-AtPlace (x ∷ p) [] (b ∷ rest) n j h =
    AtPlace-next n b rest (match_end (x ∷ p) b rest 0)
      (match_end-AtPlace (x ∷ p) b rest (length b) 0 (omega arith))

match_lf-AtPlace : (rest : List Bytes) (n : ℕ) → AtPlace n rest (match_lf rest)
unfolding match_lf
match_lf-AtPlace [] n = tt
match_lf-AtPlace ([] ∷ rest) n = AtPlace-next n [] rest (match_lf rest) (match_lf-AtPlace rest 0)
match_lf-AtPlace ((ch ∷ b) ∷ rest) n = elim (Bool-cases (ch == b'\n')) [
  | inl e ↦ rw e (omega arith)
  | inr e ↦ rw e tt
]

jump_or-AtFound :
    (n : ℕ) (rest : List Bytes) (o : Option Place) (more : Found)
    → AtPlace n rest o
    → AtFound n rest more
    → AtFound n rest (jump_or o more)
unfolding jump_or
jump_or-AtFound n rest none more h m = m
jump_or-AtFound n rest (some p) more h m = h

search_chunk-AtFound :
    (b : Bytes) (rest : List Bytes) (n j : ℕ)
    → j + length b ≡ n
    → AtFound n rest (search_chunk b rest j)
unfolding search_chunk after_lf
search_chunk-AtFound [] rest n j h = tt
search_chunk-AtFound (ch ∷ b) rest n j h =
    let more = search_chunk-AtFound b rest n (j + 1) (omega (arith, h)) in
    let found = search_chunk b rest (j + 1) in
    elim (Bool-cases (ch == b'\r')) [
      | inl cr ↦ rw cr (
          jump_or-AtFound n rest _ found
            (match_end-AtPlace (b'\n' ∷ b'\r' ∷ b'\n' ∷ []) b rest n (j + 1) (omega (arith, h)))
            more)
      | inr not_cr ↦ elim (Bool-cases (ch == b'\n')) [
        | inl lf ↦ rw (not_cr, lf) (behind b (omega (arith, h)) found more)
        | inr not_lf ↦ rw (not_cr, not_lf) more
      ]
    ]
  where
    behind :
        (b : Bytes)
        → j + 1 + length b ≡ n
        → (more : Found) → AtFound n rest more
        → AtFound n rest (after_lf b rest j more)
    behind [] e more m = jump_or-AtFound n rest (match_lf rest) more (match_lf-AtPlace rest n) m
    behind (d ∷ b) e more m = elim (Bool-cases (d == b'\n')) [
      | inl lf ↦ rw lf (omega (arith, e))
      | inr not_lf ↦ rw not_lf m
    ]

-- The places that `search_chunks` finds.
abbrev pub AtSome : List Bytes → Option Place → Type 0
AtSome bs none = Unit
AtSome bs (some p) = InChunks bs p.chunk p.offset

pub search_chunks-AtSome : (bs : List Bytes) → AtSome bs (search_chunks bs)
unfolding search_chunks or_before
search_chunks-AtSome [] = tt
search_chunks-AtSome (b ∷ rest) =
    go (search_chunk b rest 0) (search_chunks rest)
      (search_chunk-AtFound b rest (length b) 0 (omega arith)) (search_chunks-AtSome rest)
  where
    go :
        (f : Found) (o : Option Place)
        → AtFound (length b) rest f
        → AtSome rest o
        → AtSome (b ∷ rest) (elim f [
          | jumped p ↦ some p
          | broken p ↦ or_before (option_next o) p
          | unfound ↦ option_next o
        ])
    go (jumped p) o h m = InPart-InChunks b rest p.chunk p.offset h
    go (broken p) none h m = InPart-InChunks b rest p.chunk p.offset h
    go (broken p) (some q) h m = m
    go unfound none h m = tt
    go unfound (some q) h m = m
