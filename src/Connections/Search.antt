-- ===== src/Connections/Search.antt =====
-- connections.c: the search of the chunks against the search of their joined bytes.
use lighttpd_multithread.Base.{
  ℕ, ◌+◌, ◌≡◌, refl, sym, ap, ◌∙◌, inl, inr, Bool, true, false, ◌||◌, Option, none, some, List, [],
  ◌∷◌, ◌++◌, ◌==◌, if◌then◌else◌, Bool-cases, length, arith,
}
use lighttpd_multithread.Base.Memory.{Bytes}
use lighttpd_multithread.Connections.{
  Place, match_end, match_lf, Found, jumped, broken, unfound, jump_or, after_lf, search_chunk,
}
use lighttpd_multithread.Connections.Header.{
  joined, begins, lf_lf, header_end, bytes_before, position, match_end_lem, match_lf_lem,
}

-- Two '\n' in a row within one chunk, behind which the search goes on.
abbrev pub lf_inside : Bytes → Bool
lf_inside [] = false
lf_inside (c ∷ s) = begins lf_lf (c ∷ s) || lf_inside s

-- What stands behind the first '\r'.
abbrev crlf_behind : Bytes
crlf_behind = b'\n' ∷ b'\r' ∷ b'\n' ∷ []

-- What the search of one chunk of `n` bytes says of the header's end.
abbrev pub Finds : ℕ → List Bytes → Bool → Option ℕ → Found → Type 0
Finds n rest inside end (jumped p) = end ≡ some (bytes_before n rest p.chunk p.offset)
Finds n rest inside end (broken p) =
    (end ≡ some (bytes_before n rest p.chunk p.offset)) × (inside ≡ true)
Finds n rest inside end unfound = end ≡ header_end (joined rest) n

or-true : (a : Bool) → (a || true) ≡ true
or-true true = refl
or-true false = refl

Finds-wider :
    (n : ℕ) (rest : List Bytes) (a b : Bool) (end : Option ℕ) (f : Found)
    → Finds n rest b end f
    → Finds n rest (a || b) end f
Finds-wider n rest a b end (jumped p) h = h
Finds-wider n rest a b end (broken p) h = (h.0, rw h.1 (or-true a))
Finds-wider n rest a b end unfound h = h

Finds-jump_or :
    (n k : ℕ) (rest : List Bytes) (inside t : Bool) (end : Option ℕ) (o : Option Place)
    (more : Found)
    → position n rest o ≡ (if t then some k else none)
    → Finds n rest inside end more
    → Finds n rest inside (if t then some k else end) (jump_or o more)
unfolding jump_or
Finds-jump_or n k rest inside true end none more h m = absurd (none_is h)
  where
    none_is : (none ≡ some k) → ⊥
    none_is e = cc e
Finds-jump_or n k rest inside true end (some p) more h m = sym h
Finds-jump_or n k rest inside false end none more h m = m
Finds-jump_or n k rest inside false end (some p) more h m = absurd (some_is h)
  where
    some_is : (some (bytes_before n rest p.chunk p.offset) ≡ none) → ⊥
    some_is e = cc e

-- Behind a '\n'.
after_lf_lem :
    (b : Bytes) (rest : List Bytes) (n j : ℕ) (more : Found)
    → j + 1 + length b ≡ n
    → Finds n rest (lf_inside b) (header_end (b ++ joined rest) (j + 1)) more
    → Finds n rest
        (begins (b'\n' ∷ []) b || lf_inside b)
        (if begins (b'\n' ∷ []) (b ++ joined rest)
          then some (j + 2)
          else header_end (b ++ joined rest) (j + 1))
        (after_lf b rest j more)
unfolding after_lf
after_lf_lem [] rest n j more h m =
    Finds-jump_or n (j + 2) rest _ (begins (b'\n' ∷ []) (joined rest)) _ (match_lf rest) more
      (match_lf_lem rest n
        ∙ ap (λ (k : ℕ). if begins (b'\n' ∷ []) (joined rest) then some k else none)
            (omega (arith, h)))
      m
after_lf_lem (d ∷ b) rest n j more h m = elim (Bool-cases (d == b'\n')) [
  | inl e ↦ rw e (refl, refl)
  | inr e ↦ rw e (rw e at m)
]

pub search_chunk_lem :
    (b : Bytes) (rest : List Bytes) (n j : ℕ)
    → j + length b ≡ n
    → Finds n rest (lf_inside b) (header_end (b ++ joined rest) j) (search_chunk b rest j)
unfolding search_chunk
search_chunk_lem [] rest n j h = ap (header_end (joined rest)) (omega (arith, h))
search_chunk_lem (ch ∷ b) rest n j h =
    let more = search_chunk_lem b rest n (j + 1) (omega (arith, h)) in
    elim (Bool-cases (ch == b'\r')) [
      | inl cr ↦
          let not_lf : (ch == b'\n') ≡ false = ground (arith, cr) in
          rw (cr, not_lf)
            (Finds-jump_or n (j + 4) rest _ (begins crlf_behind (b ++ joined rest)) _
              (match_end crlf_behind b rest (j + 1)) (search_chunk b rest (j + 1))
              (match_end_lem crlf_behind b rest n (j + 1) (omega (arith, h))
                ∙ ap (λ (k : ℕ). if begins crlf_behind (b ++ joined rest) then some k else none)
                    (omega arith))
              more)
      | inr not_cr ↦ elim (Bool-cases (ch == b'\n')) [
        | inl lf ↦
            rw (not_cr, lf)
              (after_lf_lem b rest n j (search_chunk b rest (j + 1)) (omega (arith, h)) more)
        | inr not_lf ↦ rw (not_cr, not_lf) more
      ]
    ]
