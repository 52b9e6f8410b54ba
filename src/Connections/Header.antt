-- ===== src/Connections/Header.antt =====
-- connections.c: the end of a header does not depend on how its bytes are split into chunks.
use lighttpd_multithread.Base.{
  ℕ, zero, suc, ◌+◌, ◌≡◌, refl, ap, ◌∙◌, inl, inr, Bool, true, false, ◌&&◌, Option, none, some,
  List, [], ◌∷◌, ◌++◌, ◌==◌, if◌then◌else◌, Bool-cases, length, arith,
}
use lighttpd_multithread.Base.Memory.{Bytes}
use lighttpd_multithread.Connections.{Place, option_next, match_end, match_lf}

abbrev pub joined : List Bytes → Bytes
joined [] = []
joined (b ∷ rest) = b ++ joined rest

abbrev pub begins : Bytes → Bytes → Bool
begins [] s = true
begins (x ∷ p) [] = false
begins (x ∷ p) (c ∷ s) = (c == x) && begins p s

abbrev pub crlf_crlf : Bytes
crlf_crlf = b'\r' ∷ b'\n' ∷ b'\r' ∷ b'\n' ∷ []

abbrev pub lf_lf : Bytes
lf_lf = b'\n' ∷ b'\n' ∷ []

-- The length of a header, with the empty line that ends it.
abbrev pub header_end : Bytes → ℕ → Option ℕ
header_end [] j = none
header_end (c ∷ s) j =
    if begins crlf_crlf (c ∷ s)
    then some (j + 4)
    else if begins lf_lf (c ∷ s)
    then some (j + 2)
    else header_end s (j + 1)

-- How many bytes stand before a place. The first chunk has `n` bytes.
abbrev pub bytes_before : ℕ → List Bytes → ℕ → ℕ → ℕ
bytes_before n rest zero j = j
bytes_before n [] (suc k) j = n + j
bytes_before n (b ∷ rest) (suc k) j = n + bytes_before (length b) rest k j

abbrev pub position : ℕ → List Bytes → Option Place → Option ℕ
position n rest none = none
position n rest (some p) = some (bytes_before n rest p.chunk p.offset)

abbrev pub plus : ℕ → Option ℕ → Option ℕ
plus n none = none
plus n (some k) = some (n + k)

pub position-next :
    (n : ℕ) (b : Bytes) (rest : List Bytes) (o : Option Place)
    → position n (b ∷ rest) (option_next o) ≡ plus n (position (length b) rest o)
position-next n b rest none = refl
position-next n b rest (some p) = refl

plus-if :
    (n j k : ℕ) (t : Bool)
    → n + j ≡ k
    → plus n (if t then some j else none) ≡ (if t then some k else none)
plus-if n j k true h = ap (λ (i : ℕ). some i) h
plus-if n j k false h = refl

pub match_end_lem :
    (p b : Bytes) (rest : List Bytes) (n j : ℕ)
    → j + length b ≡ n
    → position n rest (match_end p b rest j)
      ≡ (if begins p (b ++ joined rest) then some (j + length p) else none)
unfolding match_end
match_end_lem [] b rest n j h = ap (λ (k : ℕ). some k) (omega arith)
match_end_lem (x ∷ p) (ch ∷ b) rest n j h = elim (Bool-cases (ch == x)) [
  | inl e ↦
      let len : j + 1 + length p ≡ j + length (x ∷ p) = omega arith in
      rw e (
        match_end_lem p b rest n (j + 1) (omega (arith, h))
        ∙ ap (λ (k : ℕ). if begins p (b ++ joined rest) then some k else none) len)
  | inr e ↦ rw e refl
]
match_end_lem (x ∷ p) [] [] n j h = refl
match_end_lem (x ∷ p) [] (b ∷ rest) n j h =
    position-next n b rest (match_end (x ∷ p) b rest 0)
    ∙ ap (plus n) (match_end_lem (x ∷ p) b rest (length b) 0 (omega arith))
    ∙ plus-if n (0 + length (x ∷ p)) (j + length (x ∷ p)) (begins (x ∷ p) (b ++ joined rest))
        (omega (arith, h))

pub match_lf_lem :
    (rest : List Bytes) (n : ℕ)
    → position n rest (match_lf rest)
      ≡ (if begins (b'\n' ∷ []) (joined rest) then some (n + 1) else none)
unfolding match_lf
match_lf_lem [] n = refl
match_lf_lem ([] ∷ rest) n =
    position-next n [] rest (match_lf rest)
    ∙ ap (plus n) (match_lf_lem rest 0)
    ∙ plus-if n (0 + 1) (n + 1) (begins (b'\n' ∷ []) (joined rest)) (omega arith)
match_lf_lem ((ch ∷ b) ∷ rest) n = elim (Bool-cases (ch == b'\n')) [
  | inl e ↦ rw e refl
  | inr e ↦ rw e refl
]
