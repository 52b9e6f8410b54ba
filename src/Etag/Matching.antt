-- ===== src/Etag/Matching.antt =====
-- etag.c: which tags of a list are found.
use lighttpd_multithread.Base.{
  ℕ, ◌≡◌, ◌≢◌, refl, sym, ap, inl, inr, Bool, true, false, [], ◌∷◌, ◌++◌, ◌==◌, if◌then◌else◌,
  Bool-cases, ==_iff, Outcome, ok, arith, length,
}
use lighttpd_multithread.Base.Memory.{Bytes}
use lighttpd_multithread.Etag.{check, skip, tail, etag_loop}

-- No quote, no backslash, and no 0.
abbrev pub IsPlain : Bytes → Type 0
IsPlain [] = Unit
IsPlain (c ∷ s) = (c ≢ 0) × (c ≢ b'"') × (c ≢ b'\\') × IsPlain s

-- What the text of a tag in the list is to the text of our tag.
pub data Likeness : Type 0 where
  same shorter other : Likeness

pub likeness : Bytes → Bytes → Likeness
likeness [] [] = same
likeness [] (x ∷ p) = shorter
likeness (c ∷ t) [] = other
likeness (c ∷ t) (x ∷ p) = if x == c then likeness t p else other

-- What the three likenesses mean.
abbrev pub Meaning : Likeness → Bytes → Bytes → Type 0
Meaning same t p = t ≡ p
Meaning shorter t p = (t ≢ p) × ((c : ℕ) × (q : Bytes) × (p ≡ t ++ (c ∷ q)))
Meaning other t p = t ≢ p

[]-≢ : {x : ℕ} {l : Bytes} → ([] ≡ x ∷ l) → ⊥
[]-≢ e = ground (arith, ap length e)

heads : {c x : ℕ} {t p : Bytes} → (c ∷ t ≡ x ∷ p) → (c ≡ x) × (t ≡ p)
heads e = (cc e, cc e)

Meaning-cons :
    (k : Likeness) (c x : ℕ) (t p : Bytes) → x ≡ c → Meaning k t p → Meaning k (c ∷ t) (x ∷ p)
Meaning-cons same c x t p e m = cc (e, m)
Meaning-cons shorter c x t p e m = (λ q. m.0 (heads q).1, (m.1.0, m.1.1, cc (e, m.1.2)))
Meaning-cons other c x t p e m = λ q. m (heads q).1

pub Meaning-likeness : (t p : Bytes) → Meaning (likeness t p) t p
unfolding likeness
Meaning-likeness [] [] = refl
Meaning-likeness [] (x ∷ p) = (λ e. []-≢ e, (x, p, refl))
Meaning-likeness (c ∷ t) [] = λ e. []-≢ (sym e)
Meaning-likeness (c ∷ t) (x ∷ p) = elim (Bool-cases (x == c)) [
  | inl e ↦ rw e (Meaning-cons (likeness t p) c x t p ((==_iff x c).0 e) (Meaning-likeness t p))
  | inr e ↦ rw e (λ q. ground (arith, e, (heads q).0))
]

pub likeness-append : (t q : Bytes) (c : ℕ) → likeness t (t ++ (c ∷ q)) ≡ shorter
unfolding likeness
likeness-append [] q c = refl
likeness-append (x ∷ t) q c = let e : (x == x) ≡ true = ground arith in rw e (likeness-append t q c)

module _ (tok_start : Bytes) (weak_ok : Bool) where
  -- Where two texts differ, the rest of the listed one is skipped.
  pub skip_lem :
      (t rest tok : Bytes)
      → IsPlain t
      → etag_loop tok_start weak_ok skip (t ++ (b'"' ∷ rest)) tok
        ≡ etag_loop tok_start weak_ok tail rest tok
  unfolding etag_loop
  skip_lem [] rest tok h = refl
  skip_lem (c ∷ t) rest tok h =
      let z : (c == 0) ≡ false = ground (arith, h.0) in
      let x : (c == b'\\') ≡ false = ground (arith, h.2) in
      let y : (c == b'"') ≡ false = ground (arith, h.1) in rw (z, x, y) (skip_lem t rest tok h.3)

  -- The loop reads the text of a listed tag, while `p` is what is left of the text of ours.
  abbrev pub checked : Likeness → Bytes → Bytes → Outcome Bool
  checked same rest tok = ok true
  checked shorter rest tok = ok false
  checked other rest tok = etag_loop tok_start weak_ok tail rest tok

  pub check_lem :
      (t p rest spare : Bytes)
      → IsPlain t
      → IsPlain p
      → (tok : Bytes) × (etag_loop tok_start weak_ok check
            (t ++ (b'"' ∷ rest))
            (p ++ (b'"' ∷ 0 ∷ spare))
          ≡ checked (likeness t p) rest tok)
  unfolding etag_loop likeness
  check_lem [] [] rest spare h g = ([], refl)
  check_lem [] (x ∷ []) rest spare h g = ([], refl)
  check_lem [] (x ∷ w ∷ p) rest spare h g =
      ([], let z : (w == 0) ≡ false = ground (arith, g.3.0) in rw z refl)
  check_lem (c ∷ t) [] rest spare h g =
      let z : (c == 0) ≡ false = ground (arith, h.0) in
      let y : (c == b'"') ≡ false = ground (arith, h.1) in
      let y' : (b'"' == c) ≡ false = ground (arith, h.1) in
      let x : (c == b'\\') ≡ false = ground (arith, h.2) in
      (0 ∷ spare, rw (z, x, y, y') (skip_lem t rest (0 ∷ spare) h.3))
  check_lem (c ∷ t) (x ∷ p) rest spare h g =
      let z : (c == 0) ≡ false = ground (arith, h.0) in
      let y : (c == b'"') ≡ false = ground (arith, h.1) in
      let y' : (c == b'\\') ≡ false = ground (arith, h.2) in
      let z' : (x == 0) ≡ false = ground (arith, g.0) in
      elim (Bool-cases (x == c)) [
        | inl e ↦ let (tok, q) = check_lem t p rest spare h.3 g.3 in (tok, rw (z, y, y', z', e) q)
        | inr e ↦ (
          p ++ (b'"' ∷ 0 ∷ spare),
          rw (z, y, y', z', e) (skip_lem t rest (p ++ (b'"' ∷ 0 ∷ spare)) h.3),
        )
      ]
