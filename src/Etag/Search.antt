-- ===== src/Etag/Search.antt =====
-- etag.c: when a tag is found in a list, and when it is missed.
use lighttpd_multithread.Base.{
  ℕ, ◌≤◌, ◌≡◌, ◌≢◌, refl, ap, ◌∙◌, ◌↔◌, ◌⊎◌, inl, inr, Bool, true, false, not, ◌&&◌, ◌||◌, List, [],
  ◌∷◌, none, some, ◌++◌, append_assoc, if◌then◌else◌, ok, ◌>>=◌, arith, length,
}
use lighttpd_multithread.Base.Memory.{Bytes}
use lighttpd_multithread.Buffer.{Buffer, buffer_string_is_empty}
use lighttpd_multithread.Buffer.Holds.{IsString}
use lighttpd_multithread.Etag.{start, etag_loop, tag_text, is_star, etag_is_equal}
use lighttpd_multithread.Etag.Matching.{
  IsPlain, Likeness, same, shorter, other, likeness, Meaning, Meaning-likeness, likeness-append,
}
use lighttpd_multithread.Etag.Listed.{
  Tag, with_tag, tag_bytes, more_tags, tag_list, ArePlain, counts, verdict, found, list_lem,
}

-- A listed tag with this text, which counts.
abbrev pub Lists : Bytes → Bool → List Tag → Type 0
Lists p weak_ok [] = ⊥
Lists p weak_ok (t ∷ l) = ((counts weak_ok t ≡ true) × (t.text ≡ p)) ⊎ Lists p weak_ok l

-- No text in the list is the beginning of a longer `p`.
abbrev pub NoBeginning : Bytes → List Tag → Type 0
NoBeginning p [] = Unit
NoBeginning p (t ∷ l) = ((c : ℕ) (q : Bytes) → p ≢ t.text ++ (c ∷ q)) × NoBeginning p l

verdict_lem :
    (c : Bool) (k : Likeness) (t p : Bytes) (more : Bool) (R : Type 0)
    → Meaning k t p
    → ((x : ℕ) (q : Bytes) → p ≢ t ++ (x ∷ q))
    → (more ≡ true) ↔ R
    → ((if c then verdict k more else more) ≡ true) ↔ (((c ≡ true) × (t ≡ p)) ⊎ R)
verdict_lem false k t p more R m n r =
    ((λ e. inr (r.0 e)), (λ s. elim s [ inl x ↦ ground (arith, x.0) | inr y ↦ r.1 y ]))
verdict_lem true same t p more R m n r = ((λ e. inl (refl, m)), (λ s. refl))
verdict_lem true shorter t p more R m n r = absurd (n m.1.0 m.1.1 m.1.2)
verdict_lem true other t p more R m n r =
    ((λ e. inr (r.0 e)), (λ s. elim s [ inl x ↦ absurd (m x.1) | inr y ↦ r.1 y ]))

pub found-Lists :
    (p : Bytes) (weak_ok : Bool) (l : List Tag)
    → NoBeginning p l
    → (found p weak_ok l ≡ true) ↔ Lists p weak_ok l
found-Lists p weak_ok [] n = ((λ e. ground (arith, e)), absurd)
found-Lists p weak_ok (t ∷ l) n =
    verdict_lem (counts weak_ok t) (likeness t.text p) t.text p (found p weak_ok l)
      (Lists p weak_ok l) (Meaning-likeness t.text p) n.0 (found-Lists p weak_ok l n.1)

own_lem :
    (weak weak_ok : Bool) (text spare : Bytes)
    → tag_text (with_tag weak text [] ++ (0 ∷ spare)) weak_ok
      ≡ ok (if weak_ok || not weak then some (text ++ (b'"' ∷ 0 ∷ spare)) else none)
unfolding tag_text
own_lem true true text spare = rw (append_assoc text (b'"' ∷ []) (0 ∷ spare)) refl
own_lem true false text spare = refl
own_lem false true text spare = rw (append_assoc text (b'"' ∷ []) (0 ∷ spare)) refl
own_lem false false text spare = rw (append_assoc text (b'"' ∷ []) (0 ∷ spare)) refl

star_lem : (l : List Tag) → is_star (tag_list l) ≡ ok false
unfolding is_star
star_lem [] = refl
star_lem (t ∷ l) = go t.weak
  where
    go : (w : Bool) → is_star (with_tag w t.text (more_tags l)) ≡ ok false
    go true = refl
    go false = refl

tag_bytes_length : (weak : Bool) (text : Bytes) → 1 ≤ length (with_tag weak text [])
tag_bytes_length true text = omega arith
tag_bytes_length false text = omega arith

is_empty-IsString :
    (own : Tag) (etag : Buffer)
    → IsString (tag_bytes own) etag
    → buffer_string_is_empty etag ≡ false
unfolding buffer_string_is_empty
is_empty-IsString own etag i = ground (arith, i.used_is, tag_bytes_length own.weak own.text)

-- The search of a list.
pub etag_is_equal_lem :
    (own : Tag) (etag : Buffer) (l : List Tag) (weak_ok : Bool)
    → IsString (tag_bytes own) etag
    → IsPlain own.text
    → ArePlain l
    → etag_is_equal etag (tag_list l) weak_ok ≡ ok (counts weak_ok own && found own.text weak_ok l)
unfolding etag_is_equal
etag_is_equal_lem own etag l weak_ok i g h =
    rw
      (
        star_lem l,
        is_empty-IsString own etag i,
        i.ptr_is,
        own_lem own.weak weak_ok own.text i.spare,
      )
      (search (counts weak_ok own))
  where
    search :
        (c : Bool)
        → (do
          text ← ok (if c then some (own.text ++ (b'"' ∷ 0 ∷ i.spare)) else none)
          elim text [ none ↦ ok false | some tok ↦ etag_loop tok weak_ok start (tag_list l) [] ])
          ≡ ok (c && found own.text weak_ok l)
    search true = list_lem own.text i.spare g weak_ok l h
    search false = refl

-- For tags in quotes whose texts have no quote, backslash or 0, listed with a comma and a space between
-- two of them, and where no listed text is the beginning of the longer text of our tag: etag_is_equal
-- returns, and answers whether our tag and a listed one with the same text both count; a weak tag
-- counts only where weak_ok is set.
pub etag_is_equal-Lists :
    (own : Tag) (etag : Buffer) (l : List Tag) (weak_ok : Bool)
    → IsString (tag_bytes own) etag
    → IsPlain own.text
    → ArePlain l
    → NoBeginning own.text l
    → (b : Bool) × (etag_is_equal etag (tag_list l) weak_ok ≡ ok b)
      × ((b ≡ true) ↔ ((counts weak_ok own ≡ true) × Lists own.text weak_ok l))
etag_is_equal-Lists own etag l weak_ok i g h n =
    (_, etag_is_equal_lem own etag l weak_ok i g h, both (counts weak_ok own))
  where
    both :
        (c : Bool)
        → ((c && found own.text weak_ok l) ≡ true) ↔ ((c ≡ true) × Lists own.text weak_ok l)
    both true =
        let (to, from) = found-Lists own.text weak_ok l n in ((λ e. (refl, to e)), (λ x. from x.1))
    both false = ((λ e. ground (arith, e)), (λ x. x.0))

-- For tags in quotes whose texts have no quote, backslash or 0, listed with a comma and a space between
-- two of them: where the first listed tag is strong and its text is the beginning of the longer text of
-- our tag, and our tag itself is next in the list, etag_is_equal answers no, whatever else is listed.
pub etag_is_equal_misses :
    (own : Tag) (etag : Buffer) (t q : Bytes) (c : ℕ) (l : List Tag) (weak_ok : Bool)
    → IsString (tag_bytes own) etag
    → IsPlain own.text
    → own.text ≡ t ++ (c ∷ q)
    → ArePlain (record { weak = false; text = t } ∷ own ∷ l)
    → etag_is_equal etag (tag_list (record { weak = false; text = t } ∷ own ∷ l)) weak_ok ≡ ok false
etag_is_equal_misses own etag t q c l weak_ok i g e h =
    etag_is_equal_lem own etag (record { weak = false; text = t } ∷ own ∷ l) weak_ok i g h
    ∙ ap ok
        (rw (ap (likeness t) e ∙ likeness-append t q c) (none_found (counts weak_ok own) weak_ok))
  where
    none_found :
        (o w : Bool)
        → (o && (if w || true then false else found own.text weak_ok (own ∷ l))) ≡ false
    none_found true true = refl
    none_found true false = refl
    none_found false w = refl
