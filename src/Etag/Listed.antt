-- ===== src/Etag/Listed.antt =====
-- etag.c: a list of tags in the text that a request header has, and the search for a tag in it.
use lighttpd_multithread.Base.{
  ◌≡◌, refl, ◌∙◌, Bool, true, false, not, ◌||◌, List, [], ◌∷◌, ◌++◌, if◌then◌else◌, ok,
}
use lighttpd_multithread.Base.Memory.{Bytes}
use lighttpd_multithread.Etag.{start, check, tail, etag_loop}
use lighttpd_multithread.Etag.Matching.{
  IsPlain, Likeness, same, shorter, other, likeness, skip_lem, checked, check_lem,
}

pub record Tag : Type 0 where
  pub weak : Bool
  pub text : Bytes

-- A tag, and the bytes behind it.
abbrev pub with_tag : Bool → Bytes → Bytes → Bytes
with_tag true text rest = b'W' ∷ b'/' ∷ b'"' ∷ (text ++ (b'"' ∷ rest))
with_tag false text rest = b'"' ∷ (text ++ (b'"' ∷ rest))

abbrev pub tag_bytes : Tag → Bytes
tag_bytes tag = with_tag tag.weak tag.text []

-- What stands behind the first tag, with the 0.
abbrev pub more_tags : List Tag → Bytes
more_tags [] = 0 ∷ []
more_tags (t ∷ l) = b',' ∷ b' ' ∷ with_tag t.weak t.text (more_tags l)

abbrev pub tag_list : List Tag → Bytes
tag_list [] = 0 ∷ []
tag_list (t ∷ l) = with_tag t.weak t.text (more_tags l)

abbrev pub ArePlain : List Tag → Type 0
ArePlain [] = Unit
ArePlain (t ∷ l) = IsPlain t.text × ArePlain l

-- A weak tag counts only where the caller allows it.
abbrev pub counts : Bool → Tag → Bool
counts weak_ok tag = weak_ok || not tag.weak

-- What the search answers, on tags instead of characters.
abbrev pub verdict : Likeness → Bool → Bool
verdict same more = true
verdict shorter more = false
verdict other more = more

abbrev pub found : Bytes → Bool → List Tag → Bool
found p weak_ok [] = false
found p weak_ok (t ∷ l) =
    if counts weak_ok t then verdict (likeness t.text p) (found p weak_ok l) else found p weak_ok l

module _ (p spare : Bytes) (g : IsPlain p) where
  abbrev pub tok_start : Bytes
  tok_start = p ++ (b'"' ∷ 0 ∷ spare)

  -- The rest of the list answers, whatever `tok` is.
  abbrev Answers : Bool → Bytes → Bool → Type 0
  Answers weak_ok rest more = (tok : Bytes) → etag_loop tok_start weak_ok tail rest tok ≡ ok more

  checked-verdict :
      (weak_ok : Bool) (k : Likeness) (rest tok : Bytes) (more : Bool)
      → Answers weak_ok rest more
      → checked tok_start weak_ok k rest tok ≡ ok (verdict k more)
  checked-verdict weak_ok same rest tok more a = refl
  checked-verdict weak_ok shorter rest tok more a = refl
  checked-verdict weak_ok other rest tok more a = a tok

  checked_lem :
      (weak_ok : Bool) (t rest : Bytes) (more : Bool)
      → IsPlain t
      → Answers weak_ok rest more
      → etag_loop tok_start weak_ok check (t ++ (b'"' ∷ rest)) tok_start
        ≡ ok (verdict (likeness t p) more)
  checked_lem weak_ok t rest more h a =
      let (tok, e) = check_lem tok_start weak_ok t p rest spare h g in
      e ∙ checked-verdict weak_ok (likeness t p) rest tok more a

  -- One tag, where the loop has come to it.
  tag_lem :
      (weak_ok weak : Bool) (t rest tok : Bytes) (more : Bool)
      → IsPlain t
      → Answers weak_ok rest more
      → etag_loop tok_start weak_ok start (with_tag weak t rest) tok
        ≡ ok (if weak_ok || not weak then verdict (likeness t p) more else more)
  unfolding etag_loop
  tag_lem true true t rest tok more h a = checked_lem true t rest more h a
  tag_lem true false t rest tok more h a = checked_lem true t rest more h a
  tag_lem false false t rest tok more h a = checked_lem false t rest more h a
  tag_lem false true t rest tok more h a = skip_lem tok_start false t rest tok h ∙ a tok

  tail_lem :
      (weak_ok : Bool) (l : List Tag)
      → ArePlain l
      → Answers weak_ok (more_tags l) (found p weak_ok l)
  unfolding etag_loop
  tail_lem weak_ok [] h tok = refl
  tail_lem weak_ok (t ∷ l) h tok =
      let rest = more_tags l in
      let more = found p weak_ok l in
      tag_lem weak_ok t.weak t.text rest tok more h.0 (tail_lem weak_ok l h.1)

  pub list_lem :
      (weak_ok : Bool) (l : List Tag)
      → ArePlain l
      → etag_loop tok_start weak_ok start (tag_list l) [] ≡ ok (found p weak_ok l)
  unfolding etag_loop
  list_lem weak_ok [] h = refl
  list_lem weak_ok (t ∷ l) h =
      let rest = more_tags l in
      let more = found p weak_ok l in
      tag_lem weak_ok t.weak t.text rest [] more h.0 (tail_lem weak_ok l h.1)
