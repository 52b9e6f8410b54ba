-- ===== src/Tests/Etags.antt =====
-- The tag "ab" in lists of tags.
use lighttpd_multithread.Base.{
  ℕ, ◌≡◌, refl, ◌↔◌, Bool, true, false, [], ◌∷◌, ◌++◌, List, ok, arith, ap, length,
}
use lighttpd_multithread.Base.Memory.{Bytes}
use lighttpd_multithread.Buffer.{Buffer}
use lighttpd_multithread.Buffer.Hex.{codes}
use lighttpd_multithread.Buffer.Holds.{IsString}
use lighttpd_multithread.Etag.{etag_is_equal}
use lighttpd_multithread.Etag.Matching.{IsPlain}
use lighttpd_multithread.Etag.Listed.{Tag, tag_bytes, tag_list, ArePlain, counts}
use lighttpd_multithread.Etag.Search.{Lists, NoBeginning, etag_is_equal-Lists, etag_is_equal_misses}

abbrev tag : Bytes → Tag
tag s = record { weak = false; text = s }

abbrev own : Tag
own = tag (codes "ab")

abbrev etag : Buffer
etag = record { ptr = codes "\"ab\"" ++ (0 ∷ 9 ∷ []); used = 5 }

etag-IsString : IsString (tag_bytes own) etag
etag-IsString = record { spare = 9 ∷ []; ptr_is = refl; used_is = refl; fits = omega arith }

own-IsPlain : IsPlain own.text
own-IsPlain = (omega arith, omega arith, omega arith, (omega arith, omega arith, omega arith, tt))

abbrev listed : List Tag
listed = tag (codes "b") ∷ own ∷ []

listed-ArePlain : ArePlain listed
listed-ArePlain = ((omega arith, omega arith, omega arith, tt), (own-IsPlain, tt))

listed-NoBeginning : NoBeginning own.text listed
listed-NoBeginning =
    ((λ c q e. ground (arith, head e)), ((λ c q e. ground (arith, ap length e)), tt))
  where
    head : {c d : ℕ} {s t : Bytes} → (c ∷ s ≡ d ∷ t) → c ≡ d
    head e = cc e

etag_is_equal-Lists_example :
    (b : Bool) × (etag_is_equal etag (tag_list listed) true ≡ ok b)
    × ((b ≡ true) ↔ ((counts true own ≡ true) × Lists own.text true listed))
etag_is_equal-Lists_example =
    etag_is_equal-Lists own etag listed true etag-IsString own-IsPlain listed-ArePlain
      listed-NoBeginning

etag_is_equal_misses_example :
    etag_is_equal etag (tag_list (tag (codes "a") ∷ own ∷ [])) true ≡ ok false
etag_is_equal_misses_example =
    etag_is_equal_misses own etag (codes "a") [] b'b' [] true etag-IsString own-IsPlain refl
      ((omega arith, omega arith, omega arith, tt), (own-IsPlain, tt))
