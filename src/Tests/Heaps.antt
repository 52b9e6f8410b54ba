-- ===== src/Tests/Heaps.antt =====
-- An allocator whose new bytes are all 7, and buffers to start from.
use lighttpd_multithread.Base.{
  ℕ, ◌+◌, ◌-◌, ◌≤◌, ◌≡◌, refl, [], ◌∷◌, ◌++◌, length, length-replicate, replicate, inl, inr, arith,
}
use lighttpd_multithread.Base.Memory.{Bytes, Allocator}
use lighttpd_multithread.Buffer.{Buffer}
use lighttpd_multithread.Buffer.Hex.{codes}
use lighttpd_multithread.Buffer.Holds.{IsString, Holds}

abbrev pub sevens : ℕ → Bytes
sevens n = replicate n 7

abbrev pub grown : Bytes → ℕ → Bytes
grown old n = old ++ sevens (n - length old)

pub length-sevens : (n : ℕ) → length (sevens n) ≡ n
length-sevens n = length-replicate {A = ℕ} n 7

pub grown_keeps :
    (old : Bytes) (n : ℕ)
    → length old ≤ n
    → (more : Bytes) × (grown old n ≡ old ++ more) × (length old + length more ≡ n)
grown_keeps old n h = (sevens (n - length old), refl, omega (arith, length-sevens (n - length old)))

abbrev pub heap : Allocator
heap = record {
  malloc = sevens;
  realloc = grown;
  length-malloc = length-sevens;
  realloc_keeps = grown_keeps;
}

-- "ab", with two spare bytes.
abbrev pub ab : Buffer
ab = record { ptr = codes "ab" ++ (0 ∷ 9 ∷ 9 ∷ []); used = 3 }

abbrev pub ab-IsString : IsString (codes "ab") ab
ab-IsString = record { spare = 9 ∷ 9 ∷ []; ptr_is = refl; used_is = refl; fits = omega arith }

abbrev pub ab-Holds : Holds (codes "ab") ab
ab-Holds = inl ab-IsString

abbrev pub unset : Buffer
unset = record { ptr = []; used = 0 }

abbrev pub unset-Holds : Holds [] unset
unset-Holds = inr (record { unused = refl; fits = omega arith }, refl)
