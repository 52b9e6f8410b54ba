-- ===== src/Buffer/Url/InPlace.antt =====
-- Decoding in place writes behind what it reads, so it decodes the string.
use lighttpd_multithread.Base.{
  ℕ, zero, suc, ◌+◌, ◌-◌, ◌<◌, ◌≡◌, refl, sym, ap, ◌∙◌, inl, inr, Bool, true, false, ◌&&◌, [], ◌∷◌,
  ◌++◌, append_assoc, ◌==◌, length, length-append, Outcome, ok, Bool-cases, arith, ==_iff,
}
use lighttpd_multithread.Base.Memory.{Bytes, memcpy, memcpy-append}
use lighttpd_multithread.Buffer.Hex.{hex2int}
use lighttpd_multithread.Buffer.Encode.{byte_at}
use lighttpd_multithread.Buffer.Url.{decoded_byte, decode_in_place}
use lighttpd_multithread.Buffer.Url.Decode.{urldecode, is_hex}
use lighttpd_multithread.Buffer.Url.Steps.{
  memory, read_next, write_next, end_step, plus_step, plain_step, alone_step, broken_step,
  pair_step, decode_end, decode_plus, decode_other, decode_last, decode_last_but_one, decode_broken,
  decode_pair,
}

-- What is written behind `out` is the decoded form of `s`; `n` bytes are left in all.
abbrev pub Decodes : Bool → Bytes → Bytes → ℕ → Outcome (Bytes × ℕ) → Type 0
Decodes q out s n o =
    (tail : Bytes) × (o ≡ ok (out ++ (urldecode q s ++ tail), length out + length (urldecode q s)))
    × (0 < length tail)
    × (length (urldecode q s) + length tail ≡ n)

-- A character decoded to `v`, and then the rest.
extend :
    (q : Bool) (out : Bytes) (v : ℕ) (s s' : Bytes) (n m : ℕ) (o o' : Outcome (Bytes × ℕ))
    → Decodes q (out ++ (v ∷ [])) s' n o
    → urldecode q s ≡ v ∷ urldecode q s'
    → o' ≡ o
    → m ≡ n + 1
    → Decodes q out s m o'
extend q out v s s' n m o o' (tail, e, p, l) f g k =
    let a = append_assoc out (v ∷ []) (urldecode q s' ++ tail) in
    let x : length (out ++ (v ∷ [])) + length (urldecode q s')
        ≡ length out + length (v ∷ urldecode q s') =
      omega (arith, length-append out (v ∷ [])) in
    rw f (tail, g ∙ e ∙ rw (a, x) refl, p, omega arith)

end_Decodes :
    (q : Bool) (fuel : ℕ) (out gap : Bytes) (c : ℕ) (s rest : Bytes) (src dst n : ℕ)
    → src ≡ length out + length gap
    → dst ≡ length out
    → urldecode q s ≡ []
    → (c == 0) ≡ true
    → length gap + length (c ∷ rest) ≡ n
    → Decodes q out s n (decode_in_place q (suc fuel) (memory out gap (c ∷ rest)) src dst)
end_Decodes q fuel out gap c s rest src dst n e f d z l =
    let r = read_next out gap c rest src e in
    let m = memory out gap (c ∷ rest) in
    rw d (
      gap ++ (c ∷ rest),
      end_step q fuel m m src dst c 0 r z ∙ ap (λ (k : ℕ). ok (m, k)) (omega arith),
      omega (arith, length-append gap (c ∷ rest)),
      omega (arith, length-append gap (c ∷ rest)),
    )

abbrev Again : Bool → ℕ → Type 0
Again q fuel =
    (out gap s spare : Bytes) (src dst n : ℕ)
    → length s < fuel
    → src ≡ length out + length gap
    → dst ≡ length out
    → length gap + length s + 1 + length spare ≡ n
    → Decodes q out s n (decode_in_place q fuel (memory out gap (s ++ (0 ∷ spare))) src dst)

read_second :
    (out gap : Bytes) (d e : ℕ) (rest : Bytes) (src : ℕ)
    → src ≡ length out + length gap + 1
    → byte_at (memory out gap (d ∷ e ∷ rest)) src ≡ ok e
read_second out gap d e rest src f =
    let same : memory out (gap ++ (d ∷ [])) (e ∷ rest) ≡ memory out gap (d ∷ e ∷ rest) =
      ap (λ (l : Bytes). out ++ l) (append_assoc gap (d ∷ []) (e ∷ rest)) in
    rw (sym same)
      (read_next out (gap ++ (d ∷ [])) e rest src (omega (arith, length-append gap (d ∷ []))))

-- The '%' is overwritten, and three characters are read.
overwrite :
    (out gap : Bytes) (x v d e : ℕ) (rest : Bytes) (dst : ℕ)
    → dst ≡ length out
    → memcpy (memory (out ++ (x ∷ [])) gap (d ∷ e ∷ rest)) dst (v ∷ [])
      ≡ ok (memory (out ++ (v ∷ [])) (gap ++ (d ∷ e ∷ [])) rest)
overwrite out gap x v d e rest dst f = rw (append_assoc out (x ∷ []) (gap ++ (d ∷ e ∷ rest))) (
    memcpy-append out (x ∷ []) (gap ++ (d ∷ e ∷ rest)) dst (v ∷ []) f refl
    ∙ ap ok (
        sym (append_assoc out (v ∷ []) (gap ++ (d ∷ e ∷ rest)))
        ∙ ap (λ (l : Bytes). (out ++ (v ∷ [])) ++ l) (sym (append_assoc gap (d ∷ e ∷ []) rest))))

module _ (q : Bool) (fuel : ℕ) (again : Again q fuel) (out gap : Bytes) (src dst n : ℕ)
    (at_src : src ≡ length out + length gap) (at_dst : dst ≡ length out) where
  module _ (c v : ℕ) (s spare gap' : Bytes) (o : Outcome (Bytes × ℕ)) (room : length s < fuel)
      (left : length gap + length (c ∷ s) + 1 + length spare ≡ n) where
    one_byte :
        length gap' ≡ length gap
        → urldecode q (c ∷ s) ≡ v ∷ urldecode q s
        → o
          ≡ decode_in_place q fuel
              (memory (out ++ (v ∷ [])) gap' (s ++ (0 ∷ spare)))
              (src + 1)
              (dst + 1)
        → Decodes q out (c ∷ s) n o
    one_byte g d e =
        let a = length-append out (v ∷ []) in
        extend q out v (c ∷ s) s (n - 1) n _ o
          (again (out ++ (v ∷ [])) gap' s spare (src + 1) (dst + 1) (n - 1) room (omega (arith, a))
            (omega (arith, a)) (omega arith))
          d e (omega arith)

  three_bytes :
      (c v d e : ℕ) (s spare gap' : Bytes) (o : Outcome (Bytes × ℕ))
      → length s < fuel
      → length gap + length (c ∷ d ∷ e ∷ s) + 1 + length spare ≡ n
      → length gap' ≡ length gap
      → urldecode q (c ∷ d ∷ e ∷ s) ≡ v ∷ urldecode q s
      → o
        ≡ decode_in_place q fuel
            (memory (out ++ (v ∷ [])) (gap' ++ (d ∷ e ∷ [])) (s ++ (0 ∷ spare)))
            (src + 3)
            (dst + 1)
      → Decodes q out (c ∷ d ∷ e ∷ s) n o
  three_bytes c v d e s spare gap' o room left g f h =
      let a = length-append out (v ∷ []) in
      let b = length-append gap' (d ∷ e ∷ []) in
      extend q out v (c ∷ d ∷ e ∷ s) s (n - 1) n _ o
        (again (out ++ (v ∷ [])) (gap' ++ (d ∷ e ∷ [])) s spare (src + 3) (dst + 1) (n - 1) room
          (omega (arith, a, b)) (omega (arith, a)) (omega (arith, b)))
        f h (omega arith)

terminator_not_hex : (hex2int 0 == 0xff) ≡ true
unfolding hex2int
terminator_not_hex = refl

not_pair_left : (d e : ℕ) → (hex2int d == 0xff) ≡ true → (is_hex d && is_hex e) ≡ false
not_pair_left d e h = rw h refl

not_pair_right :
    (d e : ℕ)
    → (hex2int d == 0xff) ≡ false
    → (hex2int e == 0xff) ≡ true
    → (is_hex d && is_hex e) ≡ false
not_pair_right d e h g = rw (h, g) refl

pair_hex :
    (d e : ℕ)
    → (hex2int d == 0xff) ≡ false
    → (hex2int e == 0xff) ≡ false
    → (is_hex d && is_hex e) ≡ true
pair_hex d e h g = rw (h, g) refl

module _ (q : Bool) (fuel : ℕ) (again : Again q fuel) (out gap : Bytes) (src dst n c : ℕ)
    (at_src : src ≡ length out + length gap) (at_dst : dst ≡ length out) (z : (c == 0) ≡ false)
    (x : (q && c == b'+') ≡ false) (y : (c == b'%') ≡ true) where
  is_percent : b'%' ≡ c
  is_percent = sym ((==_iff c b'%').0 y)

  module _ (s spare : Bytes) (room : length s < fuel)
      (left : length gap + length (c ∷ s) + 1 + length spare ≡ n) where
    abbrev outcome : Bytes → Outcome (Bytes × ℕ)
    outcome rest = decode_in_place q (suc fuel) (memory out gap (c ∷ rest)) src dst

    -- No digit behind the '%'.
    alone-Decodes :
        (d : ℕ) (rest : Bytes)
        → s ++ (0 ∷ spare) ≡ d ∷ rest
        → (hex2int d == 0xff) ≡ true
        → urldecode q (c ∷ s) ≡ c ∷ urldecode q s
        → Decodes q out (c ∷ s) n (outcome (s ++ (0 ∷ spare)))
    alone-Decodes d rest f h u =
        let (gap', w, g) = write_next out gap c (d ∷ rest) b'%' dst at_dst in
        let r = read_next out gap c (d ∷ rest) src at_src in
        let first =
          read_next (out ++ (b'%' ∷ [])) gap' d rest (src + 1)
            (omega (arith, length-append out (b'%' ∷ []))) in
        one_byte q fuel again out gap src dst n at_src at_dst c b'%' s spare gap' _ room left g
          (u ∙ ap (λ (k : ℕ). k ∷ urldecode q s) (sym is_percent))
          (rw f (alone_step q fuel _ _ src dst c d r z x y w first h))

    broken-Decodes :
        (d e : ℕ) (rest : Bytes)
        → s ++ (0 ∷ spare) ≡ d ∷ e ∷ rest
        → (hex2int d == 0xff) ≡ false
        → (hex2int e == 0xff) ≡ true
        → urldecode q (c ∷ s) ≡ c ∷ urldecode q s
        → Decodes q out (c ∷ s) n (outcome (s ++ (0 ∷ spare)))
    broken-Decodes d e rest f h k u =
        let (gap', w, g) = write_next out gap c (d ∷ e ∷ rest) b'%' dst at_dst in
        let r = read_next out gap c (d ∷ e ∷ rest) src at_src in
        let a = length-append out (b'%' ∷ []) in
        let first = read_next (out ++ (b'%' ∷ [])) gap' d (e ∷ rest) (src + 1) (omega (arith, a)) in
        let second = read_second (out ++ (b'%' ∷ [])) gap' d e rest (src + 2) (omega (arith, a)) in
        one_byte q fuel again out gap src dst n at_src at_dst c b'%' s spare gap' _ room left g
          (u ∙ ap (λ (k : ℕ). k ∷ urldecode q s) (sym is_percent))
          (rw f (broken_step q fuel _ _ src dst c d r z x y w first e h second k))

  pair-Decodes :
      (d e : ℕ) (s spare : Bytes)
      → length s < fuel
      → length gap + length (c ∷ d ∷ e ∷ s) + 1 + length spare ≡ n
      → (hex2int d == 0xff) ≡ false
      → (hex2int e == 0xff) ≡ false
      → Decodes q out
          (c ∷ d ∷ e ∷ s)
          n
          (decode_in_place q (suc fuel) (memory out gap (c ∷ d ∷ e ∷ (s ++ (0 ∷ spare)))) src dst)
  pair-Decodes d e s spare room left h k =
      let rest = s ++ (0 ∷ spare) in
      let (gap', w, g) = write_next out gap c (d ∷ e ∷ rest) b'%' dst at_dst in
      let r = read_next out gap c (d ∷ e ∷ rest) src at_src in
      let a = length-append out (b'%' ∷ []) in
      let first = read_next (out ++ (b'%' ∷ [])) gap' d (e ∷ rest) (src + 1) (omega (arith, a)) in
      let second = read_second (out ++ (b'%' ∷ [])) gap' d e rest (src + 2) (omega (arith, a)) in
      let v = decoded_byte (hex2int d) (hex2int e) in
      let again_written = overwrite out gap' b'%' v d e rest dst at_dst in
      three_bytes q fuel again out gap src dst n at_src at_dst c v d e s spare gap' _ room left g
        (decode_pair q c z x y d e s (pair_hex d e h k))
        (pair_step q fuel _ _ src dst c d r z x y w first e _ h second k again_written)

  percent-Decodes :
      (s spare : Bytes)
      → length s < fuel
      → length gap + length (c ∷ s) + 1 + length spare ≡ n
      → Decodes q out
          (c ∷ s)
          n
          (decode_in_place q (suc fuel) (memory out gap (c ∷ (s ++ (0 ∷ spare)))) src dst)
  percent-Decodes [] spare room left =
      alone-Decodes [] spare room left 0 spare refl terminator_not_hex (decode_last q c z x y)
  percent-Decodes (d ∷ []) spare room left =
      let u = decode_last_but_one q c z x y d in
      elim (Bool-cases (hex2int d == 0xff)) [
        | inl h ↦ alone-Decodes (d ∷ []) spare room left d (0 ∷ spare) refl h u
        | inr h ↦ broken-Decodes (d ∷ []) spare room left d 0 spare refl h terminator_not_hex u
      ]
  percent-Decodes (d ∷ e ∷ s) spare room left =
      let rest = s ++ (0 ∷ spare) in
      let u = decode_broken q c z x y d e s in
      elim (Bool-cases (hex2int d == 0xff)) [
        | inl h ↦
            alone-Decodes (d ∷ e ∷ s) spare room left d (e ∷ rest) refl h (u (not_pair_left d e h))
        | inr h ↦ elim (Bool-cases (hex2int e == 0xff)) [
          | inl k ↦
              broken-Decodes (d ∷ e ∷ s) spare room left d e rest refl h k
                (u (not_pair_right d e h k))
          | inr k ↦ pair-Decodes d e s spare (omega arith) left h k
        ]
      ]

round-Decodes : (q : Bool) (fuel : ℕ) → Again q fuel → Again q (suc fuel)
round-Decodes q fuel again out gap [] spare src dst n room e f left =
    end_Decodes q fuel out gap 0 [] spare src dst n e f (unfold urldecode in refl) refl
      (omega arith)
round-Decodes q fuel again out gap (c ∷ s) spare src dst n room e f left =
    let rest = s ++ (0 ∷ spare) in
    let r = read_next out gap c rest src e in
    elim (Bool-cases (c == 0)) [
      | inl z ↦
          end_Decodes q fuel out gap c (c ∷ s) rest src dst n e f (decode_end q c s z) z
            (omega (arith, length-append s (0 ∷ spare)))
      | inr z ↦ elim (Bool-cases (q && c == b'+')) [
        | inl x ↦
            let (gap', w, g) = write_next out gap c rest b' ' dst f in
            one_byte q fuel again out gap src dst n e f c b' ' s spare gap' _ (omega arith) left g
              (decode_plus q c z s x) (plus_step q fuel _ _ src dst c 0 r z x w)
        | inr x ↦ elim (Bool-cases (c == b'%')) [
          | inl y ↦
              percent-Decodes q fuel again out gap src dst n c e f z x y s spare (omega arith) left
          | inr y ↦
              let (gap', w, g) = write_next out gap c rest c dst f in
              one_byte q fuel again out gap src dst n e f c c s spare gap' _ (omega arith) left g
                (decode_other q c z s x y) (plain_step q fuel _ _ src dst c 0 r z x y w)
        ]
      ]
    ]

-- The second loop, from any place on.
pub decode_in_place-Decodes : (q : Bool) (fuel : ℕ) → Again q fuel
decode_in_place-Decodes q zero = λ out gap s spare src dst n room e f left. absurd (omega arith)
decode_in_place-Decodes q (suc fuel) = round-Decodes q fuel (decode_in_place-Decodes q fuel)
