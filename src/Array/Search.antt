-- ===== src/Array/Search.antt =====
-- The binary search of `array_get_index` on an array whose index is in order.
use lighttpd_multithread.Base.{
  ℕ, zero, suc, ◌+◌, ◌/◌, ◌≤◌, ◌<◌, ◌≡◌, sym, ap, ◌∙◌, inl, inr, true, false, Option, none, some,
  [], ◌==◌, length, get_elem?, get_or, get_elem?-eq-get_or, Outcome, ok, Bool-cases, arith, le→leb,
}
use lighttpd_multithread.Base.Int.{pos, negsuc, is_zero, is_positive, is_negative, sign}
use lighttpd_multithread.Base.Memory.{Bytes}
use lighttpd_multithread.Buffer.Compare.{
  buffer_caseless_compare, lower, Before, Before-trans, caseless_compare-Decides,
}
use lighttpd_multithread.Array.{
  Entry, Array, key_string, ssize_max, Position, binary_search, array_get_index,
}

module _ {V : Type 0} where
  -- The key of a slot, in lower case.
  abbrev pub slot_key : Option (Entry V) → Bytes
  slot_key none = []
  slot_key (some e) = lower (key_string e.key)

  abbrev pub key_at : Array V → ℕ → Bytes
  key_at a n = slot_key (get_or a.data_slots n none)

  -- The slot and the key at place `i` of the index.
  abbrev pub ndx_at : Array V → ℕ → ℕ
  ndx_at a i = get_or a.sorted i 0

  abbrev pub sorted_key : Array V → ℕ → Bytes
  sorted_key a i = key_at a (ndx_at a i)

  -- The slots below `used` are filled, the index lists each of them once, and it lists them in the
  -- strict order of their keys, upper and lower case being equal.
  pub record IsValid (a : Array V) : Type 0 where
    pub count : length a.sorted ≡ a.used
    pub room : a.used ≤ length a.data_slots
    pub bound : a.used ≤ ssize_max
    pub filled : (n : ℕ) → n < a.used → (e : Entry V) × (get_or a.data_slots n none ≡ some e)
    pub inside : (i : ℕ) → i < a.used → ndx_at a i < a.used
    pub ordered : (i j : ℕ) → i < j → j < a.used → Before (sorted_key a i) (sorted_key a j)
    pub listed : (n : ℕ) → n < a.used → (i : ℕ) × (i < a.used) × (ndx_at a i ≡ n)

  -- The key is at place `r`, or it belongs between the places below `r` and those from `r` on.
  pub data Locates (a : Array V) (k : Bytes) (o : Outcome Position) : Type 0 where
    found :
        (r : ℕ) → r < a.used → o ≡ ok (some (ndx_at a r), r) → sorted_key a r ≡ k → Locates a k o
    missing :
        (r : ℕ)
        → r ≤ a.used
        → o ≡ ok (none, r)
        → ((i : ℕ) → i < r → Before (sorted_key a i) k)
        → ((i : ℕ) → r ≤ i → i < a.used → Before k (sorted_key a i))
        → Locates a k o

  read_probe :
      (a : Array V)
      → IsValid a
      → (p : ℕ) → p < a.used
      → (e : Entry V) × (get_elem? a.sorted p ≡ some (ndx_at a p))
        × (get_elem? a.data_slots (ndx_at a p) ≡ some (some e))
        × (sorted_key a p ≡ lower (key_string e.key))
  read_probe a v p h =
      let (e, f) = v.filled (ndx_at a p) (v.inside p h) in
      (
        e,
        get_elem?-eq-get_or a.sorted p 0 (omega (arith, v.count)),
        get_elem?-eq-get_or a.data_slots (ndx_at a p) none (omega (arith, v.inside p h, v.room))
            ∙ ap some f,
        ap slot_key f,
      )

  below_probe :
      (a : Array V) (k : Bytes) (p : ℕ)
      → IsValid a
      → p < a.used
      → Before (sorted_key a p) k
      → (i : ℕ) → i < p + 1
      → Before (sorted_key a i) k
  below_probe a k p v h b i g = elim (Bool-cases (i == p)) [
    | inl e ↦ let e' : i ≡ p = ground arith in rw e' b
    | inr d ↦ Before-trans (sorted_key a i) (sorted_key a p) k (v.ordered i p (ground arith) h) b
  ]

  above_probe :
      (a : Array V) (k : Bytes) (p : ℕ)
      → IsValid a
      → Before k (sorted_key a p)
      → (i : ℕ) → p ≤ i
      → i < a.used
      → Before k (sorted_key a i)
  above_probe a k p v b i g h = elim (Bool-cases (i == p)) [
    | inl e ↦ let e' : i ≡ p = ground arith in rw e' b
    | inr d ↦ Before-trans k (sorted_key a p) (sorted_key a i) b (v.ordered p i (ground arith) h)
  ]

  -- One round of the loop on a probed entry `e`, by the sign of the comparison.
  module _ (a : Array V) (key : Bytes) (fuel l u ndx : ℕ) (e : Entry V) (ne : (l == u) ≡ false)
      (rs : get_elem? a.sorted ((l + u) / 2) ≡ some ndx)
      (rd : get_elem? a.data_slots ndx ≡ some (some e)) where
    turn_zero :
        buffer_caseless_compare key (key_string e.key) ≡ pos 0
        → binary_search a key (suc fuel) l u ≡ ok (some ndx, (l + u) / 2)
    unfolding binary_search
    turn_zero z = ground arith

    turn_right :
        (n : ℕ)
        → buffer_caseless_compare key (key_string e.key) ≡ pos (suc n)
        → binary_search a key (suc fuel) l u ≡ binary_search a key fuel ((l + u) / 2 + 1) u
    unfolding binary_search
    turn_right n z = ground arith

    turn_left :
        (n : ℕ)
        → buffer_caseless_compare key (key_string e.key) ≡ negsuc n
        → binary_search a key (suc fuel) l u ≡ binary_search a key fuel l ((l + u) / 2)
    unfolding binary_search
    turn_left n z = ground arith

  done :
      (a : Array V) (key : Bytes) (fuel l u : ℕ)
      → (l == u) ≡ true
      → binary_search a key (suc fuel) l u ≡ ok (none, l)
  unfolding binary_search
  done a key fuel l u e = rw e

  binary_search-Locates :
      (a : Array V) (key : Bytes)
      → IsValid a
      → (fuel l u : ℕ) → l ≤ u
      → u ≤ a.used
      → u < fuel + l
      → ((i : ℕ) → i < l → Before (sorted_key a i) (lower key))
      → ((i : ℕ) → u ≤ i → i < a.used → Before (lower key) (sorted_key a i))
      → Locates a (lower key) (binary_search a key fuel l u)
  binary_search-Locates a key v zero l u le room measure below above = absurd (omega arith)
  binary_search-Locates a key v (suc fuel) l u le room measure below above =
      elim (Bool-cases (l == u)) [
        | inl e ↦
            missing l (omega arith) (done a key fuel l u e) below
              (λ i g h. above i (ground arith) h)
        | inr d ↦
            let p = (l + u) / 2 in
            let lt : l < u = ground arith in
            let (e, rs, rd, k) = read_probe a v p (omega arith) in
            let decided = caseless_compare-Decides key (key_string e.key) in
            elim (sign (buffer_caseless_compare key (key_string e.key))) [
              | is_zero z ↦
                  found p (omega arith) (turn_zero a key fuel l u (ndx_at a p) e d rs rd z)
                    (k ∙ sym (rw z at decided))
              | is_positive n z ↦ rw (turn_right a key fuel l u (ndx_at a p) e d rs rd n z) (
                  binary_search-Locates a key v fuel (p + 1) u (omega arith) room (omega arith)
                    (below_probe a (lower key) p v (omega arith) (rw k (rw z at decided))) above)
              | is_negative n z ↦ rw (turn_left a key fuel l u (ndx_at a p) e d rs rd n z) (
                  binary_search-Locates a key v fuel l p (omega arith) (omega arith) (omega arith)
                    below (above_probe a (lower key) p v (rw k (rw z at decided))))
            ]
      ]

  -- On a valid array `array_get_index` returns: with the slot and the place of an entry that has the
  -- key, or with the place where the key belongs, when no entry has it.
  pub array_get_index-Locates :
      (a : Array V) (key : Bytes) → IsValid a → Locates a (lower key) (array_get_index a key)
  unfolding array_get_index
  array_get_index-Locates a key v = rw (le→leb _ _ v.bound) (
      binary_search-Locates a key v (a.used + 1) 0 a.used (omega arith) (omega arith) (omega arith)
        (λ i h. absurd (omega arith)) (λ i g h. absurd (omega arith)))
