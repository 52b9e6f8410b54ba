-- ===== src/Array/Insert.antt =====
-- `array_find_or_insert` keeps the index in order, and nothing is lost.
use lighttpd_multithread.Base.{
  ℕ, zero, suc, ◌+◌, ◌≤◌, ◌<◌, ◌≡◌, ◌≢◌, refl, sym, ap, ◌∙◌, inl, inr, Option, none, some, ltb, leb,
  ◌==◌, length, length-append, length-set, replicate, set, get_or, Outcome, ok, aborted, Bool-cases,
  leb→gt, arith,
}
use lighttpd_multithread.Base.Slots.{
  get_or-set_self, get_or-set_ne, get_or-append_left, insert_at, insert_at_before, insert_at_here,
  insert_at_after, length-insert_at,
}
use lighttpd_multithread.Base.Memory.{Bytes}
use lighttpd_multithread.Buffer.Compare.{lower, Before}
use lighttpd_multithread.Array.Lookup.{not_listed}
use lighttpd_multithread.Array.{
  Entry, Array, key_string, ssize_max, array_grow, array_find_or_insert_key,
}
use lighttpd_multithread.Array.Search.{
  slot_key, key_at, ndx_at, sorted_key, IsValid, found, missing, array_get_index-Locates,
}

-- Where a place of the new index came from.
data Place (r : ℕ) : ℕ → Type 0 where
  below : (i : ℕ) → i < r → Place r i
  here : (i : ℕ) → i ≡ r → Place r i
  above : (i : ℕ) → r ≤ i → Place r (suc i)

place : (r i : ℕ) → Place r i
place zero zero = here zero refl
place (suc r) zero = below zero (omega arith)
place r (suc i) = elim (Bool-cases (leb r i)) [
  | inl ge ↦ above i (ground arith)
  | inr lt ↦ elim (Bool-cases (r == suc i)) [
    | inl e ↦ here (suc i) (ground arith)
    | inr ne ↦ below (suc i) (ground arith)
  ]
]

module _ {V : Type 0} where
  -- `b` is `a` with `entry` in its first free slot.
  pub record Added (a b : Array V) (entry : Entry V) : Type 0 where
    pub valid : IsValid b
    pub one_more : b.used ≡ a.used + 1
    pub new : get_or b.data_slots a.used none ≡ some entry
    pub kept : (n : ℕ) → n < a.used → get_or b.data_slots n none ≡ get_or a.data_slots n none

  -- What `array_grow` leaves alone, and the room that it makes.
  record IsGrown (a b : Array V) : Type 0 where
    same_sorted : b.sorted ≡ a.sorted
    same_used : b.used ≡ a.used
    has_room : a.used < length b.data_slots
    same_slots : (n : ℕ) → n < a.used → get_or b.data_slots n none ≡ get_or a.data_slots n none

  array_grow-IsGrown : (a : Array V) → a.used ≤ length a.data_slots → IsGrown a (array_grow a)
  unfolding array_grow
  array_grow-IsGrown a room = elim (Bool-cases (length a.data_slots == 0)) [
    | inl none_yet ↦
        let z : a.used ≡ 0 = ground arith in
        rw none_yet (record {
          same_sorted = refl;
          same_used = refl;
          has_room = omega (arith, z);
          same_slots = λ n h. absurd (omega (arith, z));
        })
    | inr some_yet ↦ elim (Bool-cases (length a.data_slots == a.used)) [
      | inl full ↦
          rw (some_yet, full)
            (record {
              same_sorted = refl;
              same_used = refl;
              has_room = rw length-append (ground arith);
              same_slots =
                  λ n h. get_or-append_left a.data_slots (replicate 16 none) n none (omega arith);
            })
      | inr free ↦
          rw (some_yet, free)
            (record {
              same_sorted = refl;
              same_used = refl;
              has_room = ground arith;
              same_slots = λ n h. refl;
            })
    ]
  ]

  -- The array with `entry` in the first free slot and at place `r` of the index.
  abbrev inserted : Array V → ℕ → Entry V → Array V
  inserted b r entry = record b {
    data_slots = set b.data_slots b.used (some entry);
    sorted = insert_at b.sorted r b.used;
    used = b.used + 1;
  }

  module _ (a g : Array V) (v : IsValid a) (grown : IsGrown a g) (entry : Entry V) (r : ℕ)
      (le : r ≤ a.used) where
    abbrev b : Array V
    b = inserted g r entry

    old_slot : (n : ℕ) → n < a.used → get_or b.data_slots n none ≡ get_or a.data_slots n none
    old_slot n h =
        get_or-set_ne g.data_slots g.used n (some entry) none
          (λ e. absurd (omega (arith, grown.same_used)))
        ∙ grown.same_slots n h

    new_slot : get_or b.data_slots a.used none ≡ some entry
    new_slot =
        ap (λ n. get_or b.data_slots n none) (sym grown.same_used)
        ∙ get_or-set_self g.data_slots g.used (some entry) none
            (omega (arith, grown.same_used, grown.has_room))

    sorted_is : b.sorted ≡ insert_at a.sorted r a.used
    sorted_is = rw (grown.same_sorted, grown.same_used)

    fits : r ≤ length a.sorted
    fits = omega (arith, v.count)

    ndx_below : (i : ℕ) → i < r → ndx_at b i ≡ ndx_at a i
    ndx_below i h = rw sorted_is (insert_at_before a.sorted r i a.used 0 fits h)

    ndx_here : ndx_at b r ≡ a.used
    ndx_here = rw sorted_is (insert_at_here a.sorted r a.used 0 fits)

    ndx_above : (i : ℕ) → r ≤ i → ndx_at b (suc i) ≡ ndx_at a i
    ndx_above i h = rw sorted_is (insert_at_after a.sorted r i a.used 0 fits h)

    key_old : (n : ℕ) → n < a.used → key_at b n ≡ key_at a n
    key_old n h = ap slot_key (old_slot n h)

    key_below : (i : ℕ) → i < r → sorted_key b i ≡ sorted_key a i
    key_below i h = ap (key_at b) (ndx_below i h) ∙ key_old (ndx_at a i) (v.inside i (omega arith))

    key_here : sorted_key b r ≡ lower (key_string entry.key)
    key_here = ap (key_at b) ndx_here ∙ ap slot_key new_slot

    key_above : (i : ℕ) → r ≤ i → i < a.used → sorted_key b (suc i) ≡ sorted_key a i
    key_above i h g = ap (key_at b) (ndx_above i h) ∙ key_old (ndx_at a i) (v.inside i g)

    module _ (pre : (i : ℕ) → i < r → Before (sorted_key a i) (lower (key_string entry.key)))
        (post : (i : ℕ)
          → r ≤ i
          → i < a.used
          → Before (lower (key_string entry.key)) (sorted_key a i)) where
      abbrev k : Bytes
      k = lower (key_string entry.key)

      in_order :
          (i j : ℕ)
          → Place r i
          → Place r j
          → i < j
          → j < a.used + 1
          → Before (sorted_key b i) (sorted_key b j)
      in_order i j (below _ h) (below _ g) lt m =
          rw (key_below i h, key_below j g) (v.ordered i j lt (omega arith))
      in_order i j (below _ h) (here _ e) lt m = rw (e, key_below i h, key_here) (pre i h)
      in_order i j (below _ h) (above j' g) lt m =
          rw (key_below i h, key_above j' g (omega arith))
            (v.ordered i j' (omega arith) (omega arith))
      in_order i j (here _ e) (below _ g) lt m = absurd (omega arith)
      in_order i j (here _ e) (here _ f) lt m = absurd (omega arith)
      in_order i j (here _ e) (above j' g) lt m =
          rw (e, key_here, key_above j' g (omega arith)) (post j' g (omega arith))
      in_order i j (above i' h) (below _ g) lt m = absurd (omega arith)
      in_order i j (above i' h) (here _ f) lt m = absurd (omega arith)
      in_order i j (above i' h) (above j' g) lt m =
          rw (key_above i' h (omega arith), key_above j' g (omega arith))
            (v.ordered i' j' (omega arith) (omega arith))

      stays_inside : (i : ℕ) → Place r i → i < a.used + 1 → ndx_at b i < a.used + 1
      stays_inside i (below _ h) m = omega (arith, ndx_below i h, v.inside i (omega arith))
      stays_inside i (here _ e) m = rw (e, ndx_here) (omega arith)
      stays_inside i (above i' h) m = omega (arith, ndx_above i' h, v.inside i' (omega arith))

      stays_listed : (n : ℕ) → n < a.used + 1 → (i : ℕ) × (i < a.used + 1) × (ndx_at b i ≡ n)
      stays_listed n h = elim (Bool-cases (n == a.used)) [
        | inl e ↦ (r, omega arith, ndx_here ∙ ground arith)
        | inr ne ↦
            let (i, hi, ei) = v.listed n (ground arith) in
            elim (Bool-cases (ltb i r)) [
              | inl lt ↦ (i, omega arith, ndx_below i (ground arith) ∙ ei)
              | inr ge ↦ (suc i, omega arith, ndx_above i (ground arith) ∙ ei)
            ]
      ]

      stays_filled :
          (n : ℕ) → n < a.used + 1 → (e : Entry V) × (get_or b.data_slots n none ≡ some e)
      stays_filled n h = elim (Bool-cases (n == a.used)) [
        | inl e ↦ let e' : n ≡ a.used = ground arith in (entry, rw e' new_slot)
        | inr ne ↦ let (e, f) = v.filled n (ground arith) in (e, old_slot n (ground arith) ∙ f)
      ]

      inserted-IsValid : a.used + 1 ≤ ssize_max → IsValid b
      inserted-IsValid small =
          let u : b.used ≡ a.used + 1 = omega (arith, grown.same_used) in
          record {
            count =
                omega
                  (arith, ap length sorted_is, length-insert_at a.sorted r a.used fits, v.count, u);
            room = omega (arith, length-set g.data_slots g.used (some entry), grown.has_room, u);
            bound = omega (arith, u);
            filled = λ n h. stays_filled n (omega (arith, u));
            inside = λ i h. omega (arith, u, stays_inside i (place r i) (omega (arith, u)));
            ordered = λ i j lt h. in_order i j (place r i) (place r j) lt (omega (arith, u));
            listed = λ n h.
                let (i, hi, ei) = stays_listed n (omega (arith, u)) in (i, omega (arith, u), ei);
          }

      inserted-Added : a.used + 1 ≤ ssize_max → Added a b entry
      inserted-Added small = record {
        valid = inserted-IsValid small;
        one_more = omega (arith, grown.same_used);
        new = new_slot;
        kept = old_slot;
      }

  abbrev pub NoKey : Array V → Bytes → Type 0
  NoKey a k = (n : ℕ) → n < a.used → key_at a n ≢ k

  -- The outcomes of `array_find_or_insert` for an entry with its key in place.
  pub data Inserts (a : Array V) (entry : Entry V) (o : Outcome (Array V × Option ℕ)) : Type 0 where
    collision :
        (n : ℕ)
        → n < a.used
        → key_at a n ≡ lower (key_string entry.key)
        → o ≡ ok (a, some n)
        → Inserts a entry o
    added :
        (b : Array V)
        → Added a b entry
        → NoKey a (lower (key_string entry.key))
        → o ≡ ok (b, none)
        → Inserts a entry o
    full :
        a.used ≡ ssize_max
        → NoKey a (lower (key_string entry.key))
        → o ≡ aborted
        → Inserts a entry o

  -- With the key in place, `array_find_or_insert` on a valid array names the slot of an entry with the key and changes
  -- nothing, or adds the entry to an array that stays valid and keeps its other entries, or aborts
  -- because the array has SSIZE_MAX entries.
  pub array_find_or_insert_key-Inserts :
      (a : Array V) (entry : Entry V)
      → IsValid a
      → Inserts a entry (array_find_or_insert_key a entry)
  unfolding array_find_or_insert_key
  array_find_or_insert_key-Inserts a entry v =
      elim (array_get_index-Locates a (key_string entry.key) v) [
        | found r h e k ↦ collision (ndx_at a r) (v.inside r h) k (rw e)
        | missing r h e pre post ↦
            let none_has = not_listed a (lower (key_string entry.key)) r v pre post in
            elim (Bool-cases (leb (a.used + 1) ssize_max)) [
              | inl small ↦
                  added (inserted (array_grow a) r entry)
                    (inserted-Added a (array_grow a) v (array_grow-IsGrown a v.room) entry r h pre
                      post (ground arith))
                    none_has (rw (e, small))
              | inr large ↦ full (omega (arith, v.bound, leb→gt _ _ large)) none_has (rw (e, large))
            ]
      ]
