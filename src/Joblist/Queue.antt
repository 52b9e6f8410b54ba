-- ===== src/Joblist/Queue.antt =====
-- The two queues are first in, first out.
use lighttpd_multithread.Base.{
  ℕ, zero, suc, ◌+◌, ◌-◌, ◌<◌, ◌≡◌, refl, sym, ap, ◌∙◌, inl, inr, false, Option, none, some, List,
  [], ◌∷◌, ◌++◌, append_assoc, ◌==◌, length, length-append, take, drop, replicate, get_elem?, set,
  Bool-cases, arith, take-append_left, uncons,
}
use lighttpd_multithread.Base.Slots.{get_elem?-middle}
use mathlib.Core.List.{map, map-append}
use lighttpd_multithread.Joblist.{done, Connections, append_to, grow_slots, unshift_from, slot_at}

module _ {C : Type 0} where
  abbrev pub stored : List C → List (Option C)
  stored = map some

  length-stored : (xs : List C) → length (stored xs) ≡ length xs
  length-stored [] = refl
  length-stored (x ∷ xs) = ap suc (length-stored xs)

  -- The queue holds the connections `xs`, the oldest first.
  pub record IsQueue (xs : List C) (q : Connections C) : Type 0 where
    pub spare : List (Option C)
    pub ptr_is : q.ptr ≡ stored xs ++ spare
    pub used_is : q.used ≡ length xs

  set-append :
      (front : List (Option C)) (x : Option C) (back : List (Option C)) (n : ℕ) (v : Option C)
      → n ≡ length front
      → set (front ++ (x ∷ back)) n v ≡ front ++ (v ∷ back)
  set-append [] x back zero v e = refl
  set-append [] x back (suc n) v e = absurd (omega arith)
  set-append (y ∷ front) x back zero v e = absurd (omega arith)
  set-append (y ∷ front) x back (suc n) v e = ap (◌∷◌ y) (set-append front x back n v (omega arith))

  -- Room behind the connections, in the queue's allocation or a larger one.
  store_last :
      (xs : List C) (c : C) (p spare : List (Option C)) (n : ℕ)
      → p ≡ stored xs ++ spare
      → n ≡ length xs
      → 0 < length spare
      → (more : List (Option C)) × (set p n (some c) ≡ stored (xs ++ (c ∷ [])) ++ more)
  store_last xs c p spare n e u h =
      let (x, more, f) = uncons spare h in
      (
        more,
        rw (e, f)
            (set-append (stored xs) x more n (some c) (omega (arith, length-stored xs))
              ∙ sym (append_assoc (stored xs) (some c ∷ []) more)
              ∙ ap (λ (l : List (Option C)). l ++ more) (sym (map-append some xs (c ∷ [])))),
      )

  grow_slots-spare :
      (xs : List C) (q : Connections C)
      → IsQueue xs q
      → (spare : List (Option C)) × (grow_slots q.ptr q.used ≡ stored xs ++ spare)
        × (0 < length spare)
  unfolding grow_slots
  grow_slots-spare [] q i = elim (Bool-cases (length q.ptr == 0)) [
    | inl nothing ↦ (replicate 16 none, rw nothing, omega arith)
    | inr something ↦ (
      i.spare,
      ground (arith, something, i.used_is, i.ptr_is),
      ground (arith, something, ap length i.ptr_is),
    )
  ]
  grow_slots-spare (x ∷ xs) q i =
      let some_yet : (length q.ptr == 0) ≡ false = ground (arith, ap length i.ptr_is) in
      let size : length q.ptr ≡ length (x ∷ xs) + length i.spare =
        omega (arith, ap length i.ptr_is, length-append (stored xs) i.spare, length-stored xs) in
      elim (Bool-cases (q.used == length q.ptr)) [
        | inl full ↦ (
          i.spare ++ replicate 16 none,
          rw (some_yet, full, i.ptr_is) (append_assoc (stored (x ∷ xs)) i.spare _),
          rw length-append (omega arith),
        )
        | inr free ↦ (i.spare, rw (some_yet, free) i.ptr_is, ground (arith, size, i.used_is))
      ]

  -- `append_to` puts the connection behind all others; the allocation grows where it is full.
  pub append_to-IsQueue :
      (xs : List C) (c : C) (q : Connections C)
      → IsQueue xs q
      → IsQueue (xs ++ (c ∷ [])) (append_to q c)
  unfolding append_to
  append_to-IsQueue xs c q i =
      let (spare, e, room) = grow_slots-spare xs q i in
      let (more, f) = store_last xs c (grow_slots q.ptr q.used) spare q.used e i.used_is room in
      record {
        spare = more;
        ptr_is = f;
        used_is = omega (arith, length-append xs (c ∷ []), i.used_is);
      }

  -- `fdwaitqueue_unshift` takes the oldest connection, and answers NULL on the empty queue.
  pub unshift_from_empty : (q : Connections C) → IsQueue [] q → unshift_from q ≡ done (none, q)
  unfolding unshift_from
  unshift_from_empty q i = ground (arith, i.used_is)

  pub unshift_from-IsQueue :
      (x : C) (xs : List C) (q : Connections C)
      → IsQueue (x ∷ xs) q
      → (q' : Connections C) × (unshift_from q ≡ done (some x, q')) × IsQueue xs q'
  unfolding unshift_from
  unshift_from-IsQueue x xs q i =
      let n : q.used - 1 ≡ length (stored xs) = omega (arith, i.used_is, length-stored xs) in
      (
        record {
          ptr = take (q.used - 1) (stored xs ++ i.spare) ++ drop (q.used - 1) q.ptr;
          used = q.used - 1;
        },
        ground (arith, i.used_is, i.ptr_is),
        record {
          spare = drop (q.used - 1) q.ptr;
          ptr_is =
              ap (λ (l : List (Option C)). l ++ drop (q.used - 1) q.ptr)
                (take-append_left (stored xs) i.spare (q.used - 1) n);
          used_is = omega (arith, i.used_is);
        },
      )

  pub slot_at-IsQueue :
      (front back : List C) (c : C) (q : Connections C) (n : ℕ)
      → IsQueue (front ++ (c ∷ back)) q
      → n ≡ length front
      → slot_at q n ≡ done c
  slot_at-IsQueue front back c q n i e = ground (
    arith,
    ap (λ (l : List (Option C)). get_elem? l n)
        (i.ptr_is
          ∙ ap (λ (l : List (Option C)). l ++ i.spare) (map-append some front (c ∷ back))
          ∙ append_assoc (stored front) (some c ∷ stored back) i.spare),
    get_elem?-middle (stored front) (some c) (stored back ++ i.spare) n
        (omega (arith, length-stored front)),
  )
