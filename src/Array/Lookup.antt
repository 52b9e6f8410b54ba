-- ===== src/Array/Lookup.antt =====
-- `array_get_element_klen` finds the entry with a key, which is the only one.
use lighttpd_multithread.Base.{
  ℕ, ◌≤◌, ◌<◌, ◌≡◌, ◌≢◌, sym, ap, ◌∙◌, inl, inr, Option, none, some, ltb, get_or,
  get_elem?-eq-get_or, Outcome, ok, Bool-cases, ltb→ge, arith,
}
use lighttpd_multithread.Base.Memory.{Bytes}
use lighttpd_multithread.Buffer.Compare.{lower, Before, Before-irrefl}
use lighttpd_multithread.Array.{Entry, Array, key_string, array_get_element_klen}
use lighttpd_multithread.Array.Search.{
  slot_key, key_at, ndx_at, sorted_key, IsValid, found, missing, array_get_index-Locates,
}

module _ {V : Type 0} where
  same_place :
      (a : Array V)
      → IsValid a
      → (i j : ℕ) → i < a.used
      → j < a.used
      → sorted_key a i ≡ sorted_key a j
      → i ≡ j
  same_place a v i j h g e = elim (Bool-cases (ltb i j)) [
    | inl lt ↦ absurd (Before-irrefl (sorted_key a j) (rw e at (v.ordered i j (ground arith) g)))
    | inr ge ↦ elim (Bool-cases (ltb j i)) [
      | inl lt ↦ absurd (Before-irrefl (sorted_key a j) (rw e at (v.ordered j i (ground arith) h)))
      | inr ge' ↦ omega (arith, ltb→ge _ _ ge, ltb→ge _ _ ge')
    ]
  ]

  -- No two of the slots in use have the same key.
  pub key_at-injective :
      (a : Array V)
      → IsValid a
      → (n m : ℕ) → n < a.used
      → m < a.used
      → key_at a n ≡ key_at a m
      → n ≡ m
  key_at-injective a v n m h g e =
      let (i, hi, ei) = v.listed n h in
      let (j, hj, ej) = v.listed m g in
      sym ei
      ∙ ap (ndx_at a) (same_place a v i j hi hj (ap (key_at a) ei ∙ e ∙ sym (ap (key_at a) ej)))
      ∙ ej

  -- Entry `e` stands in a slot in use.
  pub record Member (a : Array V) (e : Entry V) : Type 0 where
    pub slot : ℕ
    pub in_use : slot < a.used
    pub holds : get_or a.data_slots slot none ≡ some e

  -- `array_get_element_klen` answers with the entry that has the key, up to the case of its
  -- letters, where there is one, and with NULL where there is none.
  pub data Answers (a : Array V) (k : Bytes) (o : Outcome (Option (Entry V))) : Type 0 where
    present :
        (e : Entry V) → Member a e → lower (key_string e.key) ≡ k → o ≡ ok (some e) → Answers a k o
    absent :
        ((e : Entry V) → Member a e → lower (key_string e.key) ≢ k) → o ≡ ok none → Answers a k o

  pub not_listed :
      (a : Array V) (k : Bytes) (r : ℕ)
      → IsValid a
      → ((i : ℕ) → i < r → Before (sorted_key a i) k)
      → ((i : ℕ) → r ≤ i → i < a.used → Before k (sorted_key a i))
      → (n : ℕ) → n < a.used
      → key_at a n ≢ k
  not_listed a k r v below above n h e =
      let (i, hi, ei) = v.listed n h in
      let same : sorted_key a i ≡ k = ap (key_at a) ei ∙ e in
      elim (Bool-cases (ltb i r)) [
        | inl lt ↦ Before-irrefl k (rw same at (below i (ground arith)))
        | inr ge ↦ Before-irrefl k (rw same at (above i (ground arith) hi))
      ]

  -- On a valid array `array_get_element_klen` returns the entry that has the key, up to the case of
  -- its letters, or NULL, when no entry has it.
  pub array_get_element_klen-Answers :
      (a : Array V) (key : Bytes) → IsValid a → Answers a (lower key) (array_get_element_klen a key)
  unfolding array_get_element_klen
  array_get_element_klen-Answers a key v = elim (array_get_index-Locates a key v) [
    | found r h e k ↦
        let (x, f) = v.filled (ndx_at a r) (v.inside r h) in
        present x (record { slot = ndx_at a r; in_use = v.inside r h; holds = f })
          (sym (ap slot_key f) ∙ k)
          (rw e (
            rw (
              get_elem?-eq-get_or a.data_slots (ndx_at a r) none
                  (omega (arith, v.inside r h, v.room)),
              f,
            )))
    | missing r h e below above ↦
        absent
          (λ x m f.
            not_listed a (lower key) r v below above m.slot m.in_use (ap slot_key m.holds ∙ f))
          (rw e)
  ]

  pub Answers-Member :
      {a : Array V} {k : Bytes} {o : Outcome (Option (Entry V))} {e : Entry V}
      → IsValid a
      → Answers a k o
      → Member a e
      → lower (key_string e.key) ≡ k
      → o ≡ ok (some e)
  Answers-Member {a} v (present x m f p) n g =
      let same : m.slot ≡ n.slot =
        key_at-injective a v m.slot n.slot m.in_use n.in_use
          (ap slot_key m.holds ∙ f ∙ sym g ∙ sym (ap slot_key n.holds)) in
      p ∙ ap ok (sym m.holds ∙ ap (λ i. get_or a.data_slots i none) same ∙ n.holds)
  Answers-Member v (absent never p) n g = absurd (never _ n g)

  pub Answers-none :
      {a : Array V} {k : Bytes} {o : Outcome (Option (Entry V))}
      → Answers a k o
      → ((e : Entry V) → Member a e → lower (key_string e.key) ≢ k)
      → o ≡ ok none
  Answers-none (present x m f p) never = absurd (never x m f)
  Answers-none (absent _ p) never = p
