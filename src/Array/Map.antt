-- ===== src/Array/Map.antt =====
-- An array as a map from keys, upper and lower case being equal, to entries.
use lighttpd_multithread.Base.{
  ◌≡◌, ◌≢◌, sym, ap, ◌∙◌, ◌⊎◌, inl, inr, none, some, ltb, get_or, ok, Bool-cases, ltb→ge, arith,
}
use lighttpd_multithread.Base.Memory.{Bytes}
use lighttpd_multithread.Buffer.Compare.{lower, same_key}
use lighttpd_multithread.Array.{
  Entry, Array, key_string, array_get_element_klen, array_find_or_insert_key,
}
use lighttpd_multithread.Array.Search.{IsValid}
use lighttpd_multithread.Array.Lookup.{
  present, absent, Member, Answers-Member, Answers-none, array_get_element_klen-Answers,
}
use lighttpd_multithread.Array.Insert.{
  Added, collision, added, full, array_find_or_insert_key-Inserts,
}

module _ {V : Type 0} where
  module _ (a b : Array V) (entry : Entry V) (d : Added a b entry) where
    new-Member : Member b entry
    new-Member = record { slot = a.used; in_use = omega (arith, d.one_more); holds = d.new }

    old-Member : (e : Entry V) → Member a e → Member b e
    old-Member e m = record {
      slot = m.slot;
      in_use = omega (arith, m.in_use, d.one_more);
      holds = d.kept m.slot m.in_use ∙ m.holds;
    }

    Member-cases : (e : Entry V) → Member b e → (e ≡ entry) ⊎ Member a e
    Member-cases e m = elim (Bool-cases (ltb m.slot a.used)) [
      | inl old ↦ inr (record {
        slot = m.slot;
        in_use = ground (arith, old);
        holds = sym (d.kept m.slot (ground (arith, old))) ∙ m.holds;
      })
      | inr new ↦
          let at : m.slot ≡ a.used = omega (arith, ltb→ge _ _ new, m.in_use, d.one_more) in
          let p : some e ≡ some entry =
            sym m.holds ∙ ap (λ n. get_or b.data_slots n none) at ∙ d.new in
          inl (cc p)
    ]

    get_old :
        (key : Bytes)
        → IsValid a
        → lower key ≢ lower (key_string entry.key)
        → array_get_element_klen b key ≡ array_get_element_klen a key
    get_old key v ne = elim (array_get_element_klen-Answers a key v) [
      | present e m k p ↦
          Answers-Member d.valid (array_get_element_klen-Answers b key d.valid) (old-Member e m) k
          ∙ sym p
      | absent never p ↦
          Answers-none (array_get_element_klen-Answers b key d.valid) (λ e m k.
            elim (Member-cases e m) [
              | inl same ↦ ne (sym k ∙ ap (λ (x : Entry V). lower (key_string x.key)) same)
              | inr old ↦ never e old k
            ])
          ∙ sym p
    ]

  -- After `array_find_or_insert` added an entry, the array is valid, the entry's key finds it, and
  -- every other key finds what it found before. Keys are compared up to the case of their letters.
  pub get_element-find_or_insert :
      (a b : Array V) (entry : Entry V) (key : Bytes)
      → IsValid a
      → array_find_or_insert_key a entry ≡ ok (b, none)
      → IsValid b
        × (((lower key ≡ lower (key_string entry.key))
              × (array_get_element_klen b key ≡ ok (some entry)))
            ⊎ ((lower key ≢ lower (key_string entry.key))
                × (array_get_element_klen b key ≡ array_get_element_klen a key)))
  get_element-find_or_insert a b entry key v e = elim (array_find_or_insert_key-Inserts a entry v) [
    | collision n h k p ↦ cc
    | full h k p ↦ cc
    | added b' d k p ↦
        let same : ok (b', none) ≡ ok (b, none) = sym p ∙ e in
        let same' : b' ≡ b = cc same in
        let d' : Added a b entry = rw same' at d in
        (
          d'.valid,
          elim (same_key key (key_string entry.key)) [
            | inl s ↦ inl (
              s,
              Answers-Member d'.valid (array_get_element_klen-Answers b key d'.valid)
                  (new-Member a b entry d') (sym s),
            )
            | inr n ↦ inr (n, get_old a b entry d' key v n)
          ],
        )
  ]
