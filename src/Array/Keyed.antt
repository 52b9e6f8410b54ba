-- ===== src/Array/Keyed.antt =====
-- array.c: the whole of `array_find_or_insert`, the key that it makes up included.
use lighttpd_multithread.Base.{
  ℕ, ◌+◌, ◌%◌, ◌<◌, ◌≡◌, refl, ◌⊎◌, inl, inr, Bool, true, false, Option, none, some, Outcome, ok,
  aborted, arith, ◌||◌, if◌then◌else◌,
}
use lighttpd_multithread.Base.Memory.{Bytes, size_mod}
use lighttpd_multithread.Buffer.Compare.{lower}
use lighttpd_multithread.Buffer.Decimal.{itostr}
use lighttpd_multithread.Array.{
  Entry, Array, key_string, is_unset, ssize_max, array_generate_key, array_find_or_insert,
}
use lighttpd_multithread.Array.Search.{key_at, IsValid}
use lighttpd_multithread.Array.Insert.{
  collision, added, full, Added, NoKey, array_find_or_insert_key-Inserts,
}

needs_key :
    (key : Option Bytes) (index : Bool)
    → is_unset key || index ≡ true
    → (key ≡ none) ⊎ (index ≡ true)
needs_key none index e = inl refl
needs_key (some k) index e = inr e

keeps_key :
    (key : Option Bytes) (index : Bool)
    → is_unset key || index ≡ false
    → (k : Bytes) × (key ≡ some k) × (index ≡ false)
keeps_key none index e = absurd (ground (arith, e))
keeps_key (some k) index e = (k, refl, e)

module _ {V : Type 0} where
  -- The array and the entry after the key is made up: neither changes where the entry has a key of its
  -- own; otherwise the entry gets the number as its key, and the array's number goes up.
  pub data Keyed (a : Array V) (entry : Entry V) : Array V → Entry V → Type 0 where
    own_key : (k : Bytes) → entry.key ≡ some k → entry.is_index_key ≡ false → Keyed a entry a entry
    made_up :
        (entry.key ≡ none) ⊎ (entry.is_index_key ≡ true)
        → Keyed a entry
            (record a { unique_ndx = (a.unique_ndx + 1) % size_mod })
            (record entry { key = some (itostr a.unique_ndx); is_index_key = true })

  abbrev Generates : Array V → Entry V → Array V × Entry V → Type 0
  Generates a entry p = Keyed a entry p.0 p.1 × IsValid p.0 × (p.0.used ≡ a.used)

  renumbered-IsValid : (a : Array V) (n : ℕ) → IsValid a → IsValid (record a { unique_ndx = n })
  renumbered-IsValid a n v = record {
    count = v.count;
    room = v.room;
    bound = v.bound;
    filled = v.filled;
    inside = v.inside;
    ordered = v.ordered;
    listed = v.listed;
  }

  with_new_key : Array V → Entry V → Array V × Entry V
  with_new_key a entry = (
    record a { unique_ndx = (a.unique_ndx + 1) % size_mod },
    record entry { key = some (itostr a.unique_ndx); is_index_key = true },
  )

  by_key :
      (b : Bool) (a : Array V) (entry : Entry V)
      → is_unset entry.key || entry.is_index_key ≡ b
      → IsValid a
      → Generates a entry (if b then with_new_key a entry else (a, entry))
  unfolding with_new_key
  by_key true a entry e v =
      (made_up (needs_key entry.key entry.is_index_key e), renumbered-IsValid a _ v, refl)
  by_key false a entry e v =
      let (k, f, g) = keeps_key entry.key entry.is_index_key e in (own_key k f g, v, refl)

  generate_key_lem :
      (a : Array V) (entry : Entry V) → IsValid a → Generates a entry (array_generate_key a entry)
  unfolding array_generate_key with_new_key
  generate_key_lem a entry v = by_key (is_unset entry.key || entry.is_index_key) a entry refl v

  -- The outcomes of `array_find_or_insert`, where `a'` and `entry'` are there after the key is made up.
  abbrev pub KeyedAnswers : Array V → Entry V → Outcome (Array V × Option ℕ × Entry V) → Type 0
  KeyedAnswers a' entry' o =
      ((n : ℕ) × (n < a'.used)
        × (key_at a' n ≡ lower (key_string entry'.key))
        × (o ≡ ok (a', some n, entry')))
      ⊎ ((b : Array V) × Added a' b entry'
          × NoKey a' (lower (key_string entry'.key))
          × (o ≡ ok (b, none, entry')))
      ⊎ ((a'.used ≡ ssize_max) × NoKey a' (lower (key_string entry'.key)) × (o ≡ aborted))

  -- `array_find_or_insert` on a valid array first makes up a key for an entry that has none, or one
  -- that was made up before, and counts the array's number up; for an entry with a key of its own it
  -- changes neither. Then it names the slot of an entry with the key and changes nothing more, or it adds
  -- the entry to an array that stays valid and keeps its other entries, or it aborts because the array
  -- has SSIZE_MAX entries.
  pub array_find_or_insert-Answers :
      (a : Array V) (entry : Entry V)
      → IsValid a
      → (a' : Array V) × (entry' : Entry V) × Keyed a entry a' entry'
        × (a'.used ≡ a.used)
        × KeyedAnswers a' entry' (array_find_or_insert a entry)
  unfolding array_find_or_insert
  array_find_or_insert-Answers a entry v =
      let (keyed, w, same) = generate_key_lem a entry v in
      let (a', entry') = array_generate_key a entry in
      (
        a',
        entry',
        keyed,
        same,
        elim (array_find_or_insert_key-Inserts a' entry' w) [
          | collision n h k e ↦ inl (n, h, k, rw e refl)
          | added b h k e ↦ inr (inl (b, h, k, rw e refl))
          | full h k e ↦ inr (inr (h, k, rw e refl))
        ],
      )
