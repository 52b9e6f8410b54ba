-- ===== src/Array.antt =====
-- array.c: a list of entries with an index that keeps their keys in order.
-- `data` holds the `size` slots (NULL is `none`). `sorted` holds the first `used` numbers of the
-- C array `sorted`: those behind are uninitialised or dead, and no function reads them. A key is
-- the string of its buffer, and `none` is a buffer with `used == 0`.
pub mod Search
pub mod Lookup
pub mod Insert
pub mod Keyed
pub mod Reset
pub mod Map
use lighttpd_multithread.Base.{
  ℕ, zero, suc, ◌+◌, ◌-◌, ◌%◌, ◌/◌, ◌^◌, Bool, true, false, not, ◌&&◌, ◌||◌, Option, none, some,
  List, [], ◌∷◌, ◌++◌, ltb, leb, ◌==◌, if◌then◌else◌, length, take, drop, replicate, get_elem?,
  get_or, set, Outcome, ok, aborted, fault, force_assert, ◌>>=◌, ◌>>◌,
}
use lighttpd_multithread.Base.Int.{ℤ, pos, negsuc}
use lighttpd_multithread.Base.Memory.{Bytes, size_mod}
use lighttpd_multithread.Buffer.Compare.{buffer_caseless_compare}
use lighttpd_multithread.Buffer.Decimal.{itostr}

-- `data_type_t`.
pub data DataType : Type 0 where
  type_unset type_string type_response type_fixed_header type_auth type_array : DataType
  type_integer type_config : DataType

-- The number of the enumerator, for `==`.
abbrev pub type_code : DataType → ℕ
type_code type_unset = 0
type_code type_string = 1
type_code type_response = 2
type_code type_fixed_header = 3
type_code type_auth = 4
type_code type_array = 5
type_code type_integer = 6
type_code type_config = 7

-- `data_unset` with the part `value` of its subtypes.
pub record Entry (V : Type 0) : Type 0 where
  pub type : DataType
  pub key : Option Bytes
  pub is_index_key : Bool
  pub value : V

pub record Array (V : Type 0) : Type 0 where
  pub data_slots : List (Option (Entry V))
  pub sorted : List ℕ
  pub used : ℕ
  pub unique_ndx : ℕ

abbrev pub ssize_max : ℕ
ssize_max = 2 ^ 63 - 1

abbrev pub key_string : Option Bytes → Bytes
key_string none = []
key_string (some s) = s

-- A read of `sorted[i]`, and of the entry behind `data[n]`.
abbrev pub read {ℓ} : {A : Type ℓ} → Option A → Outcome A
read none = fault
read (some a) = ok a

abbrev pub is_unset : Option Bytes → Bool
is_unset none = true
is_unset (some s) = false

-- `last_ndx == array_get_index(…)`.
abbrev pub is_at : Option ℕ → ℕ → Bool
is_at none n = false
is_at (some m) n = n == m

-- What `array_get_index` returns (`none` is ARRAY_NOT_FOUND), and `*rndx`.
abbrev pub Position : Type 0
Position = Option ℕ × ℕ

module _ {V : Type 0} where
  abbrev pub entry_at : Array V → ℕ → Outcome (Entry V)
  entry_at a n = do slot ← read (get_elem? a.data_slots n); read slot

  -- The loop. The fuel bounds `upper - lower`; its end is not reached.
  unfoldable pub binary_search : Array V → Bytes → ℕ → ℕ → ℕ → Outcome Position
  binary_search a key zero lower upper = fault
  binary_search a key (suc fuel) lower upper =
      let probe = (lower + upper) / 2 in
      let left = binary_search a key fuel lower probe in
      let right = binary_search a key fuel (probe + 1) upper in
      if lower == upper then ok (none, lower) else (do
        ndx ← read (get_elem? a.sorted probe)
        e ← entry_at a ndx
        elim (buffer_caseless_compare key (key_string e.key)) [
          | pos zero ↦ ok (some ndx, probe)
          | pos (suc n) ↦ right
          | negsuc n ↦ left
        ])

  unfoldable pub array_get_index : Array V → Bytes → Outcome Position
  array_get_index a key = do
    force_assert (leb a.used ssize_max)
    binary_search a key (a.used + 1) 0 a.used

  unfoldable pub array_get_element_klen : Array V → Bytes → Outcome (Option (Entry V))
  array_get_element_klen a key = do
    (ndx, _) ← array_get_index a key
    elim ndx [ none ↦ ok none | some n ↦ read (get_elem? a.data_slots n) ]

  -- Room for one more entry: the first 16 slots, or 16 more.
  unfoldable pub array_grow : Array V → Array V
  array_grow a =
      if length a.data_slots == 0
      then record a { data_slots = replicate 16 none }
      else if length a.data_slots == a.used
      then record a { data_slots = a.data_slots ++ replicate 16 none }
      else a

  -- The key is made up for an entry that has none, or one made up before.
  unfoldable pub array_generate_key : Array V → Entry V → Array V × Entry V
  array_generate_key a entry =
      if is_unset entry.key || entry.is_index_key
      then (
        record a { unique_ndx = (a.unique_ndx + 1) % size_mod },
        record entry { key = some (itostr a.unique_ndx); is_index_key = true },
      )
      else (a, entry)

  -- With the key in place: the slot of an entry with this key, or `none` when `entry` is inserted.
  -- An entry that stood in the free slot is dropped.
  unfoldable pub array_find_or_insert_key : Array V → Entry V → Outcome (Array V × Option ℕ)
  unfolding array_grow
  array_find_or_insert_key a entry = do
    (ndx, rndx) ← array_get_index a (key_string entry.key)
    let insert = do
      force_assert (leb (a.used + 1) ssize_max)
      let b = array_grow a
      ok (
        record b {
          data_slots = set b.data_slots b.used (some entry);
          sorted = take rndx b.sorted ++ (b.used ∷ drop rndx b.sorted);
          used = b.used + 1;
        },
        none,
      )
    elim ndx [ some n ↦ ok (a, some n) | none ↦ insert ]

  -- The entry comes back with the key that it has now.
  unfoldable pub array_find_or_insert : Array V → Entry V → Outcome (Array V × Option ℕ × Entry V)
  array_find_or_insert a entry = do
    let (a', entry') = array_generate_key a entry
    (b, old) ← array_find_or_insert_key a' entry'
    ok (b, old, entry')

  -- The old entry is freed. (`entry` itself is not in the array.)
  unfoldable pub array_replace : Array V → Entry V → Outcome (Array V)
  array_replace a entry = do
    (b, old, e) ← array_find_or_insert a entry
    elim old [ none ↦ ok b | some n ↦ ok (record b { data_slots = set b.data_slots n (some e) }) ]

  -- The last entry moves to slot `ndx`, with its place in `sorted` corrected.
  unfoldable pub array_fill_gap : Array V → ℕ → ℕ → Outcome (Array V)
  array_fill_gap a ndx last_ndx =
      if ndx == last_ndx then ok (record a { data_slots = set a.data_slots ndx none }) else (do
        last ← entry_at a last_ndx
        (found, last_elem_pos) ← array_get_index a (key_string last.key)
        force_assert (is_at found last_ndx)
        ok (record a {
          data_slots = set (set a.data_slots ndx (some last)) last_ndx none;
          sorted = set a.sorted last_elem_pos ndx;
        }))

  unfoldable pub array_extract_element_klen : Array V → Bytes → Outcome (Array V × Option (Entry V))
  array_extract_element_klen a key = do
    (found, rndx) ← array_get_index a key
    elim found [
      | none ↦ ok (a, none)
      | some ndx ↦ do
        let last_ndx = a.used - 1
        entry ← read (get_elem? a.data_slots ndx)
        b ← array_fill_gap a ndx last_ndx
        ok (
          record b { sorted = take rndx b.sorted ++ drop (rndx + 1) b.sorted; used = last_ndx },
          entry,
        )
    ]

  unfoldable pub array_pop : Array V → Outcome (Array V × Option (Entry V))
  array_pop a = do
    force_assert (not (a.used == 0))
    let used = a.used - 1
    du ← read (get_elem? a.data_slots used)
    place ← read (get_elem? a.sorted used)
    force_assert (place == used)
    ok (
      record a {
        data_slots = set a.data_slots used none;
        sorted = take used a.sorted;
        used = used;
      },
      du,
    )

  -- The first free slot from `i` on, of the slots `rest`, with an entry of type `t`.
  find_unused : DataType → ℕ → List (Option (Entry V)) → Option (ℕ × Entry V)
  find_unused t i [] = none
  find_unused t i (none ∷ rest) = find_unused t (i + 1) rest
  find_unused t i (some e ∷ rest) =
      let later = find_unused t (i + 1) rest in
      if type_code e.type == type_code t then some (i, e) else later

  -- An entry that `array_reset` left behind `used` is taken out for reuse.
  unfoldable pub array_get_unused_element : Array V → DataType → Array V × Option (Entry V)
  unfolding find_unused
  array_get_unused_element a t = elim (find_unused t a.used (drop a.used a.data_slots)) [
    | none ↦ (a, none)
    | some (i, e) ↦ (
      record a {
        data_slots = set (set a.data_slots i (get_or a.data_slots a.used none)) a.used none;
      },
      some e,
    )
  ]
