-- ===== src/Array/Reset.antt =====
-- array.c: `array_reset`, and data_string.c: the reset of an entry with a string.
use lighttpd_multithread.Base.{
  ℕ, zero, suc, ◌<◌, ◌≡◌, refl, Option, none, some, List, [], ◌∷◌, get_or, Outcome, ok, fault,
  ◌>>=◌, arith,
}
use lighttpd_multithread.Buffer.{Buffer, buffer_reset}
use lighttpd_multithread.Buffer.Whole.{buffer_reset_used}
use lighttpd_multithread.Array.{Entry, Array}

-- `data_string_reset`: the entry keeps its buffers for reuse.
pub data_string_reset : Entry Buffer → Outcome (Entry Buffer)
data_string_reset e = do v ← buffer_reset e.value; ok (record e { key = none; value = v })

module _ {V : Type 0} (reset : Entry V → Outcome (Entry V)) where
  -- The loop, over the first `n` slots. A slot below `used` is never NULL.
  reset_slots : ℕ → List (Option (Entry V)) → Outcome (List (Option (Entry V)))
  reset_slots zero s = ok s
  reset_slots (suc n) [] = fault
  reset_slots (suc n) (none ∷ s) = fault
  reset_slots (suc n) (some e ∷ s) = do e' ← reset e; t ← reset_slots n s; ok (some e' ∷ t)

  -- `reset` is the method of the entries' type.
  pub array_reset : Array V → Outcome (Array V)
  unfolding reset_slots
  array_reset a = do
    s ← reset_slots a.used a.data_slots
    ok (record a { data_slots = s; sorted = []; used = 0; unique_ndx = 0 })

-- Every slot below `used` has an entry.
abbrev pub IsFilled : {V : Type 0} → Array V → Type 0
IsFilled {V} a = (n : ℕ) → n < a.used → (e : Entry V) × (get_or a.data_slots n none ≡ some e)

-- There is no entry, and the keys that are made up count from 0 again.
pub record IsEmptied {V : Type 0} (a : Array V) : Type 0 where
  pub none_used : a.used ≡ 0
  pub none_sorted : a.sorted ≡ []
  pub from_zero : a.unique_ndx ≡ 0

reset_slots_lem :
    (n : ℕ) (s : List (Option (Entry Buffer)))
    → ((i : ℕ) → i < n → (e : Entry Buffer) × (get_or s i none ≡ some e))
    → (t : List (Option (Entry Buffer))) × (reset_slots data_string_reset n s ≡ ok t)
unfolding reset_slots data_string_reset
reset_slots_lem zero s f = (s, refl)
reset_slots_lem (suc n) [] f = let (e, g) = f 0 (omega arith) in absurd (ground (arith, g))
reset_slots_lem (suc n) (none ∷ s) f = let (e, g) = f 0 (omega arith) in absurd (ground (arith, g))
reset_slots_lem (suc n) (some e ∷ s) f =
    let (v, g, _) = buffer_reset_used e.value in
    let (t, h) = reset_slots_lem n s (λ i lt. f (suc i) (omega (arith, lt))) in
    (some (record e { key = none; value = v }) ∷ t, rw (g, h) refl)

-- The reset of an array of strings returns an array without entries.
pub array_reset-IsEmptied :
    (a : Array Buffer)
    → IsFilled a
    → (b : Array Buffer) × (array_reset data_string_reset a ≡ ok b) × IsEmptied b
unfolding array_reset
array_reset-IsEmptied a f =
    let (s, e) = reset_slots_lem a.used a.data_slots f in
    let b : Array Buffer = record a { data_slots = s; sorted = []; used = 0; unique_ndx = 0 } in
    (b, rw e refl, record { none_used = refl; none_sorted = refl; from_zero = refl })
