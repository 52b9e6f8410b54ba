-- ===== src/Tests/Arrays.antt =====
-- Arrays.
use lighttpd_multithread.Base.{
  ℕ, ◌≡◌, ◌≢◌, refl, ◌⊎◌, false, none, some, [], ◌∷◌, ok, replicate, arith,
}
use lighttpd_multithread.Base.Memory.{Bytes}
use lighttpd_multithread.Buffer.Hex.{codes}
use lighttpd_multithread.Buffer.Compare.{lower, buffer_caseless_compare}
use lighttpd_multithread.Array.{
  Entry, Array, type_string, array_get_element_klen, array_find_or_insert_key, array_find_or_insert,
  array_get_index, binary_search,
}
use lighttpd_multithread.Array.Search.{IsValid}
use lighttpd_multithread.Array.Lookup.{Answers, array_get_element_klen-Answers}
use lighttpd_multithread.Array.Keyed.{Keyed, KeyedAnswers, array_find_or_insert-Answers}
use lighttpd_multithread.Array.Map.{get_element-find_or_insert}

abbrev header : Bytes → ℕ → Entry ℕ
header k v = record { type = type_string; key = some k; is_index_key = false; value = v }

abbrev no_headers : Array ℕ
no_headers = record { data_slots = []; sorted = []; used = 0; unique_ndx = 0 }

no_headers-IsValid : IsValid no_headers
no_headers-IsValid = record {
  count = refl;
  room = omega arith;
  bound = omega arith;
  filled = λ n h. absurd (omega arith);
  inside = λ i h. absurd (omega arith);
  ordered = λ i j lt h. absurd (omega arith);
  listed = λ n h. absurd (omega arith);
}

abbrev host : Entry ℕ
host = header (codes "Host") 1

abbrev one_header : Array ℕ
one_header = record {
  data_slots = some host ∷ replicate 15 none;
  sorted = 0 ∷ [];
  used = 1;
  unique_ndx = 0;
}

insert_host : array_find_or_insert_key no_headers host ≡ ok (one_header, none)
unfolding array_find_or_insert_key array_get_index binary_search
insert_host = refl

find_host : array_get_element_klen one_header (codes "hOST") ≡ ok (some host)
unfolding array_get_element_klen array_get_index binary_search buffer_caseless_compare
find_host = refl

get_element-find_or_insert_example :
    IsValid one_header
    × (((lower (codes "hOST") ≡ lower (codes "Host"))
          × (array_get_element_klen one_header (codes "hOST") ≡ ok (some host)))
        ⊎ ((lower (codes "hOST") ≢ lower (codes "Host"))
            × (array_get_element_klen one_header (codes "hOST")
                ≡ array_get_element_klen no_headers (codes "hOST"))))
get_element-find_or_insert_example =
    get_element-find_or_insert no_headers one_header host (codes "hOST") no_headers-IsValid
      insert_host

-- An entry without a key is inserted under the number 0.
array_find_or_insert-Answers_example :
    let entry : Entry ℕ = record host { key = none } in
    (a' : Array ℕ) × (entry' : Entry ℕ) × Keyed one_header entry a' entry'
    × (a'.used ≡ 1)
    × KeyedAnswers a' entry' (array_find_or_insert one_header entry)
array_find_or_insert-Answers_example =
    array_find_or_insert-Answers one_header (record host { key = none })
      get_element-find_or_insert_example.0

array_get_element_klen-Answers_example :
    Answers one_header (lower (codes "hOST")) (array_get_element_klen one_header (codes "hOST"))
array_get_element_klen-Answers_example =
    array_get_element_klen-Answers one_header (codes "hOST") get_element-find_or_insert_example.0
