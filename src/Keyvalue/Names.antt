-- ===== src/Keyvalue/Names.antt =====
-- keyvalue.c: names and keys belong together.
use lighttpd_multithread.Base.{
  ℕ, ◌≡◌, ◌≢◌, refl, sym, ap, ◌∙◌, inl, inr, Bool, true, false, not, ◌&&◌, ◌||◌, none, some, List,
  [], ◌∷◌, ◌==◌, ==_iff, Bool-cases, arith,
}
use lighttpd_multithread.Base.Int.{ℤ, pos, negsuc}
use lighttpd_multithread.Base.Memory.{Bytes}
use lighttpd_multithread.Keyvalue.{
  Keyvalue, same_key, same_string, http_methods, keyvalue_get_value, keyvalue_get_key,
  get_http_method_name, get_http_method_key,
}

never : {A : Type 0} → false ≡ true → A
never e = absurd (ground (arith, e))

both : (a b : Bool) → (a && b) ≡ true → (a ≡ true) × (b ≡ true)
both true b h = (refl, h)
both false b h = never h

same_key-eq : (a b : ℤ) → same_key a b ≡ true → a ≡ b
same_key-eq (pos a) (pos b) h = ap pos ((==_iff a b).0 h)
same_key-eq (pos a) (negsuc b) h = never h
same_key-eq (negsuc a) (pos b) h = never h
same_key-eq (negsuc a) (negsuc b) h = ap negsuc ((==_iff a b).0 h)

same_key_refl : (a : ℤ) → same_key a a ≡ true
same_key_refl (pos a) = (==_iff a a).1 refl
same_key_refl (negsuc a) = (==_iff a a).1 refl

same_string-eq : (s t : Bytes) → same_string s t ≡ true → s ≡ t
same_string-eq [] [] h = refl
same_string-eq [] (c ∷ t) h = never h
same_string-eq (c ∷ s) [] h = never h
same_string-eq (c ∷ s) (d ∷ t) h =
    let (e, f) = both (c == d) (same_string s t) h in
    ap (λ (x : ℕ). x ∷ s) ((==_iff c d).0 e) ∙ ap (◌∷◌ d) (same_string-eq s t f)

same_string_refl : (s : Bytes) → same_string s s ≡ true
same_string_refl [] = refl
same_string_refl (c ∷ s) = rw ((==_iff c c).1 refl) (same_string_refl s)

or-true : (a : Bool) → (a || true) ≡ true
or-true true = refl
or-true false = refl

-- Whether a table has a key or a value, and no row has that of another row.
abbrev has_key : List Keyvalue → ℤ → Bool
has_key [] k = false
has_key (kv ∷ rest) k = same_key kv.key k || has_key rest k

abbrev has_value : List Keyvalue → Bytes → Bool
has_value [] s = false
has_value (kv ∷ rest) s = same_string kv.value s || has_value rest s

abbrev is_table : List Keyvalue → Bool
is_table [] = true
is_table (kv ∷ rest) = (not (has_key rest kv.key) && not (has_value rest kv.value)) && is_table rest

apart :
    (kv : Keyvalue) (rest : List Keyvalue)
    → is_table (kv ∷ rest) ≡ true
    → (has_key rest kv.key ≢ true) × (has_value rest kv.value ≢ true) × (is_table rest ≡ true)
apart kv rest h =
    let (e, f) =
      both (not (has_key rest kv.key) && not (has_value rest kv.value)) (is_table rest) h in
    let (g, g') = both (not (has_key rest kv.key)) (not (has_value rest kv.value)) e in
    ((λ q. never (rw q at g)), (λ q. never (rw q at g')), f)

value_is : {x s : Bytes} → (some x ≡ some s) → x ≡ s
value_is e = cc e

no_value : {s : Bytes} → (none ≡ some s) → ⊥
no_value e = cc e

same_string-of : (x s : Bytes) → x ≡ s → same_string x s ≡ true
same_string-of x s e = ap (same_string x) (sym e) ∙ same_string_refl x

same_key-of : (x k : ℤ) → x ≡ k → same_key x k ≡ true
same_key-of x k e = ap (same_key x) (sym e) ∙ same_key_refl x

value-has_value :
    (t : List Keyvalue) (k : ℤ) (s : Bytes) → keyvalue_get_value t k ≡ some s → has_value t s ≡ true
unfolding keyvalue_get_value
value-has_value [] k s h = absurd (no_value h)
value-has_value (kv ∷ rest) k s h = elim (Bool-cases (same_key kv.key k)) [
  | inl e ↦ rw (same_string-of kv.value s (value_is (rw e at h))) refl
  | inr e ↦ rw (value-has_value rest k s (rw e at h)) (or-true (same_string kv.value s))
]

key-has_key :
    (t : List Keyvalue) (s : Bytes) (k : ℤ)
    → k ≢ negsuc 0
    → keyvalue_get_key t s ≡ k
    → has_key t k ≡ true
unfolding keyvalue_get_key
key-has_key [] s k n h = absurd (n (sym h))
key-has_key (kv ∷ rest) s k n h = elim (Bool-cases (same_string kv.value s)) [
  | inl e ↦ rw (same_key-of kv.key k (rw e at h)) refl
  | inr e ↦ rw (key-has_key rest s k n (rw e at h)) (or-true (same_key kv.key k))
]

value-key :
    (t : List Keyvalue) (k : ℤ) (s : Bytes)
    → is_table t ≡ true
    → keyvalue_get_value t k ≡ some s
    → keyvalue_get_key t s ≡ k
unfolding keyvalue_get_value keyvalue_get_key
value-key [] k s v h = absurd (no_value h)
value-key (kv ∷ rest) k s v h = elim (Bool-cases (same_key kv.key k)) [
  | inl e ↦ rw (same_string-of kv.value s (value_is (rw e at h))) (same_key-eq kv.key k e)
  | inr e ↦
      let h' : keyvalue_get_value rest k ≡ some s = rw e at h in
      let there = value-has_value rest k s h' in
      let (_, no_value, rest_is) = apart kv rest v in
      elim (Bool-cases (same_string kv.value s)) [
        | inl f ↦ absurd (no_value (ap (has_value rest) (same_string-eq kv.value s f) ∙ there))
        | inr f ↦ rw f (value-key rest k s rest_is h')
      ]
]

key-value :
    (t : List Keyvalue) (k : ℤ) (s : Bytes)
    → is_table t ≡ true
    → k ≢ negsuc 0
    → keyvalue_get_key t s ≡ k
    → keyvalue_get_value t k ≡ some s
unfolding keyvalue_get_value keyvalue_get_key
key-value [] k s v n h = absurd (n (sym h))
key-value (kv ∷ rest) k s v n h = elim (Bool-cases (same_string kv.value s)) [
  | inl e ↦
      rw (same_key-of kv.key k (rw e at h))
        (ap (λ (x : Bytes). some x) (same_string-eq kv.value s e))
  | inr e ↦
      let h' : keyvalue_get_key rest s ≡ k = rw e at h in
      let there = key-has_key rest s k n h' in
      let (no_key, _, rest_is) = apart kv rest v in
      elim (Bool-cases (same_key kv.key k)) [
        | inl f ↦ absurd (no_key (ap (has_key rest) (same_key-eq kv.key k f) ∙ there))
        | inr f ↦ rw f (key-value rest k s rest_is n h')
      ]
]

-- If `s` is the name of a method, get_http_method_key finds the method under it; and if
-- get_http_method_key finds a method other than HTTP_METHOD_UNSET under `s`, `s` is its name.
pub method_name_lem :
    (k : ℤ) (s : Bytes)
    → (get_http_method_name k ≡ some s → get_http_method_key s ≡ k)
      × (k ≢ negsuc 0 → get_http_method_key s ≡ k → get_http_method_name k ≡ some s)
unfolding get_http_method_name get_http_method_key
method_name_lem k s = (value-key http_methods k s refl, key-value http_methods k s refl)
