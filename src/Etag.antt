-- ===== src/Etag.antt =====
-- etag.c: matching an entity tag with the list in a request header, and making entity tags.
pub mod Matching
pub mod Listed
pub mod Search
use lighttpd_multithread.Base.{
  ℕ, zero, suc, ◌+◌, ◌*◌, ◌/◌, ◌%◌, ◌^◌, ◌-◌, Bool, true, false, not, ◌&&◌, ◌||◌, Option, none,
  some, List, [], ◌∷◌, ltb, ◌==◌, if◌then◌else◌, Outcome, ok, fault, ◌>>=◌, ◌>>◌,
}
use lighttpd_multithread.Base.Memory.{Bytes, Allocator}
use lighttpd_multithread.Buffer.{
  Buffer, buffer_string_is_empty, buffer_reset, buffer_copy_string_len, buffer_append_string_len,
  string_bytes,
}
use Prim.Native.Nat.{bit_xor}
use lighttpd_multithread.Buffer.Number.{buffer_append_int}

-- The states of the loop. The two `*++current` behind a 'W' are states of their own.
pub data State : Type 0 where
  start weak_slash weak_quote check check_quoted skip skip_quoted tail : State

-- What a character does: the answer, or the next state with what `tok` points to.
pub data Verdict : Type 0 where
  answer : Bool → Verdict
  go : State → Bytes → Verdict

abbrev is_space : ℕ → Bool
is_space c = c == b' ' || c == b'\t' || c == b'\r' || c == b'\n'

-- `*p` and `p + 1`; there is nothing to read behind the allocation.
abbrev pub read_tok : Bytes → Outcome (ℕ × Bytes)
read_tok [] = fault
read_tok (x ∷ tok) = ok (x, tok)

-- `CHECK`: `tok` has been read, and `*tok` is read again behind a quote.
pub check_char : ℕ → Bytes → Bool → Outcome Verdict
check_char c tok matched =
    let closing = (do
      (x, _) ← read_tok tok
      ok (if not (x == 0) then answer false else if matched then answer true else go tail tok)) in
    if c == b'\\'
    then ok (go (if matched then check_quoted else skip_quoted) tok)
    else if c == b'"'
    then closing
    else ok (go (if matched then check else skip) tok)

-- One round of the loop, at a character that is not 0. `tok_start` is the tag behind its first
-- quote.
pub etag_char : Bytes → Bool → State → ℕ → Bytes → Outcome Verdict
unfolding check_char
etag_char tok_start weak_ok start c tok = ok (
    if c == b'W'
    then go weak_slash tok
    else if c == b'"'
    then go check tok_start
    else if is_space c || c == b','
    then go start tok
    else answer false)
etag_char tok_start weak_ok weak_slash c tok =
    ok (if c == b'/' then go weak_quote tok else answer false)
etag_char tok_start weak_ok weak_quote c tok =
    ok (
      if not (c == b'"') then answer false else if weak_ok then go check tok_start else go skip tok)
etag_char tok_start weak_ok check c tok = do
  (x, rest) ← read_tok tok
  check_char c rest (not (x == 0) && x == c)
etag_char tok_start weak_ok check_quoted c tok = do
  (x, rest) ← read_tok tok
  ok (if x == 0 || not (x == c) then go skip tok else go check rest)
etag_char tok_start weak_ok skip c tok =
    ok (go (if c == b'\\' then skip_quoted else if c == b'"' then tail else skip) tok)
etag_char tok_start weak_ok skip_quoted c tok = ok (go skip tok)
etag_char tok_start weak_ok tail c tok =
    ok (if c == b',' then go start tok else if is_space c then go tail tok else answer false)

-- The loop, over the line and its 0.
pub etag_loop : Bytes → Bool → State → Bytes → Bytes → Outcome Bool
unfolding etag_char
etag_loop tok_start weak_ok state [] tok = fault
etag_loop tok_start weak_ok state (c ∷ line) tok =
    let round = (do
      v ← etag_char tok_start weak_ok state c tok
      elim v [ answer b ↦ ok b | go s t ↦ etag_loop tok_start weak_ok s line t ]) in
    if c == 0 then ok false else round

-- Behind a quote, or the tag is bad.
behind_quote : Bytes → Outcome (Option Bytes)
behind_quote tok = do (x, rest) ← read_tok tok; ok (if x == b'"' then some rest else none)

-- The tag behind its first quote; `none` is a bad tag.
pub tag_text : Bytes → Bool → Outcome (Option Bytes)
unfolding behind_quote
tag_text tok_start weak_ok = do
  (x, rest) ← read_tok tok_start
  let weak = do (y, rest') ← read_tok rest; if y == b'/' then behind_quote rest' else ok none
  if not (x == b'W') then behind_quote tok_start else if weak_ok then weak else ok none

-- `*` matches any tag.
is_star : Bytes → Outcome Bool
is_star line = do
  (x, rest) ← read_tok line
  let second = do (y, _) ← read_tok rest; ok (y == 0)
  if x == b'*' then second else ok false

pub etag_is_equal : Buffer → Bytes → Bool → Outcome Bool
unfolding etag_loop tag_text is_star
etag_is_equal etag line weak_ok = do
  star ← is_star line
  let compare = do
    text ← tag_text etag.ptr weak_ok
    elim text [ none ↦ ok false | some tok_start ↦ etag_loop tok_start weak_ok start line [] ]
  if star then ok true else if buffer_string_is_empty etag then ok false else compare

-- `etag_flags_t` is a set of three flags, and `struct stat` is read in three places.
pub record EtagFlags : Type 0 where
  pub use_inode : Bool
  pub use_mtime : Bool
  pub use_size : Bool

pub record Stat : Type 0 where
  pub st_ino : ℕ
  pub st_size : ℕ
  pub st_mtime : ℕ

module _ (heap : Allocator) where
  append_with_dash : Buffer → ℕ → Outcome Buffer
  append_with_dash b n = do
    b' ← buffer_append_int heap b n
    buffer_append_string_len heap b' (b'-' ∷ [])

  pub etag_create : Buffer → Stat → EtagFlags → Outcome Buffer
  unfolding append_with_dash
  etag_create etag st flags =
      let create = (do
        b ← buffer_reset etag
        b' ← (if flags.use_inode then append_with_dash b st.st_ino else ok b)
        b'' ← (if flags.use_size then append_with_dash b' st.st_size else ok b')
        if flags.use_mtime then buffer_append_int heap b'' st.st_mtime else ok b'') in
      if flags.use_inode || flags.use_mtime || flags.use_size then create else ok etag

-- `(h << 5) ^ (h >> 27) ^ c` on 32 bits, where a `char` of 128 or more is negative.
abbrev hash_char : ℕ → ℕ → ℕ
hash_char h c =
    let wide = if ltb c 128 then c else c + 2 ^ 32 - 256 in
    bit_xor (bit_xor (h * 32 % 2 ^ 32) (h / 2 ^ 27)) wide

pub hash_tag : ℕ → Bytes → ℕ
hash_tag h [] = h
hash_tag h (c ∷ s) = hash_tag (hash_char h c) s

module _ (heap : Allocator) where
  pub etag_mutate : Buffer → Buffer → Outcome Buffer
  unfolding hash_tag
  etag_mutate mut etag = do
    b ← buffer_reset mut
    b' ← buffer_copy_string_len heap b (b'"' ∷ [])
    b'' ← buffer_append_int heap b' (hash_tag 0 (string_bytes etag))
    buffer_append_string_len heap b'' (b'"' ∷ [])
