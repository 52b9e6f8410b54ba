-- ===== src/Buffer/Path.antt =====
-- buffer.c: `buffer_path_simplify`, which removes "." and ".." and empty segments from a path.
use lighttpd_multithread.Base.{
  ℕ, zero, suc, ◌+◌, ◌-◌, ◌&&◌, ◌||◌, Option, none, some, ◌==◌, if◌then◌else◌, Outcome, ok, fault,
  force_assert, ◌>>=◌, ◌>>◌,
}
use lighttpd_multithread.Base.Memory.{Bytes, Allocator}
use lighttpd_multithread.Buffer.{
  Buffer, buffer_string_is_empty, buffer_string_length, buffer_string_prepare_append,
  buffer_string_prepare_copy, buffer_string_set_length, store,
}
use lighttpd_multithread.Buffer.Encode.{byte_at}

-- `dest->ptr`, and `src->ptr` where it is not the same memory; `walk`, `out` and `slash` count from
-- the start of theirs.
pub record Walk : Type 0 where
  pub dest : Bytes
  pub src : Option Bytes
  pub walk : ℕ
  pub out : ℕ
  pub slash : ℕ
  pub c : ℕ
  pub pre1 : ℕ

-- `*walk`.
pub read_walk : Walk → Outcome ℕ
read_walk w = elim w.src [ none ↦ byte_at w.dest w.walk | some m ↦ byte_at m w.walk ]

pub skip_spaces : ℕ → Walk → Outcome Walk
unfolding read_walk
skip_spaces zero w = fault
skip_spaces (suc fuel) w = do
  c ← read_walk w
  let rest = skip_spaces fuel (record w { walk = w.walk + 1 })
  if c == b' ' then rest else ok w

-- `while (out > start && *out != '/') out--`.
pub back_to_slash : Bytes → ℕ → Outcome ℕ
back_to_slash mem zero = ok zero
back_to_slash mem (suc out) = do
  c ← byte_at mem (suc out)
  let rest = back_to_slash mem out
  if c == b'/' then ok (suc out) else rest

-- At the end of a segment: the new `out`.
pub end_segment : Bytes → (slash out c pre2 pre1 : ℕ) → Outcome ℕ
unfolding back_to_slash
end_segment mem slash out c pre2 pre1 =
    let toklen = out - slash in
    let keep_slash = λ (n : ℕ). if c == 0 then n + 1 else n in
    let parent = (if slash == 0 then ok 0 else back_to_slash mem (slash - 1)) in
    if toklen == 3 && pre2 == b'.' && pre1 == b'.'
    then (do n ← parent; ok (keep_slash n))
    else if toklen == 1 || (pre2 == b'/' && pre1 == b'.')
    then ok (keep_slash slash)
    else ok out

-- The loop. The result is the memory of `dest` and `out`.
pub simplify_loop : ℕ → Walk → Outcome (Bytes × ℕ)
unfolding end_segment
simplify_loop zero w = fault
simplify_loop (suc fuel) w =
    let round = (do
      c ← read_walk w
      m ← store w.dest w.out w.c
      let out = w.out + 1
      let at_end = c == b'/' || c == 0
      out' ← (if at_end then end_segment m w.slash out c w.pre1 w.c else ok out)
      simplify_loop fuel (record {
        dest = m;
        src = w.src;
        walk = w.walk + 1;
        out = out';
        slash = if at_end then out' else w.slash;
        c = c;
        pre1 = w.c;
      })) in
    if w.c == 0 then ok (w.dest, w.out) else round

module _ (heap : Allocator) where
  -- `dest` is the memory made ready, and `m` that of the source where it is another. The loops never
  -- run longer than the source has bytes, which is the fuel.
  pub simplify_into : Buffer → Option Bytes → ℕ → Outcome Buffer
  unfolding skip_spaces simplify_loop
  simplify_into dest m fuel = do
    let begin : Walk = record {
      dest = dest.ptr;
      src = m;
      walk = 0;
      out = 0;
      slash = 0;
      c = 0;
      pre1 = 0;
    }
    w ← skip_spaces fuel begin
    c ← read_walk w
    let first = record w { walk = w.walk + 1; c = c }
    let prefixed = do p ← store w.dest 0 b'/'; ok (record first { dest = p; out = 1; pre1 = b'/' })
    ready ← (if c == b'/' then ok first else prefixed)
    (p, out) ← simplify_loop fuel ready
    buffer_string_set_length heap (record dest { ptr = p }) out

  -- `none` is a `src` that is `dest` itself.
  pub buffer_path_simplify : Buffer → Option Buffer → Outcome Buffer
  unfolding simplify_into
  buffer_path_simplify dest none =
      let simplify = (do
        last ← byte_at dest.ptr (dest.used - 1)
        force_assert (last == 0)
        d ← buffer_string_prepare_append heap dest 1
        simplify_into d none dest.used) in
      if buffer_string_is_empty dest then buffer_string_prepare_copy heap dest 0 else simplify
  buffer_path_simplify dest (some src) =
      let simplify = (do
        last ← byte_at src.ptr (src.used - 1)
        force_assert (last == 0)
        d ← buffer_string_prepare_copy heap dest (buffer_string_length src + 1)
        simplify_into d (some src.ptr) src.used) in
      if buffer_string_is_empty src then buffer_string_prepare_copy heap dest 0 else simplify
