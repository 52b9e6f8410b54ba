-- ===== src/Connections.antt =====
-- connections.c: how a connection finds the end of a request header in the chunks that it has read,
-- and takes the header out of them.
pub mod Header
pub mod Search
pub mod Chunks
pub mod Take
pub mod Places
pub mod Read
pub mod Details
pub mod Handle
pub mod Cycle
pub mod Io
pub mod Machine
use lighttpd_multithread.Base.{
  ℕ, zero, suc, ◌+◌, ◌-◌, Bool, true, false, Option, none, some, List, [], ◌∷◌, ◌++◌, ◌==◌,
  if◌then◌else◌, drop, length, Outcome, ok, fault, ◌>>=◌,
}
use lighttpd_multithread.Base.Memory.{Bytes, Allocator}
use lighttpd_multithread.Buffer.{Buffer, buffer_reset, buffer_append_string_len, string_bytes}
use lighttpd_multithread.Chunk.{Chunk, Chunkqueue, bytes_at}

-- `last_chunk`, counted from the chunk at hand, and `last_offset`.
pub record Place : Type 0 where
  pub chunk : ℕ
  pub offset : ℕ

abbrev pub in_next : Place → Place
in_next p = record { chunk = suc p.chunk; offset = p.offset }

abbrev pub option_next : Option Place → Option Place
option_next none = none
option_next (some p) = some (in_next p)

-- What is still to be read of a chunk; `offset` is within the string.
abbrev pub unread : Chunk → Bytes
unread c = drop c.offset (string_bytes c.mem)

-- Whether what is left of `header_end` follows, here and in the next chunks. `j` bytes of this
-- chunk stand before.
pub match_end : Bytes → Bytes → List Bytes → ℕ → Option Place
match_end [] b rest j = some (record { chunk = 0; offset = j })
match_end (x ∷ header_end) (ch ∷ b) rest j =
    let more = match_end header_end b rest (j + 1) in if ch == x then more else none
match_end (x ∷ header_end) [] [] j = none
match_end (x ∷ header_end) [] (b ∷ rest) j = option_next (match_end (x ∷ header_end) b rest 0)

-- Whether the next chunk that is not empty starts with '\n'.
pub match_lf : List Bytes → Option Place
match_lf [] = none
match_lf ([] ∷ rest) = option_next (match_lf rest)
match_lf ((ch ∷ b) ∷ rest) = if ch == b'\n' then some (record { chunk = 1; offset = 1 }) else none

-- How the loop over one chunk is left: by `goto`, by `break`, or at its end.
pub data Found : Type 0 where
  jumped broken : Place → Found
  unfound : Found

jump_or : Option Place → Found → Found
jump_or none more = more
jump_or (some p) more = jumped p

after_lf : Bytes → List Bytes → ℕ → Found → Found
unfolding match_lf jump_or
after_lf [] rest i more = jump_or (match_lf rest) more
after_lf (ch ∷ b) rest i more =
    if ch == b'\n' then broken (record { chunk = 0; offset = i + 2 }) else more

pub search_chunk : Bytes → List Bytes → ℕ → Found
unfolding match_end after_lf
search_chunk [] rest i = unfound
search_chunk (ch ∷ b) rest i =
    let more = search_chunk b rest (i + 1) in
    let crlf = jump_or (match_end (b'\n' ∷ b'\r' ∷ b'\n' ∷ []) b rest (i + 1)) more in
    if ch == b'\r' then crlf else if ch == b'\n' then after_lf b rest i more else more

-- The loop over the chunks goes on behind a `break`, and a later place replaces the one found.
or_before : Option Place → Place → Option Place
or_before none p = some p
or_before (some later) p = some later

pub search_chunks : List Bytes → Option Place
unfolding search_chunk or_before
search_chunks [] = none
search_chunks (b ∷ rest) =
    let later = option_next (search_chunks rest) in
    elim (search_chunk b rest 0) [
      | jumped p ↦ some p
      | broken p ↦ or_before later p
      | unfound ↦ later
    ]

abbrev pub all_unread : List Chunk → List Bytes
all_unread [] = []
all_unread (c ∷ cs) = unread c ∷ all_unread cs

module _ (heap : Allocator) where
  -- A chunk of which `len` bytes are taken.
  pub take_bytes : Buffer → Chunk → ℕ → Outcome (Buffer × Chunk)
  take_bytes request c len = do
    text ← bytes_at c.mem.ptr c.offset len
    b ← buffer_append_string_len heap request text
    ok (b, record c { offset = c.offset + len })

  -- The loop that copies the header. The last component is what it adds to `bytes_out`.
  pub take_header : Buffer → List Chunk → Place → Outcome (Buffer × List Chunk × ℕ)
  unfolding take_bytes
  take_header request [] place = ok (request, [], 0)
  take_header request (c ∷ cs) place = elim place.chunk [
    | zero ↦ do (b, c') ← take_bytes request c place.offset; ok (b, c' ∷ cs, place.offset)
    | suc n ↦ do
      let len = length (unread c)
      (b, c') ← take_bytes request c len
      (b', cs', taken) ← take_header b cs (record { chunk = n; offset = place.offset })
      ok (b', c' ∷ cs', len + taken)
  ]

  -- The part of `connection_handle_read_state` between the reading of the network and the new
  -- state: the header's buffer and the queue, where a header's end is there.
  pub read_header : Buffer → Chunkqueue → Outcome (Option (Buffer × Chunkqueue))
  unfolding search_chunks take_header
  read_header request cq =
      let take_it = λ (p : Place). (do
        b ← buffer_reset request
        (b', cs, taken) ← take_header b cq.chunks p
        ok (some (b', record cq { chunks = cs; bytes_out = cq.bytes_out + taken }))) in
      elim (search_chunks (all_unread cq.chunks)) [ none ↦ ok none | some p ↦ take_it p ]
