-- ===== src/HttpChunk/Ranges.antt =====
-- http_chunk.c: a range of a file that was opened, or its whole.
use lighttpd_multithread.Base.{
  ℕ, ◌+◌, ◌-◌, ◌^◌, ◌≤◌, ◌<◌, ◌≡◌, refl, ◌⊎◌, inl, inr, Bool, true, false, Option, none, some, List,
  ltb, leb, ◌==◌, ltb→lt, ltb→ge, leb→le, Bool-cases, Outcome, ok, ◌>>=◌, arith,
}
use lighttpd_multithread.Base.Memory.{Bytes, Allocator}
use lighttpd_multithread.Buffer.{Buffer}
use lighttpd_multithread.Buffer.Holds.{Holds}
use lighttpd_multithread.Chunk.Contents.{Octet, file_octets}
use lighttpd_multithread.HttpChunk.{
  Body, http_chunk_append_file_fd_range, http_chunk_append_file_range,
}
use lighttpd_multithread.HttpChunk.Append.{IsBody, IsLonger, Carries, append_file_fd_range-Sends}

-- The call says that it succeeded, and its octets are behind those that the body held.
abbrev pub Succeeds : Body → List Octet → Outcome (Body × Bool) → Type 0
Succeeds con d o =
    (wire : List Octet) × Carries con.chunked d wire
    × ((r : Body) × (o ≡ ok (r, true)) × IsLonger con wire r)

-- What the call does with a file of `st_size` octets, by the length that is asked for.
abbrev pub Answers : Body → Bytes → (st_size offset : ℕ) → Option ℕ → Outcome (Body × Bool) → Type 0
Answers con name st_size offset (some len) o =
    ((offset + len ≤ st_size) × Succeeds con (file_octets name offset len) o)
    ⊎ ((st_size < offset + len) × (o ≡ ok (con, false)))
Answers con name st_size offset none o =
    ((offset < st_size) × Succeeds con (file_octets name offset (st_size - offset)) o)
    ⊎ ((st_size ≤ offset) × (o ≡ ok (con, offset == st_size)))

module _ (heap : Allocator) where
  range-Succeeds :
      (con : Body) (fn : Buffer) (name : Bytes) (fd offset len : ℕ)
      → IsBody con
      → Holds name fn
      → len < 2 ^ 64
      → Succeeds con
          (file_octets name offset len)
          (do c ← http_chunk_append_file_fd_range heap con fn fd offset len; ok (c, true))
  range-Succeeds con fn name fd offset len v h f =
      let (wire, carries, (r, e, l)) =
        append_file_fd_range-Sends heap con fn name fd offset len v h f in
      (wire, carries, (r, rw e refl, l))

  -- For a valid body and a file of `st_size` octets, fewer than 2 ^ 64, http_chunk_append_file_range
  -- returns. If all octets that are asked for are there, it succeeds, and they are behind those that
  -- the body held, as a chunk of the coding where the body is chunked; without a length these are all
  -- octets from `offset` on, where there is one. Otherwise the body is as it was, and the call fails,
  -- unless there is no length and `offset` is the size of the file.
  pub append_file_range-Answers :
      (con : Body) (fn : Buffer) (name : Bytes) (fd st_size offset : ℕ) (len : Option ℕ)
      → IsBody con
      → Holds name fn
      → st_size < 2 ^ 64
      → Answers con name st_size offset len
          (http_chunk_append_file_range heap con fn (some (fd, st_size)) offset len)
  unfolding http_chunk_append_file_range
  append_file_range-Answers con fn name fd st_size offset (some len) v h f =
      elim (Bool-cases (ltb st_size (offset + len))) [
        | inl short ↦ inr (ltb→lt _ _ short, rw short refl)
        | inr there ↦
            let fits = ltb→ge _ _ there in
            inl (
              fits,
              rw there (range-Succeeds con fn name fd offset len v h (omega (arith, fits, f))),
            )
      ]
  append_file_range-Answers con fn name fd st_size offset none v h f =
      elim (Bool-cases (leb st_size offset)) [
        | inl short ↦ inr (leb→le _ _ short, rw short refl)
        | inr there ↦ inl (
          ground (arith, there),
          rw there (range-Succeeds con fn name fd offset (st_size - offset) v h (omega (arith, f))),
        )
      ]
