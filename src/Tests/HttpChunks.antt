-- ===== src/Tests/HttpChunks.antt =====
-- A chunked body with a string, a range of a file, no data, and bytes.
use lighttpd_multithread.Base.{refl, ◌⊎◌, none, List, [], ◌∷◌, ◌++◌, true, some, false, arith}
use lighttpd_multithread.Base.Memory.{Bytes}
use lighttpd_multithread.Buffer.Hex.{codes}
use lighttpd_multithread.Buffer.Holds.{Stores}
use lighttpd_multithread.Buffer.Number.{buffer_append_uint_hex}
use lighttpd_multithread.Buffer.Number.Hexadecimal.{IsHexadecimal, append_uint_hex-Stores}
use lighttpd_multithread.Chunk.Contents.{Octet, bytes_octets, file_octets}
use lighttpd_multithread.HttpChunk.{http_chunk_append_file_range, Body, in_buffer, in_memory}
use lighttpd_multithread.HttpChunk.Append.{IsBody}
use lighttpd_multithread.HttpChunk.Ranges.{Answers, append_file_range-Answers}
use lighttpd_multithread.HttpChunk.Whole.{
  Part, put_data, put_range, AreParts, Delivers, Grows, Spills, send_body, send_body-Delivers,
}
use lighttpd_multithread.Chunk.Tempfile.{Tempdirs, default_tempfile_size}
use lighttpd_multithread.Tests.Files.{files}
use lighttpd_multithread.Tests.Chunks.{queue, queue-IsQueue}
use lighttpd_multithread.Tests.Heaps.{heap, ab, ab-Holds, unset, unset-Holds}

abbrev body : Body
body = record { write_queue = queue; tmp_chunk_len = unset; chunked = true; buf_min = false }

body-IsBody : IsBody body
body-IsBody = record { is_queue = queue-IsQueue; tmp_text = []; tmp_holds = unset-Holds }

abbrev parts : List Part
parts =
    put_data (in_buffer ab)
    ∷ put_range ab 3 5 20
    ∷ put_data (in_memory [])
    ∷ put_data (in_memory (codes "xyz"))
    ∷ []

abbrev from_file : List Octet
from_file = file_octets (codes "ab") 5 20

abbrev behind : List Octet
behind = bytes_octets [] ++ (bytes_octets (codes "xyz") ++ [])

abbrev octets : List Octet
octets = bytes_octets (codes "ab") ++ (from_file ++ behind)

parts-AreParts : AreParts parts octets
parts-AreParts = (
  bytes_octets (codes "ab"),
  from_file ++ behind,
  (codes "ab", ab-Holds, refl),
  (
    from_file,
    behind,
    (codes "ab", ab-Holds, omega arith, omega arith, refl),
    (
      [],
      bytes_octets (codes "xyz") ++ [],
      ([], (refl, omega arith), refl),
      (bytes_octets (codes "xyz"), [], (codes "xyz", (refl, omega arith), refl), refl, refl),
      refl,
    ),
    refl,
  ),
  refl,
)

-- No directory for temporary files.
abbrev no_dirs : Tempdirs
no_dirs = record { tempdirs = none; upload_temp_file_size = default_tempfile_size }

send_body-Delivers_example :
    ((wire : List Octet) × Delivers true 5 octets wire
      × Grows heap files no_dirs 3 body 0 wire (send_body heap files no_dirs 3 body 0 parts))
    ⊎ Spills heap files no_dirs 3 body 0 parts
send_body-Delivers_example =
    send_body-Delivers heap files no_dirs 3 body 0 parts octets body-IsBody parts-AreParts

append_uint_hex-Stores_example :
    (t : Bytes) × IsHexadecimal 300 t
    × Stores (codes "ab" ++ t) (buffer_append_uint_hex heap ab 300)
append_uint_hex-Stores_example =
    append_uint_hex-Stores heap ab (codes "ab") 300 ab-Holds (omega arith)

append_file_range-Answers_example :
    Answers body
      (codes "ab")
      30
      10
      (some 20)
      (http_chunk_append_file_range heap body ab (some (3, 30)) 10 (some 20))
append_file_range-Answers_example =
    append_file_range-Answers heap body ab (codes "ab") 3 30 10 (some 20) body-IsBody ab-Holds
      (omega arith)
