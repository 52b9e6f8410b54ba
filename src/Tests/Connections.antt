-- ===== src/Tests/Connections.antt =====
-- A request in two chunks.
use lighttpd_multithread.Base.{
  ◌+◌, ◌<◌, ◌≡◌, refl, inl, List, [], ◌∷◌, ◌++◌, none, some, false, length, Option, ok, arith,
}
use lighttpd_multithread.Base.Memory.{Bytes}
use lighttpd_multithread.Buffer.{Buffer, buffer_string_length}
use lighttpd_multithread.Chunk.{mem_chunk, Chunk, Chunkqueue}
use lighttpd_multithread.Chunk.Contents.{IsQueue}
use lighttpd_multithread.Connections.{search_chunks, read_header, all_unread}
use lighttpd_multithread.Connections.Header.{joined, header_end}
use lighttpd_multithread.Connections.Chunks.{
  bytes_to, BreaksLast, search_chunks-joined, search_chunks_misses,
}
use lighttpd_multithread.Connections.Take.{AreRead, IsRead}
use lighttpd_multithread.Connections.Read.{TakesHeader, read_header-TakesHeader}
use lighttpd_multithread.Tests.Heaps.{heap, ab, unset, unset-Holds}

-- "G\r\n\r" and "\nx".
abbrev first_half : Bytes
first_half = b'G' ∷ b'\r' ∷ b'\n' ∷ b'\r' ∷ []

abbrev second_half : Bytes
second_half = b'\n' ∷ b'x' ∷ []

abbrev halves : List Bytes
halves = first_half ∷ second_half ∷ []

search_chunks-joined_example : bytes_to halves (search_chunks halves) ≡ header_end (joined halves) 0
search_chunks-joined_example = search_chunks-joined halves (refl, tt)

-- "G\n\n", and then "H\r\n\r\n".
search_chunks_misses_example :
    let x : Bytes = b'G' ∷ b'\n' ∷ b'\n' ∷ [] in
    let y : Bytes = b'H' ∷ b'\r' ∷ b'\n' ∷ b'\r' ∷ b'\n' ∷ [] in
    (header_end (joined (x ∷ y ∷ [])) 0 ≡ some 3)
    × (bytes_to (x ∷ y ∷ []) (search_chunks (x ∷ y ∷ [])) ≡ some 8)
search_chunks_misses_example =
    search_chunks_misses (b'G' ∷ []) [] (b'H' ∷ b'\r' ∷ b'\n' ∷ b'\r' ∷ b'\n' ∷ []) 5
      (omega arith, omega arith, tt) refl

abbrev in_memory : Bytes → Chunk
in_memory s = record {
  type = mem_chunk;
  mem = record { ptr = s ++ (0 ∷ []); used = length s + 1 };
  file_name = unset;
  file_start = 0;
  file_length = 0;
  file_fd = none;
  is_temp = false;
  offset = 0;
}

in_memory-IsRead : (s : Bytes) → length (s ++ (0 ∷ [])) < 100 → IsRead (in_memory s)
in_memory-IsRead s h = record {
  valid = record {
    text = s;
    mem_holds = inl (record { spare = []; ptr_is = refl; used_is = refl; fits = omega (arith, h) });
    name = [];
    name_holds = unset-Holds;
    within = omega arith;
  };
  in_memory = refl;
}

abbrev read_queue : Chunkqueue
read_queue = record {
  chunks = in_memory first_half ∷ in_memory second_half ∷ [];
  unused = [];
  unused_chunks = 0;
  bytes_in = 6;
  bytes_out = 0;
  tempdir_idx = 0;
}

read_queue-AreRead : AreRead read_queue.chunks
read_queue-AreRead =
    (in_memory-IsRead first_half (omega arith), (in_memory-IsRead second_half (omega arith), tt))

read_queue-IsQueue : IsQueue read_queue
unfolding buffer_string_length
read_queue-IsQueue = record {
  all_chunks = (read_queue-AreRead.0.valid, (read_queue-AreRead.1.0.valid, tt));
  has_unused = record { all_reset = tt; counted = refl; at_most = omega arith };
  balance = refl;
}

read_queue-BreaksLast : BreaksLast (all_unread read_queue.chunks)
unfolding buffer_string_length
read_queue-BreaksLast = (refl, tt)

read_queue-header_end : header_end (joined (all_unread read_queue.chunks)) 0 ≡ some 5
unfolding buffer_string_length
read_queue-header_end = refl

read_header-TakesHeader_example :
    (t : Bytes) × (o : Option (Buffer × Chunkqueue)) × (length t ≡ 5)
    × (read_header heap ab read_queue ≡ ok o)
    × TakesHeader read_queue t o
read_header-TakesHeader_example =
    read_header-TakesHeader heap ab read_queue 5 (omega arith) read_queue-IsQueue read_queue-AreRead
      read_queue-BreaksLast read_queue-header_end (omega arith)
