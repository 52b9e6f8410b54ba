-- ===== src/Tests/Chunks.antt =====
-- A queue with a string and a range of a file.
use lighttpd_multithread.Base.{
  ◌+◌, ◌<◌, ◌≡◌, refl, ◌⊎◌, List, [], ◌∷◌, ◌++◌, none, some, false, length, ok, aborted, arith,
}
use lighttpd_multithread.Buffer.{Buffer, buffer_string_length}
use lighttpd_multithread.Buffer.Hex.{codes}
use lighttpd_multithread.Buffer.Holds.{Holds}
use lighttpd_multithread.Chunk.{
  mem_chunk, file_chunk, Chunk, Chunkqueue, chunkqueue_append_mem, chunkqueue_append_buffer,
  chunkqueue_append_chunkqueue, chunkqueue_steal, chunkqueue_mark_written,
  chunkqueue_remove_empty_chunks,
}
use lighttpd_multithread.Chunk.Contents.{Octet, bytes_octets, contents, IsChunk, IsQueue}
use lighttpd_multithread.Chunk.Append.{AppendsTo, append_mem-AppendsTo, append_buffer-AppendsTo}
use lighttpd_multithread.Chunk.Join.{append_chunkqueue_lem}
use lighttpd_multithread.Chunk.Steal.{Steals, chunkqueue_steal-Steals}
use lighttpd_multithread.Chunk.Written.{mark_written_lem}
use lighttpd_multithread.Chunk.Clean.{remove_empty_chunks_lem}
use lighttpd_multithread.Tests.Heaps.{heap, ab, ab-Holds, unset, unset-Holds}

-- "ab", of which the first byte is sent.
abbrev pub in_memory : Chunk
in_memory = record {
  type = mem_chunk;
  mem = ab;
  file_name = unset;
  file_start = 0;
  file_length = 0;
  file_fd = none;
  is_temp = false;
  offset = 1;
}

-- The octets 10 to 14 of the file "ab".
abbrev pub in_file : Chunk
in_file = record {
  type = file_chunk;
  mem = unset;
  file_name = ab;
  file_start = 10;
  file_length = 5;
  file_fd = some 3;
  is_temp = false;
  offset = 0;
}

in_memory-IsChunk : IsChunk in_memory
unfolding buffer_string_length
in_memory-IsChunk = record {
  text = codes "ab";
  mem_holds = ab-Holds;
  name = [];
  name_holds = unset-Holds;
  within = omega arith;
}

in_file-IsChunk : IsChunk in_file
in_file-IsChunk = record {
  text = [];
  mem_holds = unset-Holds;
  name = codes "ab";
  name_holds = ab-Holds;
  within = omega arith;
}

abbrev pub queue : Chunkqueue
queue = record {
  chunks = in_memory ∷ in_file ∷ [];
  unused = [];
  unused_chunks = 0;
  bytes_in = 7;
  bytes_out = 1;
  tempdir_idx = 0;
}

pub queue-IsQueue : IsQueue queue
unfolding buffer_string_length
queue-IsQueue = record {
  all_chunks = (in_memory-IsChunk, (in_file-IsChunk, tt));
  has_unused = record { all_reset = tt; counted = refl; at_most = omega arith };
  balance = refl;
}

chunkqueue_steal-Steals_example :
    Steals queue.chunks queue queue 3 (chunkqueue_steal heap queue queue 3)
chunkqueue_steal-Steals_example =
    chunkqueue_steal-Steals heap queue queue 3 queue-IsQueue queue-IsQueue

mark_written_lem_example :
    ((r : Chunkqueue) × (sent : List Octet) × (chunkqueue_mark_written queue 3 ≡ ok r)
      × IsQueue r
      × (contents queue.chunks ≡ sent ++ contents r.chunks)
      × (length sent ≡ 3)
      × (r.bytes_out ≡ queue.bytes_out + 3))
    ⊎ ((length (contents queue.chunks) < 3) × (chunkqueue_mark_written queue 3 ≡ aborted))
mark_written_lem_example = mark_written_lem queue 3 queue-IsQueue

append_mem-AppendsTo_example :
    AppendsTo queue (bytes_octets (codes "xyz")) (chunkqueue_append_mem heap queue (codes "xyz"))
append_mem-AppendsTo_example =
    append_mem-AppendsTo heap queue (codes "xyz") queue-IsQueue (omega arith)

append_buffer-AppendsTo_example :
    (r : Chunkqueue) × (rest : Buffer) × (chunkqueue_append_buffer queue ab ≡ ok (r, rest))
    × IsQueue r
    × (contents r.chunks ≡ contents queue.chunks ++ bytes_octets (codes "ab"))
    × (r.bytes_out ≡ queue.bytes_out)
    × Holds [] rest
append_buffer-AppendsTo_example =
    append_buffer-AppendsTo queue ab (codes "ab") queue-IsQueue ab-Holds

append_chunkqueue_lem_example :
    let (r, rest) = chunkqueue_append_chunkqueue queue queue in
    IsQueue r
    × IsQueue rest
    × (contents r.chunks ≡ contents queue.chunks ++ contents queue.chunks)
    × (contents rest.chunks ≡ [])
append_chunkqueue_lem_example = append_chunkqueue_lem queue queue queue-IsQueue queue-IsQueue

remove_empty_chunks_lem_example :
    (r : Chunkqueue) × (chunkqueue_remove_empty_chunks queue ≡ ok r)
    × IsQueue r
    × (contents r.chunks ≡ contents queue.chunks)
    × (r.bytes_out ≡ queue.bytes_out)
remove_empty_chunks_lem_example = remove_empty_chunks_lem queue queue-IsQueue
