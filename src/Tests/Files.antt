-- ===== src/Tests/Files.antt =====
-- A file of 100 octets, which is opened for the octets 10 to 14.
use lighttpd_multithread.Base.{ℕ, suc, ◌≡◌, ◌⊎◌, Bool, true, false, none, some, [], ◌∷◌, ok, arith}
use lighttpd_multithread.Chunk.{Chunk}
use lighttpd_multithread.Chunk.Tempfile.{FileSystem, failed}
use lighttpd_multithread.Chunk.Tempfile.Steal.{chunkqueue_open_file_chunk}
use lighttpd_multithread.Chunk.Tempfile.Steal.Open.{
  of_file, Checks, opened, Fails, Opens, open_file_chunk-Checks,
}
use lighttpd_multithread.Tests.Chunks.{in_file, queue}

-- The state is how many files were opened; nothing can be written.
abbrev pub files : FileSystem
files = record {
  State = ℕ;
  mkstemp = λ s name. (s, none);
  set_append = λ s fd. (s, false);
  write = λ s fd mem. (s, failed);
  close = λ s fd. (s, true);
  open_rdonly = λ s name. (suc s, some s);
  fstat_size = λ s fd. some 100;
}

abbrev unopened : Chunk
unopened = record in_file { file_fd = none }

open_file_chunk-Checks_example :
    let d = of_file unopened in
    let o = chunkqueue_open_file_chunk files (record queue { chunks = d ∷ [] }) 3 in
    (t : ℕ) × ((Fails files d 3 t × (o ≡ ok (t, record queue { chunks = d ∷ [] }, false)))
      ⊎ ((n : ℕ) × (good : Bool) × Opens files d 3 t n
          × (o ≡ ok (t, opened files queue d [] n, good))
          × Checks files d t n good))
open_file_chunk-Checks_example = open_file_chunk-Checks files queue unopened [] 3 (omega arith)
