-- ===== src/Connections/Take.antt =====
-- connections.c: the header that is taken out of the chunks.
use lighttpd_multithread.Base.{
  ℕ, zero, suc, ◌+◌, ◌≤◌, ◌<◌, ◌≡◌, refl, sym, ap, ◌∙◌, inl, inr, List, [], ◌∷◌, ◌++◌, append_assoc,
  append-nil, length, length-append, length-take, length-drop, take, drop, take-append-drop,
  take-append_left, drop-append_left, Outcome, ok, arith,
}
use lighttpd_multithread.Base.Memory.{Bytes, size_mod, Allocator}
use lighttpd_multithread.Buffer.{Buffer, string_bytes, buffer_string_length}
use lighttpd_multithread.Buffer.Holds.{Holds}
use lighttpd_multithread.Buffer.Append.{append_string_len-Stores}
use lighttpd_multithread.Buffer.Whole.{string_bytes-Holds}
use lighttpd_multithread.Chunk.{ChunkType, mem_chunk, Chunk, chunk_length, length_of}
use lighttpd_multithread.Chunk.Steal.{bytes_at_lem}
use lighttpd_multithread.Chunk.Contents.{IsChunk, length-Holds, drop-drop}
use lighttpd_multithread.Connections.{unread, all_unread, take_bytes, take_header}
use lighttpd_multithread.Connections.Header.{joined, bytes_before}

-- A valid chunk in memory.
pub record IsRead (c : Chunk) : Type 0 where
  pub valid : IsChunk c
  pub in_memory : c.type ≡ mem_chunk

abbrev pub AreRead : List Chunk → Type 0
AreRead [] = Unit
AreRead (c ∷ cs) = IsRead c × AreRead cs

length_mem : (c : Chunk) → c.type ≡ mem_chunk → chunk_length c ≡ buffer_string_length c.mem
length_mem c e = ap (λ (t : ChunkType). length_of t c.mem c.file_length) e

module _ (heap : Allocator) where
  take_bytes_lem :
      (request : Buffer) (s : Bytes) (c : Chunk) (n : ℕ)
      → Holds s request
      → IsRead c
      → n ≤ length (unread c)
      → length s + n + 1 < size_mod
      → (b : Buffer) × (d : Chunk) × (take_bytes heap request c n ≡ ok (b, d))
        × Holds (s ++ take n (unread c)) b
        × IsRead d
        × (unread d ≡ drop n (unread c))
  unfolding take_bytes
  take_bytes_lem request s c n h r p f =
      let text = r.valid.text in
      let held = r.valid.mem_holds in
      let same = string_bytes-Holds text c.mem held in
      let bound : c.offset ≤ length text =
        omega (arith, r.valid.within, length_mem c r.in_memory, length-Holds text c.mem held) in
      let p' : n ≤ length (drop c.offset text) = rw same at p in
      let inside : c.offset + n ≤ length text = omega (arith, length-drop c.offset text) in
      let part = take n (drop c.offset text) in
      let size_part : length part ≡ n = omega (arith, length-take n (drop c.offset text)) in
      let read = bytes_at_lem text c.mem c.offset n held inside in
      let d = record c { offset = c.offset + n } in
      let is_read : IsRead d = record {
        valid = record {
          text = text;
          mem_holds = held;
          name = r.valid.name;
          name_holds = r.valid.name_holds;
          within = omega (arith, length_mem d r.in_memory, length-Holds text c.mem held);
        };
        in_memory = r.in_memory;
      } in
      elim (append_string_len-Stores heap s part request h (omega arith)) [
        | inl (b, e, i) ↦ (
          b,
          d,
          rw (read, e) refl,
          inl (rw same i),
          is_read,
          sym (drop-drop (string_bytes c.mem) c.offset n),
        )
        | inr (large, e) ↦ absurd (omega (arith, length-append s part))
      ]

-- A place within the chunks, and the bytes before it.
abbrev pub InChunks : List Bytes → ℕ → ℕ → Type 0
InChunks [] k j = ⊥
InChunks (b ∷ rest) zero j = j ≤ length b
InChunks (b ∷ rest) (suc k) j = InChunks rest k j

abbrev pub count : List Bytes → ℕ → ℕ → ℕ
count [] k j = j
count (b ∷ rest) zero j = j
count (b ∷ rest) (suc k) j = length b + count rest k j

pub count-bytes_before :
    (b : Bytes) (rest : List Bytes) (k j : ℕ)
    → InChunks (b ∷ rest) k j
    → count (b ∷ rest) k j ≡ bytes_before (length b) rest k j
count-bytes_before b rest zero j h = refl
count-bytes_before b [] (suc k) j h = absurd h
count-bytes_before b (c ∷ rest) (suc k) j h =
    ap (λ (i : ℕ). length b + i) (count-bytes_before c rest k j h)

-- The bytes `t` are taken from the chunks `cs` and stand behind `s`.
abbrev pub Takes : Bytes → List Chunk → ℕ → Outcome (Buffer × List Chunk × ℕ) → Type 0
Takes s cs n o =
    (b : Buffer) × (ds : List Chunk) × (t : Bytes) × (o ≡ ok (b, ds, length t))
    × Holds (s ++ t) b
    × AreRead ds
    × (joined (all_unread cs) ≡ t ++ joined (all_unread ds))
    × (length t ≡ n)

module _ (heap : Allocator) where
  pub take_header_lem :
      (request : Buffer) (s : Bytes) (cs : List Chunk) (k j : ℕ)
      → Holds s request
      → AreRead cs
      → InChunks (all_unread cs) k j
      → length s + count (all_unread cs) k j + 1 < size_mod
      → Takes s cs
          (count (all_unread cs) k j)
          (take_header heap request cs (record { chunk = k; offset = j }))
  unfolding take_header
  take_header_lem request s [] k j h r p f = absurd p
  take_header_lem request s (c ∷ cs) zero j h r p f =
      let (b, d, e, g, v, w) = take_bytes_lem heap request s c j h r.0 p f in
      let t = take j (unread c) in
      let size_t : length t ≡ j = omega (arith, length-take j (unread c)) in
      (
        b,
        d ∷ cs,
        t,
        rw (e, size_t) refl,
        g,
        (v, r.1),
        ap (λ (x : Bytes). x ++ joined (all_unread cs)) (sym (take-append-drop j (unread c)))
            ∙ append_assoc t (drop j (unread c)) (joined (all_unread cs))
            ∙ ap (λ (x : Bytes). t ++ (x ++ joined (all_unread cs))) (sym w),
        size_t,
      )
  take_header_lem request s (c ∷ cs) (suc k) j h r p f =
      let n = length (unread c) in
      let (b, d, e, g, v, w) =
        take_bytes_lem heap request s c n h r.0 (omega arith) (omega (arith, f)) in
      let whole : take n (unread c) ≡ unread c =
        ap (take n) (sym (append-nil (unread c))) ∙ take-append_left (unread c) [] n refl in
      let none_left : unread d ≡ [] =
        w ∙ ap (drop n) (sym (append-nil (unread c))) ∙ drop-append_left (unread c) [] n refl in
      let g' : Holds (s ++ unread c) b = rw (whole) at g in
      let (b', ds, t, e', g'', v', w', m) =
        take_header_lem b (s ++ unread c) cs k j g' r.1 p
          (omega (arith, f, length-append s (unread c))) in
      (
        b',
        d ∷ ds,
        unread c ++ t,
        rw (e, e') (ap (λ (i : ℕ). ok (b', d ∷ ds, i)) (sym (length-append (unread c) t))),
        rw (append_assoc s (unread c) t) at g'',
        (v, v'),
        ap (◌++◌ (unread c)) w'
            ∙ sym (append_assoc (unread c) t (joined (all_unread ds)))
            ∙ ap (λ (x : Bytes). (unread c ++ t) ++ (x ++ joined (all_unread ds))) (sym none_left),
        omega (arith, m, length-append (unread c) t),
      )
