-- ===== src/Buffer/Edit/Case.antt =====
-- buffer.c: what the change to upper case does.
use lighttpd_multithread.Base.{ℕ, zero, suc, ◌≤◌, ◌≡◌, refl, [], ◌∷◌, length, ok, arith}
use lighttpd_multithread.Base.Memory.{Bytes}
use lighttpd_multithread.Buffer.{Buffer, size}
use lighttpd_multithread.Buffer.Edit.{map_used, to_upper, buffer_to_upper}

map_used_id :
    (f : ℕ → ℕ) (n : ℕ) (mem : Bytes)
    → ((c : ℕ) → f c ≡ c)
    → n ≤ length mem
    → map_used f n mem ≡ ok mem
unfolding map_used
map_used_id f zero mem e h = refl
map_used_id f (suc n) [] e h = absurd (omega arith)
map_used_id f (suc n) (c ∷ mem) e h = rw (map_used_id f n mem e (omega arith), e c) refl

-- `buffer_to_upper` changes no character of a buffer, whatever it holds: the letters that it looks
-- for are those that are in upper case already.
pub buffer_to_upper_unchanged : (b : Buffer) → b.used ≤ size b → buffer_to_upper b ≡ ok b
unfolding buffer_to_upper
buffer_to_upper_unchanged b h = rw (map_used_id to_upper b.used b.ptr (λ c. ground arith) h) refl
