-- ===== src/Connections/Io/State.antt =====
-- connections.c: the state of a connection after it has read or written.
use lighttpd_multithread.Base.{
  ℕ, zero, suc, ◌≡◌, refl, sym, ap, ◌∙◌, ◌⊎◌, inl, inr, Bool, true, false, not, ◌&&◌, Option, none,
  some, ltb, ◌==◌, if◌then◌else◌, Bool-cases, ok, ◌>>=◌, Ensures, Ensures-bind, Ensures-after,
  Ensures-if, Ensures-test, arith,
}
use mathlib.Core.Path.{subst}
use lighttpd_multithread.Base.Memory.{Allocator}
use lighttpd_multithread.Buffer.{Buffer}
use lighttpd_multithread.Chunk.{Chunkqueue, chunkqueue_length, chunkqueue_remove_finished_chunks}
use lighttpd_multithread.Connections.{read_header}
use lighttpd_multithread.Connections.Handle.{
  ConnectionState, con_connect, con_read, con_request_end, con_handle_request, con_write,
  con_response_end, con_error, Connection, Handler, handler_unset, handler_go_on, handler_finished,
  handler_comeback, handler_wait_for_event, handler_error, handler_wait_for_fd,
}
use lighttpd_multithread.Connections.Cycle.{Cycle}
use lighttpd_multithread.Connections.Cycle.State.{close_state}
use lighttpd_multithread.Connections.Io.{
  NetResult, net_failed, net_closed, net_done, WriteResult, all_written, write_failed, remote_close,
  blocked, Net, Turn, is_empty, is_writing, time_written, by_result, after_network,
  connection_write_chunkqueue, connection_handle_write, write_queued, by_subrequest, ask_plugin,
  writes_on, connection_handle_write_state, connection_handle_close_state, after_search,
  read_queued, by_read, connection_handle_read_state,
}

abbrev pub AfterWrite : ConnectionState → Type 0
AfterWrite s = (s ≡ con_write) ⊎ ((s ≡ con_response_end) ⊎ (s ≡ con_error))

abbrev pub AfterRead : ConnectionState → Type 0
AfterRead s =
    (s ≡ con_read) ⊎ ((s ≡ con_request_end) ⊎ ((s ≡ con_error) ⊎ (s ≡ con_handle_request)))

still_writing : (s : ConnectionState) → AfterWrite s → is_writing s ≡ true → s ≡ con_write
still_writing s (inl e) h = e
still_writing s (inr (inl e)) h = absurd (ground (arith, sym (ap is_writing e) ∙ h))
still_writing s (inr (inr e)) h = absurd (ground (arith, sym (ap is_writing e) ∙ h))

module _ {R : Type 0} (net : Net R) where
  finished_or :
      (b : Bool) (c : Connection R)
      → c.state ≡ con_write
      → AfterWrite (if b then record c { state = con_response_end } else c).state
  finished_or true c e = inr (inl refl)
  finished_or false c e = inl e

  by_result_state :
      (r : WriteResult) (c : Connection R)
      → c.state ≡ con_write
      → AfterWrite (by_result net r c).state
  unfolding by_result
  by_result_state all_written c e = finished_or c.file_finished (time_written net c) e
  by_result_state write_failed c e = inr (inr refl)
  by_result_state remote_close c e = inr (inr refl)
  by_result_state blocked c e = inl e

  -- The state after the first half of a round; the loop is left by `break` if it is not con_write.
  abbrev HalfWritten : Connection R × Bool → Type 0
  HalfWritten p = AfterWrite p.0.state × (p.1 ≡ false → p.0.state ≡ con_write)

  module _ (keeps : (c : Connection R) (n : ℕ) → (net.network_write c n).0.state ≡ c.state) where
    after_network_state :
        (r : NetResult) (out : ℕ) (c : Connection R)
        → Ensures
            (λ (p : Connection R × WriteResult). p.0.state ≡ c.state)
            (after_network net r out c)
    unfolding after_network
    after_network_state net_done out c =
        Ensures-after (λ (p : Connection R × WriteResult). p.0.state ≡ c.state)
          (chunkqueue_remove_finished_chunks c.write_queue) _ (λ q. refl)
    after_network_state net_failed out c = refl
    after_network_state net_closed out c = refl

    write_chunkqueue_state :
        (c : Connection R)
        → Ensures
            (λ (p : Connection R × WriteResult). p.0.state ≡ c.state)
            (connection_write_chunkqueue net c)
    unfolding connection_write_chunkqueue
    write_chunkqueue_state c =
        let (rest, max_bytes) = net.connection_write_throttle c.rest in
        let throttled = record c { rest = rest } in
        let (d, r) = net.network_write throttled max_bytes in
        Ensures-if (λ (p : Connection R × WriteResult). p.0.state ≡ c.state) (max_bytes == 0) _ _
          refl
          (subst
            (λ s.
              Ensures (λ (p : Connection R × WriteResult). p.0.state ≡ s)
                (after_network net r c.write_queue.bytes_out d))
            (keeps throttled max_bytes) (after_network_state r c.write_queue.bytes_out d))

    handle_write_state :
        (c : Connection R)
        → c.state ≡ con_write
        → Ensures (λ (d : Connection R). AfterWrite d.state) (connection_handle_write net c)
    unfolding connection_handle_write
    handle_write_state c e =
        Ensures-bind (λ (p : Connection R × WriteResult). p.0.state ≡ c.state)
          (λ (d : Connection R). AfterWrite d.state) (connection_write_chunkqueue net c) _
          (write_chunkqueue_state c) (λ p same. by_result_state p.1 p.0 (same ∙ e))

    write_queued_state :
        (c : Connection R) → c.state ≡ con_write → Ensures HalfWritten (write_queued net c)
    unfolding write_queued
    write_queued_state c e =
        let waits : Ensures HalfWritten (ok (c, false)) = (inl e, λ q. e) in
        let write : Ensures HalfWritten
            (do d ← connection_handle_write net c; ok (d, not (is_writing d.state))) =
          Ensures-bind (λ (d : Connection R). AfterWrite d.state) HalfWritten
            (connection_handle_write net c) _ (handle_write_state c e)
            (λ d after. (after, λ q. still_writing d.state after (ground (arith, q)))) in
        Ensures-if HalfWritten (not (is_empty c.write_queue)) _ _
          (Ensures-if HalfWritten c.is_writable _ _ write waits)
          (Ensures-if HalfWritten c.file_finished _ _
            (inr (inl refl), λ q. absurd (ground (arith, q))) waits)

  -- A plugin leaves the state alone, or fails.
  abbrev pub MayFail : Type 0
  MayFail =
      (c : Connection R)
      → let d = (net.plugins_call_handle_subrequest c).0 in
        (d.state ≡ c.state) ⊎ (d.state ≡ con_error)

  module _ (keeps : (c : Connection R) (n : ℕ) → (net.network_write c n).0.state ≡ c.state)
      (sub : MayFail) where
    by_subrequest_state :
        (r : Handler) (c : Connection R)
        → AfterWrite c.state
        → AfterWrite (by_subrequest net r c).0.state
    unfolding by_subrequest
    by_subrequest_state handler_wait_for_event c e = e
    by_subrequest_state handler_finished c e = e
    by_subrequest_state handler_go_on c e = e
    by_subrequest_state handler_wait_for_fd c e = e
    by_subrequest_state handler_comeback c e = inr (inr refl)
    by_subrequest_state handler_unset c e = inr (inr refl)
    by_subrequest_state handler_error c e = inr (inr refl)

    ask_plugin_state :
        (c : Connection R) → c.state ≡ con_write → AfterWrite (ask_plugin net c).0.state
    unfolding ask_plugin
    ask_plugin_state c e =
        let (d, r) = net.plugins_call_handle_subrequest c in
        let asked : AfterWrite d.state = elim (sub c) [
          | inl f ↦ inl (f ∙ e)
          | inr f ↦ inr (inr f)
        ] in
        elim (Bool-cases (not c.direct && not c.file_finished)) [
          | inl f ↦ rw f (by_subrequest_state r d asked)
          | inr f ↦ rw f (inl e)
        ]

    pub write_state_state :
        (fuel : ℕ) (c : Connection R)
        → c.state ≡ con_write
        → Ensures
            (λ (t : Turn R). AfterWrite t.con.state)
            (connection_handle_write_state net fuel c)
    unfolding connection_handle_write_state writes_on
    write_state_state zero c e = inl e
    write_state_state (suc fuel) c e =
        Ensures-bind HalfWritten (λ (t : Turn R). AfterWrite t.con.state) (write_queued net c) _
          (write_queued_state keeps c e)
          (λ p half.
            let (d, n) = ask_plugin net p.0 in
            Ensures-test (λ (t : Turn R). AfterWrite t.con.state) p.1 _ _ (λ b. half.0)
              (λ b.
                let asked = ask_plugin_state p.0 (half.1 b) in
                Ensures-test (λ (t : Turn R). AfterWrite t.con.state) (writes_on net d) _ _
                  (λ on.
                    Ensures-bind (λ (t : Turn R). AfterWrite t.con.state)
                      (λ (t : Turn R). AfterWrite t.con.state)
                      (connection_handle_write_state net fuel d) _
                      (write_state_state fuel d (still_writing d.state asked (ground (arith, on))))
                      (λ t h. h))
                  (λ off. asked)))

  pub close_state_state :
      (cycle : Cycle R) (c : Connection R)
      → let d = connection_handle_close_state net cycle c in
        (d.state ≡ c.state) ⊎ (d.state ≡ con_connect)
  unfolding connection_handle_close_state
  close_state_state cycle c =
      let d = record c { rest = net.connection_read_for_eos c.rest } in
      elim (Bool-cases (net.lingered d.rest)) [
        | inl e ↦ rw e (inr (close_state cycle d))
        | inr e ↦ rw e (inl refl)
      ]

  -- The network leaves the state alone, or fails.
  abbrev pub MayFailReading : Type 0
  MayFailReading =
      (c : Connection R) → let (d, r) = net.network_read c in (d.state ≡ c.state) ⊎ (r ≡ net_failed)

  module _ (heap : Allocator) where
    abbrev Read : Connection R × ℕ → Type 0
    Read p = AfterRead p.0.state

    closed_or :
        (b : Bool) (c : Connection R)
        → c.state ≡ con_read
        → AfterRead (if b then record c { state = con_error } else c).state
    closed_or true c e = inr (inr (inl refl))
    closed_or false c e = inl e

    after_search_state :
        (closed : Bool) (c : Connection R) (found : Option (Buffer × Chunkqueue))
        → c.state ≡ con_read
        → Ensures Read (after_search net heap closed c found)
    unfolding after_search
    after_search_state closed c (some (b, q)) e = inr (inl refl)
    after_search_state closed c none e =
        Ensures-after Read (chunkqueue_length c.read_queue) _ (λ n. closed_or closed c e)

    large_or :
        (b : Bool) (c : Connection R)
        → AfterRead c.state
        → AfterRead
            (if b
              then record c { http_status = 431; keep_alive = false; state = con_handle_request }
              else c).state
    large_or true c h = inr (inr (inr refl))
    large_or false c h = h

    read_queued_state :
        (closed first : Bool) (c : Connection R)
        → c.state ≡ con_read
        → Ensures (λ (d : Connection R). AfterRead d.state) (read_queued net heap closed first c)
    unfolding read_queued
    read_queued_state closed first c e =
        let P = λ (d : Connection R). AfterRead d.state in
        let timed = if ltb 1 c.request_count && first then net.set_first_byte c.rest else c.rest in
        Ensures-after P (chunkqueue_remove_finished_chunks c.read_queue) _ (λ q.
          Ensures-after P (read_header heap c.details.request q) _ (λ found.
            Ensures-bind Read P
              (after_search net heap closed (record c { read_queue = q; rest = timed }) found) _
              (after_search_state closed (record c { read_queue = q; rest = timed }) found e)
              (λ p h.
                let d =
                  if ltb net.max_request_field_size p.1
                  then record p.0 {
                    http_status = 431;
                    keep_alive = false;
                    state = con_handle_request;
                  }
                  else p.0 in
                Ensures-after P (chunkqueue_remove_finished_chunks d.read_queue) _
                  (λ q'. large_or (ltb net.max_request_field_size p.1) p.0 h))))

    by_read_state :
        (r : NetResult) (first : Bool) (c : Connection R)
        → (c.state ≡ con_read) ⊎ (r ≡ net_failed)
        → Ensures (λ (t : Turn R). AfterRead t.con.state) (by_read net heap r first c)
    unfolding by_read
    by_read_state net_failed first c h = inr (inr (inl refl))
    by_read_state net_closed first c (inl e) =
        Ensures-bind (λ (d : Connection R). AfterRead d.state)
          (λ (t : Turn R). AfterRead t.con.state) (read_queued net heap true first c) _
          (read_queued_state true first c e) (λ d h. h)
    by_read_state net_closed first c (inr e) = absurd (cc e)
    by_read_state net_done first c (inl e) =
        Ensures-bind (λ (d : Connection R). AfterRead d.state)
          (λ (t : Turn R). AfterRead t.con.state) (read_queued net heap false first c) _
          (read_queued_state false first c e) (λ d h. h)
    by_read_state net_done first c (inr e) = absurd (cc e)

    pub read_state_state :
        MayFailReading
        → (c : Connection R) → c.state ≡ con_read
        → Ensures (λ (t : Turn R). AfterRead t.con.state) (connection_handle_read_state net heap c)
    unfolding connection_handle_read_state
    read_state_state keeps c e =
        let first = is_empty c.read_queue in
        let timed = record c { rest = net.set_read_idle c.rest } in
        let (d, r) = net.network_read timed in
        let kept : (d.state ≡ con_read) ⊎ (r ≡ net_failed) = elim (keeps timed) [
          | inl f ↦ inl (f ∙ e)
          | inr f ↦ inr f
        ] in
        Ensures-if (λ (t : Turn R). AfterRead t.con.state) c.is_readable _ _
          (by_read_state r first d kept) (by_read_state net_done first c (inl e))
