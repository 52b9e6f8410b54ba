-- ===== src/Connections/Io/Halves.antt =====
-- connections.c: what the first half of a round of the loop that writes a response leaves.
use lighttpd_multithread.Connections.Details.{counted}
use lighttpd_multithread.Base.{
  ℕ, ◌-◌, ◌≡◌, refl, ap, ◌∙◌, ◌⊎◌, inl, inr, Bool, true, false, not, ◌==◌, if◌then◌else◌,
  Bool-cases, Outcome, ok, ◌>>=◌, arith,
}
use lighttpd_multithread.Chunk.Contents.{IsQueue}
use lighttpd_multithread.Chunk.Clean.{remove_finished_chunks_lem}
use lighttpd_multithread.Connections.Handle.{con_response_end, con_error, Connection}
use lighttpd_multithread.Connections.Io.{
  NetResult, net_failed, net_closed, net_done, Net, is_empty, is_writing, by_result, after_network,
  connection_write_chunkqueue, connection_handle_write, write_queued,
}

-- What keeps a connection in con_write: the socket takes no more, or the plugin has no more yet.
abbrev pub Pauses : {R : Type 0} → Connection R → Type 0
Pauses c =
    ((is_empty c.write_queue ≡ false) × (c.is_writable ≡ false))
    ⊎ ((is_empty c.write_queue ≡ true) × (c.file_finished ≡ false))

module _ {R : Type 0} (net : Net R) where
  -- What the network and the plugins leave alone: the state of a connection that is written, and the
  -- chunks of its queue are well formed.
  pub record KeepsQueue : Type 0 where
    pub write_state : (c : Connection R) (n : ℕ) → (net.network_write c n).0.state ≡ c.state
    pub write_valid :
        (c : Connection R) (n : ℕ)
        → IsQueue c.write_queue
        → IsQueue (net.network_write c n).0.write_queue
    pub ask_valid :
        (c : Connection R)
        → IsQueue c.write_queue
        → IsQueue (net.plugins_call_handle_subrequest c).0.write_queue

  module _ (s : KeepsQueue) where
    -- After `connection_handle_write` on a queue that was not empty.
    abbrev Wrote : Connection R → Type 0
    Wrote d =
        (is_writing d.state ≡ false)
        ⊎ ((is_writing d.state ≡ true) × IsQueue d.write_queue × Pauses d)

    all_written_lem :
        (b : Bool) (d : Connection R)
        → d.file_finished ≡ b
        → is_writing d.state ≡ true
        → IsQueue d.write_queue
        → is_empty d.write_queue ≡ true
        → Wrote (if b then record d { state = con_response_end } else d)
    all_written_lem true d f w v e = inl refl
    all_written_lem false d f w v e = inr (w, v, inr (e, f))

    -- What the network has said becomes the state of the connection.
    abbrev take_result : NetResult → ℕ → Connection R → Outcome (Connection R)
    take_result r out d = do (c, w) ← after_network net r out d; ok (by_result net w c)

    take_result-Wrote :
        (r : NetResult) (out : ℕ) (d : Connection R)
        → is_writing d.state ≡ true
        → IsQueue d.write_queue
        → (x : Connection R) × (take_result r out d ≡ ok x) × Wrote x
    unfolding after_network by_result
    take_result-Wrote net_failed out d w v =
        let x : Connection R = record d {
          details = counted d.details (d.write_queue.bytes_out - out);
          rest = net.count_written d.rest (d.write_queue.bytes_out - out);
          state = con_error;
        } in
        (x, refl, inl refl)
    take_result-Wrote net_closed out d w v =
        let x : Connection R = record d {
          details = counted d.details (d.write_queue.bytes_out - out);
          rest = net.count_written d.rest (d.write_queue.bytes_out - out);
          state = con_error;
        } in
        (x, refl, inl refl)
    take_result-Wrote net_done out d w v =
        let (q, e, i, _, _) = remove_finished_chunks_lem d.write_queue v in
        let c : Connection R = record d {
          write_queue = q;
          details = counted d.details (q.bytes_out - out);
          rest = net.set_write_request (net.count_written d.rest (q.bytes_out - out));
        } in
        elim (Bool-cases (is_empty q)) [
          | inl all ↦ (
            if d.file_finished then record c { state = con_response_end } else c,
            rw (e, all) refl,
            all_written_lem d.file_finished c refl w i all,
          )
          | inr more ↦
              (record c { is_writable = false }, rw (e, more) refl, inr (w, i, inl (more, refl)))
        ]

    handle_write-Wrote :
        (c : Connection R)
        → is_writing c.state ≡ true
        → IsQueue c.write_queue
        → is_empty c.write_queue ≡ false
        → (x : Connection R) × (connection_handle_write net c ≡ ok x) × Wrote x
    unfolding connection_handle_write connection_write_chunkqueue by_result
    handle_write-Wrote c w v e =
        let (rest, max_bytes) = net.connection_write_throttle c.rest in
        let throttled = record c { rest = rest } in
        let (d, r) = net.network_write throttled max_bytes in
        let (x, f, h) =
          take_result-Wrote r c.write_queue.bytes_out d
            (ap is_writing (s.write_state throttled max_bytes) ∙ w)
            (s.write_valid throttled max_bytes v) in
        elim (Bool-cases (max_bytes == 0)) [
          | inl none ↦
              let paused : Connection R = record c {
                rest = net.set_write_request rest;
                is_writable = false;
              } in
              (paused, rw none refl, inr (w, v, inl (e, refl)))
          | inr some ↦ (x, rw some f, h)
        ]

    -- After the first half of a round.
    abbrev pub Half : Connection R × Bool → Type 0
    Half p =
        ((p.1 ≡ true) × (is_writing p.0.state ≡ false))
        ⊎ ((p.1 ≡ false) × (is_writing p.0.state ≡ true) × IsQueue p.0.write_queue × Pauses p.0)

    Half-written : (d : Connection R) → Wrote d → Half (d, not (is_writing d.state))
    Half-written d (inl e) = inl (ground (arith, e), e)
    Half-written d (inr (w, v, p)) = inr (ground (arith, w), w, v, p)

    -- The first half of a round, by its three tests.
    write_by_tests :
        (empty writable finished : Bool) (c : Connection R)
        → is_writing c.state ≡ true
        → IsQueue c.write_queue
        → is_empty c.write_queue ≡ empty
        → c.is_writable ≡ writable
        → c.file_finished ≡ finished
        → let write : Outcome (Connection R × Bool) = (do
          d ← connection_handle_write net c
          ok (d, not (is_writing d.state))) in
          (p : Connection R × Bool) × ((if not empty
              then (if writable then write else ok (c, false))
              else if finished
              then ok (record c { state = con_response_end }, true)
              else ok (c, false))
            ≡ ok p)
          × Half p
    write_by_tests false true f c w v e g h =
        let (d, k, wrote) = handle_write-Wrote c w v e in
        ((d, not (is_writing d.state)), rw k refl, Half-written d wrote)
    write_by_tests false false f c w v e g h = ((c, false), refl, inr (refl, w, v, inl (e, g)))
    write_by_tests true x true c w v e g h =
        ((record c { state = con_response_end }, true), refl, inl (refl, refl))
    write_by_tests true x false c w v e g h = ((c, false), refl, inr (refl, w, v, inr (e, h)))

    pub write_queued-Half :
        (c : Connection R)
        → is_writing c.state ≡ true
        → IsQueue c.write_queue
        → (p : Connection R × Bool) × (write_queued net c ≡ ok p) × Half p
    unfolding write_queued
    write_queued-Half c w v =
        write_by_tests (is_empty c.write_queue) c.is_writable c.file_finished c w v refl refl refl
