-- ===== src/Connections/Io/Ends.antt =====
-- connections.c: the loop that writes a response, and why it ends.
use lighttpd_multithread.Base.{
  ℕ, zero, suc, ◌+◌, ◌≡◌, refl, ◌∙◌, ◌⊎◌, inl, inr, Bool, true, false, not, ◌&&◌, if◌then◌else◌,
  Bool-cases, ok, arith, ap,
}
use mathlib.Core.Path.{subst}
use lighttpd_multithread.Chunk.Contents.{IsQueue}
use lighttpd_multithread.Connections.Handle.{
  Connection, Handler, handler_unset, handler_go_on, handler_finished, handler_comeback,
  handler_wait_for_event, handler_error, handler_wait_for_fd,
}
use lighttpd_multithread.Connections.Io.{
  Net, Turn, write_queued, plain_turn, is_empty, is_writing, by_subrequest, ask_plugin, writes_on,
  connection_handle_write_state,
}
use lighttpd_multithread.Connections.Io.Halves.{Pauses, KeepsQueue, write_queued-Half}

-- The loop's condition, by its tests.
stops :
    (x empty writable finished : Bool)
    → ((empty ≡ false) × (writable ≡ false)) ⊎ ((empty ≡ true) × (finished ≡ false))
    → x && (if not empty then writable else finished) ≡ false
stops false e w f h = refl
stops true true w f (inl (e, g)) = absurd (ground (arith, e))
stops true false w f (inl (e, g)) = g
stops true true w f (inr (e, g)) = g
stops true false w f (inr (e, g)) = absurd (ground (arith, e))

stopped :
    (x empty writable finished : Bool)
    → x && (if not empty then writable else finished) ≡ false
    → (x ≡ false) ⊎ (((empty ≡ false) × (writable ≡ false)) ⊎ ((empty ≡ true) × (finished ≡ false)))
stopped false e w f h = inl refl
stopped true true w f h = inr (inr (refl, h))
stopped true false w f h = inr (inl (refl, h))

asked_by_test :
    (direct finished : Bool)
    → not direct && not finished ≡ true
    → (direct ≡ false) × (finished ≡ false)
asked_by_test true x e = absurd (ground (arith, e))
asked_by_test false true e = absurd (ground (arith, e))
asked_by_test false false e = (refl, refl)

module _ {R : Type 0} (net : Net R) where
  -- In each of `n` rounds, the first half did not end the loop and left nothing to be done: the socket
  -- took no more, or all was sent and the response was not finished. Then the plugin was asked, and came
  -- with something that can be sent, or with the end of the response.
  pub Comes : ℕ → Connection R → Type 0
  Comes zero c = Unit
  Comes (suc n) c =
      (d : Connection R) × (write_queued net c ≡ ok (d, false))
      × Pauses d
      × (d.direct ≡ false)
      × (d.file_finished ≡ false)
      × (writes_on net (ask_plugin net d).0 ≡ true)
      × Comes n (ask_plugin net d).0

  Pauses-stop : (c : Connection R) → Pauses c → writes_on net c ≡ false
  unfolding writes_on
  Pauses-stop c p =
      stops (is_writing c.state) (is_empty c.write_queue) c.is_writable c.file_finished p

  Pauses-only :
      (d : Connection R) → writes_on net d ≡ false → (is_writing d.state ≡ false) ⊎ Pauses d
  unfolding writes_on
  Pauses-only d h =
      stopped (is_writing d.state) (is_empty d.write_queue) d.is_writable d.file_finished h

  on_writing : (d : Connection R) → writes_on net d ≡ true → is_writing d.state ≡ true
  unfolding writes_on
  on_writing d h = elim (Bool-cases (is_writing d.state)) [
    | inl e ↦ e
    | inr e ↦ absurd (ground (arith, e, h))
  ]

  module _ (s : KeepsQueue net) where
    answered_valid :
        (r : Handler) (d : Connection R)
        → IsQueue d.write_queue
        → IsQueue (by_subrequest net r d).0.write_queue
    unfolding by_subrequest
    answered_valid handler_wait_for_event d v = v
    answered_valid handler_finished d v = v
    answered_valid handler_go_on d v = v
    answered_valid handler_wait_for_fd d v = v
    answered_valid handler_comeback d v = v
    answered_valid handler_unset d v = v
    answered_valid handler_error d v = v

    -- Where the loop goes on after a round that left nothing to be done, the plugin was asked.
    ask_plugin_on :
        (c : Connection R)
        → IsQueue c.write_queue
        → Pauses c
        → writes_on net (ask_plugin net c).0 ≡ true
        → (c.direct ≡ false) × (c.file_finished ≡ false) × IsQueue (ask_plugin net c).0.write_queue
    unfolding ask_plugin
    ask_plugin_on c v p on =
        let (d, r) = net.plugins_call_handle_subrequest c in
        elim (Bool-cases (not c.direct && not c.file_finished)) [
          | inl e ↦
              let (direct, left) = asked_by_test c.direct c.file_finished e in
              (direct, left, rw e (answered_valid r d (s.ask_valid c v)))
          | inr e ↦
              let same : writes_on net c ≡ true =
                subst (λ b. writes_on net (if b then by_subrequest net r d else (c, 0)).0 ≡ true) e
                  on in
              absurd (ground (arith, Pauses-stop c p, same))
        ]

    -- For a connection in con_write with a valid queue, where the network leaves the state alone and
    -- network and plugins keep the queue valid, and any number of rounds: connection_handle_write_state
    -- returns. Either its loop has ended within the rounds; then the connection has left con_write, or
    -- the socket takes no more of what is to be sent, or all was sent and the response is not finished.
    -- Or the loop goes on, and in each of the rounds the socket was blocked or all was sent, the response
    -- was neither direct nor finished, and the plugin that was asked came with something that can be sent
    -- or with the end of the response.
    pub write_state_ends :
        (fuel : ℕ) (c : Connection R)
        → is_writing c.state ≡ true
        → IsQueue c.write_queue
        → (t : Turn R) × (connection_handle_write_state net fuel c ≡ ok t)
          × (((t.finished ≡ true) × ((is_writing t.con.state ≡ false) ⊎ Pauses t.con))
              ⊎ ((t.finished ≡ false) × Comes fuel c))
    unfolding connection_handle_write_state Comes
    write_state_ends zero c w v = (_, refl, inr (refl, tt))
    write_state_ends (suc fuel) c w v =
        let ((d, broken), e, half) = write_queued-Half net s c w v in
        let (asked, n) = ask_plugin net d in
        elim half [
          | inl (b, out) ↦ (plain_turn d, rw (e, b) refl, inl (refl, inl out))
          | inr (b, w', v', p) ↦ elim (Bool-cases (writes_on net asked)) [
            | inl on ↦
                let (direct, left, vr) = ask_plugin_on d v' p on in
                let (t, g, why) = write_state_ends fuel asked (on_writing asked on) vr in
                let same : write_queued net c ≡ ok (d, false) = e ∙ ap (λ x. ok (d, x)) b in
                (
                  record t { waits = n + t.waits },
                  rw (e, b, on, g) refl,
                  elim why [
                    | inl ended ↦ inl ended
                    | inr (f, comes) ↦ inr (f, (d, same, p, direct, left, on, comes))
                  ],
                )
            | inr off ↦
                let t : Turn R = record {
                  con = asked;
                  again = false;
                  waits = n;
                  finished = true;
                } in
                (t, rw (e, b, off) refl, inl (refl, Pauses-only asked off))
          ]
        ]
