-- ===== src/Connections/Handle/Once.antt =====
-- connections.c: handling a request returns, and what lets it be handled a third time.
use lighttpd_multithread.Base.{
  ℕ, zero, suc, ◌≤◌, ◌<◌, ◌≡◌, ◌≢◌, refl, ◌∙◌, ◌⊎◌, inl, inr, true, false, not, ◌&&◌, ◌||◌, leb,
  leb→le, ◌==◌, Bool-cases, Outcome, ok, arith,
}
use lighttpd_multithread.Base.Int.{ℤ, pos, negsuc}
use lighttpd_multithread.Base.Memory.{Bytes, size_mod, Allocator}
use lighttpd_multithread.Buffer.{Buffer, size}
use lighttpd_multithread.Buffer.Holds.{Holds}
use lighttpd_multithread.Buffer.Whole.{copy_buffer-Holds}
use lighttpd_multithread.Chunk.{Chunkqueue}
use lighttpd_multithread.Chunk.Contents.{IsQueue, size-Holds}
use lighttpd_multithread.Chunk.Clean.{chunkqueue_reset_lem}
use lighttpd_multithread.Connections.Handle.{
  Handler, handler_unset, handler_go_on, handler_finished, handler_comeback, handler_wait_for_event,
  handler_error, handler_wait_for_fd, Connection, Handled, Calls, http_method_get, Chosen,
  no_handler, the_handler, the_handler_404, negative, is_zero, holds_number, chosen, start_response,
  drop_body, restarted, start_again, call_handler, after_status, with_saved_method, finish_request,
  by_handler, connection_handle_handle_request_state,
}

-- The queues are valid, and the buffers hold strings.
pub record AreValid (body out : Chunkqueue) (uri handler handler_404 : Buffer) : Type 0 where
  pub valid_body : IsQueue body
  pub valid_out : IsQueue out
  pub uri_fits : size uri < size_mod
  pub text : Bytes
  pub text_holds : Holds text handler
  pub text_404 : Bytes
  pub text_404_holds : Holds text_404 handler_404

never : {A : Type 0} → false ≡ true → A
never e = absurd (ground (arith, e))

saved_not_zero : (n : ℕ) → 400 ≤ n → pos n ≢ pos 0
saved_not_zero n h e = let same : n ≡ 0 = cc e in ground (arith, same, h)

negative_not_zero : (n : ℕ) → 400 ≤ n → negative n ≢ pos 0
negative_not_zero zero h = absurd (omega (arith, h))
negative_not_zero (suc n) h = λ e. cc e

module _ {R : Type 0} where
  abbrev pub IsConnection : Connection R → Type 0
  IsConnection c =
      AreValid c.request_content_queue c.write_queue c.uri c.error_handler c.error_handler_404

  -- What the calls of other parts leave alone: they keep the connection valid, and the plugins' resets
  -- do not touch the status.
  pub record KeepsConnection (calls : Calls R) : Type 0 where
    pub prepare_valid :
        (c : Connection R) → IsConnection c → IsConnection (calls.http_response_prepare c).0
    pub reset_valid :
        (c : Connection R) → IsConnection c → IsConnection (calls.plugins_call_connection_reset c)
    pub reset_status :
        (c : Connection R) → (calls.plugins_call_connection_reset c).http_status ≡ c.http_status

  -- The call returns, the connection is valid, and it comes again only with a status saved.
  abbrev Goes : Outcome (Handled R) → Type 0
  Goes o =
      (h : Handled R) × (o ≡ ok h)
      × IsConnection h.con
      × (h.again ≡ true → h.con.error_handler_saved_status ≢ pos 0)

  start_response-Goes : (c : Connection R) → IsConnection c → Goes (ok (start_response c))
  unfolding start_response
  start_response-Goes c v = (_, refl, v, never)

  module _ (heap : Allocator) (calls : Calls R) (k : KeepsConnection calls) where
    drop_body_lem :
        (c : Connection R)
        → IsConnection c
        → (d : Connection R) × (drop_body heap calls c ≡ ok d)
          × IsConnection d
          × (d.http_status ≡ c.http_status)
    unfolding drop_body
    drop_body_lem c v = elim (Bool-cases (is_zero c.content_length)) [
      | inl e ↦ (c, rw e refl, v, refl)
      | inr e ↦
          let (q, f, w, _, _) = chunkqueue_reset_lem c.request_content_queue v.valid_body in
          let keep =
            c.keep_alive && holds_number c.content_length c.request_content_queue.bytes_in in
          (
            record c { keep_alive = keep; content_length = pos 0; request_content_queue = q },
            rw (e, f) refl,
            record {
              valid_body = w;
              valid_out = v.valid_out;
              uri_fits = v.uri_fits;
              text = v.text;
              text_holds = v.text_holds;
              text_404 = v.text_404;
              text_404_holds = v.text_404_holds;
            },
            refl,
          )
    ]

    start_again-Goes :
        (c : Connection R) (handler : Buffer) (s : Bytes)
        → IsConnection c
        → Holds s handler
        → c.error_handler_saved_status ≢ pos 0
        → Goes (start_again heap calls c handler)
    unfolding start_again
    start_again-Goes c handler s v h z =
        let (uri, e, g, _) = copy_buffer-Holds heap s c.uri handler v.uri_fits h in
        let (q, f, w, _, _) = chunkqueue_reset_lem c.write_queue v.valid_out in
        (
          restarted heap calls c uri q,
          rw (e, f) refl,
          record {
            valid_body = v.valid_body;
            valid_out = w;
            uri_fits = size-Holds s uri g;
            text = v.text;
            text_holds = v.text_holds;
            text_404 = v.text_404;
            text_404_holds = v.text_404_holds;
          },
          λ _. z,
        )

    call_handler-Goes :
        (w : Chosen) (c : Connection R)
        → IsConnection c
        → 400 ≤ c.http_status
        → Goes (call_handler heap calls w c)
    unfolding call_handler
    call_handler-Goes no_handler c v h = start_response-Goes c v
    call_handler-Goes the_handler c v h =
        let flagged = record c { details = calls.set_redirect_status c.details c.http_status } in
        let (d, e, w, s) =
          drop_body_lem (calls.plugins_call_connection_reset flagged) (k.reset_valid flagged v) in
        let status = s ∙ k.reset_status flagged in
        let saved = saved_not_zero d.http_status (omega (arith, status, h)) in
        let fresh : Connection R = record d {
          is_writable = true;
          file_finished = false;
          file_started = false;
          parsed_response = 0;
          response_keep_alive = 0;
          response_content_length = negsuc 0;
          transfer_encoding = 0;
          error_handler_saved_status = pos d.http_status;
          error_handler_saved_method = d.http_method;
          http_method = http_method_get;
        } in
        rw e (start_again-Goes fresh c.error_handler v.text w v.text_holds saved)
    call_handler-Goes the_handler_404 c v h =
        let flagged : Connection R = record c {
          details = calls.set_redirect_status c.details c.http_status;
          error_handler_saved_status = negative c.http_status;
        } in
        start_again-Goes flagged c.error_handler_404 v.text_404 v v.text_404_holds
          (negative_not_zero c.http_status h)

    after_status-Goes :
        (z : ℤ) (c : Connection R) → IsConnection c → Goes (after_status heap calls z c)
    unfolding after_status
    after_status-Goes (pos zero) c v = elim (Bool-cases (leb 400 c.http_status)) [
      | inl e ↦ rw e (call_handler-Goes (chosen c) c v (leb→le 400 c.http_status e))
      | inr e ↦ rw e (start_response-Goes c v)
    ]
    after_status-Goes (pos (suc n)) c v = start_response-Goes (record c { http_status = suc n }) v
    after_status-Goes (negsuc n) c v = start_response-Goes (record c { http_status = _ }) v

    -- With a status saved, the request is not handled again.
    abbrev Ends : Outcome (Handled R) → Type 0
    Ends o = (h : Handled R) × (o ≡ ok h) × (h.again ≡ false)

    with_saved-IsConnection :
        (z : ℤ) (c : Connection R)
        → IsConnection c
        → IsConnection (with_saved_method heap calls z c)
    unfolding with_saved_method
    with_saved-IsConnection (pos zero) c v = v
    with_saved-IsConnection (pos (suc n)) c v = v
    with_saved-IsConnection (negsuc n) c v = v

    finish_request-Goes : (c : Connection R) → IsConnection c → Goes (finish_request heap calls c)
    unfolding finish_request
    finish_request-Goes c v =
        let d = with_saved_method heap calls c.error_handler_saved_status c in
        let w = with_saved-IsConnection c.error_handler_saved_status c v in
        elim (Bool-cases (d.direct || d.error_intercept)) [
          | inl e ↦ rw e (after_status-Goes d.error_handler_saved_status d w)
          | inr e ↦ rw e (start_response-Goes d w)
        ]

    -- The call returns a valid connection, and one that is to be handled again has a status saved,
    -- unless the response asked for it.
    abbrev pub Handles : Connection R → Type 0
    Handles c =
        (h : Handled R) × (connection_handle_handle_request_state heap calls c ≡ ok h)
        × IsConnection h.con
        × (h.again ≡ true
            → ((calls.http_response_prepare c).1 ≡ handler_comeback)
              ⊎ (h.con.error_handler_saved_status ≢ pos 0))

    Goes-later :
        {o : Outcome (Handled R)} {P : Type 0}
        → Goes o
        → (h : Handled R) × (o ≡ ok h)
          × IsConnection h.con
          × (h.again ≡ true → P ⊎ (h.con.error_handler_saved_status ≢ pos 0))
    Goes-later (h, e, v, s) = (h, e, v, λ a. inr (s a))

    by_handler_lem :
        (r : Handler) (c : Connection R)
        → IsConnection c
        → (h : Handled R) × (by_handler heap calls r c ≡ ok h)
          × IsConnection h.con
          × (h.again ≡ true → (r ≡ handler_comeback) ⊎ (h.con.error_handler_saved_status ≢ pos 0))
    unfolding by_handler
    by_handler_lem handler_finished c v = Goes-later (finish_request-Goes c v)
    by_handler_lem handler_wait_for_event c v =
        let wait = not c.file_finished && (not c.file_started || c.stream_response_body == 0) in
        elim (Bool-cases wait) [
          | inl e ↦ rw e (_, refl, v, never)
          | inr e ↦ rw e (Goes-later (finish_request-Goes c v))
        ]
    by_handler_lem handler_wait_for_fd c v = (_, refl, v, never)
    by_handler_lem handler_comeback c v = (_, refl, v, λ e. inl refl)
    by_handler_lem handler_error c v = (_, refl, v, never)
    by_handler_lem handler_unset c v = (_, refl, v, never)
    by_handler_lem handler_go_on c v = (_, refl, v, never)

    -- On a valid connection, where the calls of other parts keep connections valid and the plugins'
    -- resets leave the status alone: connection_handle_handle_request_state returns,
    -- the connection is valid, and it is to be handled again only if the response asked for it or a
    -- status is saved for an error handler.
    pub handle_request_lem : (c : Connection R) → IsConnection c → Handles c
    unfolding connection_handle_handle_request_state
    handle_request_lem c v =
        let (d, r) = calls.http_response_prepare c in by_handler_lem r d (k.prepare_valid c v)
