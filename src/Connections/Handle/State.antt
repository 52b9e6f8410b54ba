-- ===== src/Connections/Handle/State.antt =====
-- connections.c: the state of a connection after its request was handled.
use lighttpd_multithread.Base.{
  zero, suc, ◌≡◌, refl, ◌∙◌, ◌⊎◌, inl, inr, true, false, not, ◌&&◌, ◌||◌, some, leb, ◌==◌, Outcome,
  ok, Ensures, Ensures-bind, Ensures-after, Ensures-if,
}
use mathlib.Core.Path.{subst}
use lighttpd_multithread.Base.Int.{ℤ, pos, negsuc}
use lighttpd_multithread.Base.Memory.{Allocator}
use lighttpd_multithread.Buffer.{Buffer, buffer_copy_buffer}
use lighttpd_multithread.Chunk.{chunkqueue_reset}
use lighttpd_multithread.Connections.Handle.{
  ConnectionState, con_error, con_response_start, Handler, handler_unset, handler_go_on,
  handler_finished, handler_comeback, handler_wait_for_event, handler_error, handler_wait_for_fd,
  Connection, is_zero, Handled, Calls, http_method_get, negative, Chosen, no_handler, the_handler,
  the_handler_404, chosen, start_response, drop_body, start_again, call_handler, after_status,
  with_saved_method, finish_request, by_handler, connection_handle_handle_request_state,
}

-- The state is the one of before, or a response starts, or there was an error.
abbrev pub EndsIn : ConnectionState → ConnectionState → Type 0
EndsIn s t = (t ≡ s) ⊎ ((t ≡ con_response_start) ⊎ (t ≡ con_error))

module _ {R : Type 0} (heap : Allocator) (calls : Calls R) where
  abbrev To : ConnectionState → Outcome (Handled R) → Type 0
  To s o = Ensures (λ (h : Handled R). EndsIn s h.con.state) o

  start_response-To : (s : ConnectionState) (c : Connection R) → To s (ok (start_response c))
  unfolding start_response
  start_response-To s c = inr (inl refl)

  drop_body_state :
      (c : Connection R)
      → Ensures (λ (d : Connection R). d.state ≡ c.state) (drop_body heap calls c)
  unfolding drop_body
  drop_body_state c =
      Ensures-if (λ (d : Connection R). d.state ≡ c.state) (is_zero c.content_length) _ _ refl
        (Ensures-after (λ (d : Connection R). d.state ≡ c.state)
          (chunkqueue_reset c.request_content_queue) _ (λ q. refl))

  start_again-To :
      (s : ConnectionState) (c : Connection R) (b : Buffer)
      → c.state ≡ s
      → To s (start_again heap calls c b)
  unfolding start_again
  start_again-To s c b e =
      Ensures-after (λ (h : Handled R). EndsIn s h.con.state)
        (buffer_copy_buffer heap c.uri (some b)) _
        (λ uri.
          Ensures-after (λ (h : Handled R). EndsIn s h.con.state) (chunkqueue_reset c.write_queue) _
            (λ q. inl e))

  module _
      (keeps : (c : Connection R) → (calls.plugins_call_connection_reset c).state ≡ c.state) where
    call_handler-To : (x : Chosen) (c : Connection R) → To c.state (call_handler heap calls x c)
    unfolding call_handler
    call_handler-To no_handler c = start_response-To c.state c
    call_handler-To the_handler c =
        let flagged = record c { details = calls.set_redirect_status c.details c.http_status } in
        let d = calls.plugins_call_connection_reset flagged in
        Ensures-bind (λ (e : Connection R). e.state ≡ d.state)
          (λ (h : Handled R). EndsIn c.state h.con.state) (drop_body heap calls d) _
          (drop_body_state d)
          (λ e same.
            start_again-To c.state
              (record e {
                is_writable = true;
                file_finished = false;
                file_started = false;
                parsed_response = 0;
                response_keep_alive = 0;
                response_content_length = negsuc 0;
                transfer_encoding = 0;
                error_handler_saved_status = pos e.http_status;
                error_handler_saved_method = e.http_method;
                http_method = http_method_get;
              })
              c.error_handler (same ∙ keeps flagged))
    call_handler-To the_handler_404 c =
        start_again-To c.state
          (record c {
            details = calls.set_redirect_status c.details c.http_status;
            error_handler_saved_status = negative c.http_status;
          })
          c.error_handler_404 refl

    after_status-To : (z : ℤ) (c : Connection R) → To c.state (after_status heap calls z c)
    unfolding after_status start_response
    after_status-To (pos zero) c =
        Ensures-if (λ (h : Handled R). EndsIn c.state h.con.state) (leb 400 c.http_status) _ _
          (call_handler-To (chosen c) c) (inr (inl refl))
    after_status-To (pos (suc n)) c = inr (inl refl)
    after_status-To (negsuc n) c = inr (inl refl)

    saved_method_state :
        (z : ℤ) (c : Connection R) → (with_saved_method heap calls z c).state ≡ c.state
    unfolding with_saved_method
    saved_method_state (pos zero) c = refl
    saved_method_state (pos (suc n)) c = refl
    saved_method_state (negsuc n) c = refl

    finish_request-To : (c : Connection R) → To c.state (finish_request heap calls c)
    unfolding finish_request start_response
    finish_request-To c =
        let z = c.error_handler_saved_status in
        let d = with_saved_method heap calls z c in
        Ensures-if (λ (h : Handled R). EndsIn c.state h.con.state) (d.direct || d.error_intercept) _
          _
          (subst (λ x. To x (after_status heap calls d.error_handler_saved_status d))
            (saved_method_state z c) (after_status-To d.error_handler_saved_status d))
          (inr (inl refl))

    by_handler-To : (r : Handler) (c : Connection R) → To c.state (by_handler heap calls r c)
    unfolding by_handler
    by_handler-To handler_finished c = finish_request-To c
    by_handler-To handler_wait_for_event c =
        Ensures-if (λ (h : Handled R). EndsIn c.state h.con.state)
          (not c.file_finished && (not c.file_started || c.stream_response_body == 0)) _ _
          (inl refl) (finish_request-To c)
    by_handler-To handler_wait_for_fd c = inl refl
    by_handler-To handler_comeback c = inl refl
    by_handler-To handler_error c = inr (inr refl)
    by_handler-To handler_unset c = inl refl
    by_handler-To handler_go_on c = inl refl

    pub handle_request-To :
        (c : Connection R)
        → To
            (calls.http_response_prepare c).0.state
            (connection_handle_handle_request_state heap calls c)
    unfolding connection_handle_handle_request_state
    handle_request-To c = let (d, r) = calls.http_response_prepare c in by_handler-To r d
