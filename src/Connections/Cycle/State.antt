-- ===== src/Connections/Cycle/State.antt =====
-- connections.c: the state of a connection after a response, and after it was closed.
use lighttpd_multithread.Base.{
  ◌≡◌, refl, ap, ◌∙◌, ◌⊎◌, inl, inr, Bool, true, false, not, ◌&&◌, ◌||◌, ◌==◌, if◌then◌else◌,
  Bool-cases, Outcome, ok, aborted, fault, Ensures, Ensures-after,
}
use lighttpd_multithread.Base.Int.{is_neg}
use lighttpd_multithread.Chunk.{chunkqueue_reset}
use lighttpd_multithread.Connections.Handle.{
  ConnectionState, con_connect, con_request_start, con_error, con_close, con_read, con_read_post,
  con_handle_request, con_write, Connection, holds_number,
}
use lighttpd_multithread.Connections.Cycle.{
  Cycle, is_error, may_keep, connection_reset, connection_close, connection_handle_shutdown, logged,
  keep_or_shut, connection_handle_connect_state, connection_handle_request_start_state,
  connection_handle_request_end_state, connection_handle_response_start_state,
  connection_handle_response_end_state,
}

-- The connection is shut down, or closed.
abbrev pub IsShut : ConnectionState → Type 0
IsShut s = (s ≡ con_close) ⊎ (s ≡ con_connect)

-- How a response ends, where the connection may be kept or not.
abbrev pub AfterResponse : Bool → ConnectionState → Type 0
AfterResponse keep s = ((keep ≡ true) × (s ≡ con_request_start)) ⊎ IsShut s

if_state :
    {R : Type 0} (b : Bool) (c : Connection R) (s t : ConnectionState)
    → let d = record c { state = if b then s else t } in (d.state ≡ s) ⊎ (d.state ≡ t)
if_state true c s t = inl refl
if_state false c s t = inr refl

module _ {R : Type 0} (cycle : Cycle R) where
  pub close_state : (c : Connection R) → (connection_close cycle c).state ≡ con_connect
  unfolding connection_close
  close_state c = refl

  shut_lem :
      (b : Bool) (c d : Connection R)
      → c.state ≡ con_close
      → IsShut (if b then c else connection_close cycle d).state
  shut_lem true c d e = inl e
  shut_lem false c d e = inr (close_state d)

  shutdown_state :
      (c : Connection R)
      → Ensures (λ (d : Connection R). IsShut d.state) (connection_handle_shutdown cycle c)
  unfolding connection_handle_shutdown
  shutdown_state c =
      Ensures-after (λ (d : Connection R). IsShut d.state)
        (connection_reset cycle (cycle.plugins_call_handle_connection_shut_wr c)) _
        (λ d.
          shut_lem (not (is_neg d.fd) && cycle.shutdown d)
            (record d { state = con_close; rest = cycle.set_close_timeout d.rest }) d refl)

  shut_only :
      (o : Outcome (Connection R))
      → Ensures (λ (d : Connection R). IsShut d.state) o
      → Ensures (λ (d : Connection R). AfterResponse false d.state) o
  shut_only (ok d) h = inr h
  shut_only aborted h = tt
  shut_only fault h = tt

  keep_or_shut_state :
      (keep : Bool) (c : Connection R)
      → Ensures (λ (d : Connection R). AfterResponse keep d.state) (keep_or_shut cycle keep c)
  unfolding keep_or_shut
  keep_or_shut_state true c =
      Ensures-after (λ (d : Connection R). AfterResponse true d.state) (connection_reset cycle c) _
        (λ d. inl (refl, refl))
  keep_or_shut_state false c = shut_only (connection_handle_shutdown cycle c) (shutdown_state c)

  pub response_end_state :
      (c : Connection R)
      → Ensures
          (λ (d : Connection R). AfterResponse (may_keep (logged cycle c)) d.state)
          (connection_handle_response_end_state cycle c)
  unfolding connection_handle_response_end_state
  response_end_state c =
      let d = logged cycle c in
      keep_or_shut_state (may_keep d) (record d { keep_alive = may_keep d })

  logged_state :
      (c : Connection R)
      → ((d : Connection R) → (cycle.plugins_call_handle_request_done d).state ≡ d.state)
      → (logged cycle c).state ≡ c.state
  logged_state c keeps = elim (Bool-cases (c.http_status == 0)) [
    | inl e ↦ rw e refl
    | inr e ↦ rw e (keeps c)
  ]

  not_kept : (b keep : Bool) → (if b || true then false else keep) ≡ false
  not_kept true keep = refl
  not_kept false keep = refl

  error_not_kept : (c : Connection R) → c.state ≡ con_error → may_keep c ≡ false
  unfolding may_keep
  error_not_kept c e =
      let body_left = not (holds_number c.content_length c.request_content_queue.bytes_in) in
      ap (λ s. if body_left || is_error s then false else c.keep_alive) e
      ∙ not_kept body_left c.keep_alive

  -- After an error the connection is not kept.
  pub logged-error :
      (c : Connection R)
      → ((d : Connection R) → (cycle.plugins_call_handle_request_done d).state ≡ d.state)
      → c.state ≡ con_error
      → may_keep (logged cycle c) ≡ false
  logged-error c keeps e = error_not_kept (logged cycle c) (logged_state c keeps ∙ e)

  pub request_start_state :
      (c : Connection R) → (connection_handle_request_start_state cycle c).state ≡ con_read
  unfolding connection_handle_request_start_state
  request_start_state c = refl

  pub request_end_state :
      (c : Connection R)
      → let s = (connection_handle_request_end_state cycle c).state in
        (s ≡ con_read_post) ⊎ (s ≡ con_handle_request)
  unfolding connection_handle_request_end_state
  request_end_state c =
      let (d, post) = cycle.http_request_parse (record c { rest = cycle.release_rest c.rest }) in
      if_state post d con_read_post con_handle_request

  pub response_start_state :
      (c : Connection R)
      → let s = (connection_handle_response_start_state cycle c).state in
        (s ≡ con_error) ⊎ (s ≡ con_write)
  unfolding connection_handle_response_start_state
  response_start_state c =
      let (d, failed) = cycle.connection_handle_write_prepare c in
      if_state failed d con_error con_write

  pub connect_state :
      (c : Connection R)
      → Ensures (λ (d : Connection R). d.state ≡ c.state) (connection_handle_connect_state c)
  unfolding connection_handle_connect_state
  connect_state c =
      Ensures-after (λ (d : Connection R). d.state ≡ c.state) (chunkqueue_reset c.read_queue) _
        (λ q. refl)
