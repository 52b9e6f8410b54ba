-- ===== src/Connections/Handle.antt =====
-- connections.c: the state in which a request is handled, and the error handlers of the configuration.
pub mod Once
pub mod State
use lighttpd_multithread.Connections.Details.{Details}
use lighttpd_multithread.Base.{
  ℕ, zero, suc, ◌+◌, ◌-◌, Bool, true, false, not, ◌&&◌, ◌||◌, Option, none, some, leb, ◌==◌,
  if◌then◌else◌, Outcome, ok, ◌>>=◌,
}
use lighttpd_multithread.Base.Int.{ℤ, pos, negsuc}
use lighttpd_multithread.Base.Memory.{Bytes, Allocator}
use lighttpd_multithread.Buffer.{Buffer, buffer_string_is_empty, buffer_copy_buffer}
use lighttpd_multithread.Chunk.{Chunkqueue, chunkqueue_reset}

pub data ConnectionState : Type 0 where
  con_connect con_request_start con_read con_request_end con_read_post con_handle_request :
      ConnectionState
  con_response_start con_write con_response_end con_error con_close : ConnectionState

pub data Handler : Type 0 where
  handler_unset handler_go_on handler_finished handler_comeback : Handler
  handler_wait_for_event handler_error handler_wait_for_fd : Handler

-- What the handling reads and writes of a `connection`; `rest` is all else. `direct` is
-- `mode == DIRECT`, and a method is the number of the enumeration.
pub record Connection (R : Type 0) : Type 0 where
  pub state : ConnectionState
  pub keep_alive : Bool
  pub http_status : ℕ
  pub http_method : ℤ
  pub direct : Bool
  pub error_intercept : Bool
  pub error_handler : Buffer
  pub error_handler_404 : Buffer
  pub stream_response_body : ℕ
  pub file_finished : Bool
  pub file_started : Bool
  pub parsed_response : ℕ
  pub is_writable : Bool
  pub is_readable : Bool
  pub loops_per_request : ℕ
  pub request_count : ℕ
  pub fd : ℤ
  pub response_keep_alive : ℕ
  pub response_content_length : ℤ
  pub transfer_encoding : ℕ
  pub content_length : ℤ
  pub request_content_queue : Chunkqueue
  pub write_queue : Chunkqueue
  pub read_queue : Chunkqueue
  pub uri : Buffer
  pub error_handler_saved_status : ℤ
  pub error_handler_saved_method : ℤ
  pub details : Details
  pub rest : R

-- The connection afterwards, whether the handler returns -1 (it is called again), and whether the
-- connection waits for a file descriptor (`want_fds++` and `fdwaitqueue_append`).
pub record Handled (R : Type 0) : Type 0 where
  pub con : Connection R
  pub again : Bool
  pub waits_for_fd : Bool

-- The calls of other parts: the response, REDIRECT_STATUS in the environment, the plugins, and the
-- headers and the path that `connection_handle_errdoc_init` clears at a status.
pub record Calls (R : Type 0) : Type 0 where
  pub http_response_prepare : Connection R → Connection R × Handler
  pub set_redirect_status : Details → ℕ → Details
  pub plugins_call_connection_reset : Connection R → Connection R
  pub clear_response : Details → ℕ → Details

-- Which error handler of the configuration is called.
pub data Chosen : Type 0 where
  no_handler the_handler the_handler_404 : Chosen

pub http_method_get : ℤ
http_method_get = pos 0

-- `-n`.
abbrev pub negative : ℕ → ℤ
negative zero = pos 0
negative (suc n) = negsuc n

-- The tests of a length (`off_t`, which is -1 where the body comes in pieces) against 0, and against
-- a number of octets.
abbrev pub is_zero : ℤ → Bool
is_zero (pos n) = n == 0
is_zero (negsuc n) = false

abbrev pub holds_number : ℤ → ℕ → Bool
holds_number (pos n) m = n == m
holds_number (negsuc n) m = false

abbrev is_missing : ℕ → Bool
is_missing status = status == 404 || status == 403

module _ {R : Type 0} where
  pub chosen : Connection R → Chosen
  chosen con =
      if not (buffer_string_is_empty con.error_handler)
      then the_handler
      else if is_missing con.http_status && not (buffer_string_is_empty con.error_handler_404)
      then the_handler_404
      else no_handler

  -- There is something to send.
  pub start_response : Connection R → Handled R
  start_response con =
      let status = if con.http_status == 0 then 200 else con.http_status in
      record {
        con = record con { http_status = status; state = con_response_start };
        again = false;
        waits_for_fd = false;
      }

module _ {R : Type 0} (heap : Allocator) (calls : Calls R) where
  -- The request's body, before an error handler is called.
  drop_body : Connection R → Outcome (Connection R)
  drop_body con =
      let keep =
        con.keep_alive && holds_number con.content_length con.request_content_queue.bytes_in in
      let drop_it = (do
        q ← chunkqueue_reset con.request_content_queue
        ok (record con { keep_alive = keep; content_length = pos 0; request_content_queue = q })) in
      if is_zero con.content_length then ok con else drop_it

  abbrev restarted : Connection R → Buffer → Chunkqueue → Handled R
  restarted con uri q = record {
    con = record con {
      uri = uri;
      transfer_encoding = 0;
      write_queue = q;
      details = calls.clear_response con.details con.http_status;
      http_status = 0;
    };
    again = true;
    waits_for_fd = false;
  }

  -- The connection starts again with the error handler as its URI.
  start_again : Connection R → Buffer → Outcome (Handled R)
  start_again con handler = do
    uri ← buffer_copy_buffer heap con.uri (some handler)
    q ← chunkqueue_reset con.write_queue
    ok (restarted con uri q)

  pub call_handler : Chosen → Connection R → Outcome (Handled R)
  unfolding drop_body start_again
  call_handler no_handler con = ok (start_response con)
  call_handler the_handler con = do
    let flagged = record con { details = calls.set_redirect_status con.details con.http_status }
    c ← drop_body (calls.plugins_call_connection_reset flagged)
    start_again
        (record c {
          is_writable = true;
          file_finished = false;
          file_started = false;
          parsed_response = 0;
          response_keep_alive = 0;
          response_content_length = negsuc 0;
          transfer_encoding = 0;
          error_handler_saved_status = pos c.http_status;
          error_handler_saved_method = c.http_method;
          http_method = http_method_get;
        })
        con.error_handler
  call_handler the_handler_404 con =
      start_again
        (record con {
          details = calls.set_redirect_status con.details con.http_status;
          error_handler_saved_status = negative con.http_status;
        })
        con.error_handler_404

  -- After an error handler (which saved the first status) or before.
  pub after_status : ℤ → Connection R → Outcome (Handled R)
  unfolding call_handler
  after_status (pos zero) con =
      let call = call_handler (chosen con) con in
      if leb 400 con.http_status then call else ok (start_response con)
  after_status (pos (suc n)) con = ok (start_response (record con { http_status = suc n }))
  after_status (negsuc n) con =
      let status = if is_missing con.http_status then suc n else con.http_status in
      ok (start_response (record con { http_status = status }))

  pub with_saved_method : ℤ → Connection R → Connection R
  with_saved_method (pos zero) con = con
  with_saved_method (pos (suc n)) con = record con { http_method = con.error_handler_saved_method }
  with_saved_method (negsuc n) con = con

  pub finish_request : Connection R → Outcome (Handled R)
  unfolding after_status with_saved_method
  finish_request con =
      let c = with_saved_method con.error_handler_saved_status con in
      let handle = after_status c.error_handler_saved_status c in
      if c.direct || c.error_intercept then handle else ok (start_response c)

  pub by_handler : Handler → Connection R → Outcome (Handled R)
  unfolding finish_request
  by_handler handler_finished con = finish_request con
  by_handler handler_wait_for_event con =
      let finish = finish_request con in
      let wait = not con.file_finished && (not con.file_started || con.stream_response_body == 0) in
      if wait then ok (record { con = con; again = false; waits_for_fd = false }) else finish
  by_handler handler_wait_for_fd con = ok (record { con = con; again = false; waits_for_fd = true })
  by_handler handler_comeback con = ok (record { con = con; again = true; waits_for_fd = false })
  by_handler handler_error con =
      ok (record { con = record con { state = con_error }; again = false; waits_for_fd = false })
  by_handler handler_unset con = ok (record { con = con; again = false; waits_for_fd = false })
  by_handler handler_go_on con = ok (record { con = con; again = false; waits_for_fd = false })

  pub connection_handle_handle_request_state : Connection R → Outcome (Handled R)
  unfolding by_handler
  connection_handle_handle_request_state con =
      let (c, r) = calls.http_response_prepare con in by_handler r c
