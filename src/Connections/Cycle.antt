-- ===== src/Connections/Cycle.antt =====
-- connections.c: the states between two requests, and the reset of a connection.
pub mod Fresh
pub mod State
use lighttpd_multithread.Connections.Details.{
  Details, reset_response_details, reset_request_details,
}
use lighttpd_multithread.Base.{
  ℕ, zero, suc, ◌+◌, ◌-◌, Bool, true, false, not, ◌&&◌, ◌||◌, Option, none, some, ◌==◌,
  if◌then◌else◌, Outcome, ok, ◌>>=◌,
}
use lighttpd_multithread.Base.Int.{ℤ, pos, negsuc, is_neg}
use lighttpd_multithread.Buffer.{Buffer, buffer_reset}
use lighttpd_multithread.Chunk.{Chunkqueue, chunkqueue_reset}
use lighttpd_multithread.Connections.Handle.{
  ConnectionState, con_connect, con_request_start, con_read, con_request_end, con_read_post,
  con_handle_request, con_response_start, con_write, con_response_end, con_error, con_close,
  Connection, holds_number,
}

-- The part of the configuration that a connection is given.
pub record Conf : Type 0 where
  pub error_intercept : Bool
  pub error_handler : Buffer
  pub error_handler_404 : Buffer
  pub stream_response_body : ℕ

-- The calls of the plugins, of the configuration and of the system, and what is done to the rest of
-- a connection: `release_rest` is what `connection_del` clears.
pub record Cycle (R : Type 0) : Type 0 where
  pub plugins_call_handle_request_done : Connection R → Connection R
  pub plugins_call_handle_connection_shut_wr : Connection R → Connection R
  pub plugins_call_handle_connection_close : Connection R → Connection R
  pub plugins_call_connection_reset : Connection R → Connection R
  pub config_setup_connection : Connection R → Conf
  pub shutdown : Connection R → Bool
  pub release_rest : R → R
  pub set_close_timeout : R → R
  pub set_request_start : R → R
  pub http_request_parse : Connection R → Connection R × Bool
  pub connection_handle_write_prepare : Connection R → Connection R × Bool

pub http_method_unset : ℤ
http_method_unset = negsuc 0

abbrev is_error : ConnectionState → Bool
is_error con_error = true
is_error _ = false

abbrev absolute : ℤ → ℤ
absolute (pos n) = pos n
absolute (negsuc n) = pos (suc n)

module _ {R : Type 0} where
  -- The fields of the response, with the queue `q` for it.
  abbrev pub without_response : Connection R → Details → Chunkqueue → Connection R
  without_response con d q = record con {
    direct = true;
    http_status = 0;
    is_writable = true;
    file_finished = false;
    file_started = false;
    parsed_response = 0;
    response_keep_alive = 0;
    response_content_length = negsuc 0;
    transfer_encoding = 0;
    details = d;
    write_queue = q;
  }

  pub connection_response_reset : Connection R → Outcome (Connection R)
  connection_response_reset con = do
    d ← reset_response_details con.details
    q ← chunkqueue_reset con.write_queue
    ok (without_response con d q)

  abbrev pub configured : Connection R → Conf → Connection R
  configured con conf = record con {
    error_intercept = conf.error_intercept;
    error_handler = conf.error_handler;
    error_handler_404 = conf.error_handler_404;
    stream_response_body = conf.stream_response_body;
  }

  -- The body of the request was read whole, and the connection may be kept.
  unfoldable pub may_keep : Connection R → Bool
  may_keep con =
      if not (holds_number con.content_length con.request_content_queue.bytes_in)
        || is_error con.state
      then false
      else con.keep_alive

  pub connection_handle_connect_state : Connection R → Outcome (Connection R)
  connection_handle_connect_state con = do
    q ← chunkqueue_reset con.read_queue
    ok (record con { read_queue = q; request_count = 0 })

module _ {R : Type 0} (calls : Cycle R) where
  -- The fields of the request, with an empty buffer and a queue for it.
  abbrev pub without_request : Connection R → Buffer → Details → Chunkqueue → Connection R
  without_request con uri d q = record con {
    is_readable = true;
    loops_per_request = 0;
    http_method = http_method_unset;
    uri = uri;
    content_length = pos 0;
    request_content_queue = q;
    error_handler_saved_status = pos 0;
    details = d;
  }

  -- What `connection_reset` does after the plugins and the response.
  pub reset_request : Connection R → Outcome (Connection R)
  reset_request con = do
    uri ← buffer_reset con.uri
    d ← reset_request_details con.details
    q ← chunkqueue_reset con.request_content_queue
    ok (without_request con uri d q)

  pub connection_reset : Connection R → Outcome (Connection R)
  unfolding connection_response_reset reset_request
  connection_reset con = do
    c ← connection_response_reset (calls.plugins_call_connection_reset con)
    d ← reset_request c
    ok (configured d (calls.config_setup_connection d))

  -- The socket is closed and the server's count of descriptors goes down; neither is in the
  -- connection.
  pub connection_close : Connection R → Connection R
  connection_close con =
      let c = calls.plugins_call_handle_connection_close (record con { fd = absolute con.fd }) in
      record c { fd = negsuc 0; rest = calls.release_rest c.rest; state = con_connect }

  pub connection_handle_shutdown : Connection R → Outcome (Connection R)
  unfolding connection_reset connection_close
  connection_handle_shutdown con = do
    c ← connection_reset (calls.plugins_call_handle_connection_shut_wr con)
    let closing = record c { state = con_close; rest = calls.set_close_timeout c.rest }
    ok (if not (is_neg c.fd) && calls.shutdown c then closing else connection_close c)

  -- The connection after the plugins have logged the request.
  abbrev pub logged : Connection R → Connection R
  logged con = if con.http_status == 0 then con else calls.plugins_call_handle_request_done con

  -- `if (con->keep_alive)`.
  keep_or_shut : Bool → Connection R → Outcome (Connection R)
  unfolding connection_handle_shutdown
  keep_or_shut true con = do c ← connection_reset con; ok (record c { state = con_request_start })
  keep_or_shut false con = connection_handle_shutdown con

  pub connection_handle_response_end_state : Connection R → Outcome (Connection R)
  unfolding keep_or_shut
  connection_handle_response_end_state con =
      let d = logged con in keep_or_shut (may_keep d) (record d { keep_alive = may_keep d })

  pub connection_handle_request_start_state : Connection R → Connection R
  connection_handle_request_start_state con = record con {
    rest = calls.set_request_start con.rest;
    request_count = con.request_count + 1;
    loops_per_request = 0;
    state = con_read;
  }

  pub connection_handle_request_end_state : Connection R → Connection R
  connection_handle_request_end_state con =
      let (c, post) =
        calls.http_request_parse (record con { rest = calls.release_rest con.rest }) in
      record c { state = if post then con_read_post else con_handle_request }

  pub connection_handle_response_start_state : Connection R → Connection R
  connection_handle_response_start_state con =
      let (c, failed) = calls.connection_handle_write_prepare con in
      record c { state = if failed then con_error else con_write }
