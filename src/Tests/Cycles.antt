-- ===== src/Tests/Cycles.antt =====
-- The end of a response on a connection that is kept.
use lighttpd_multithread.Tests.Requests.{details}
use lighttpd_multithread.Base.{ℕ, true, false}
use lighttpd_multithread.Base.Int.{pos, negsuc}
use lighttpd_multithread.Chunk.{Chunkqueue, chunkqueue_init}
use lighttpd_multithread.Connections.Handle.{con_response_end, Connection}
use lighttpd_multithread.Connections.Cycle.{Cycle}
use lighttpd_multithread.Tests.Heaps.{ab, unset}

-- The plugins do nothing. Nothing of a connection is left to the rest.
abbrev pub cycle : Cycle ℕ
cycle = record {
  plugins_call_handle_request_done = λ c. c;
  plugins_call_handle_connection_shut_wr = λ c. c;
  plugins_call_handle_connection_close = λ c. c;
  plugins_call_connection_reset = λ c. c;
  config_setup_connection = λ c. record {
    error_intercept = false;
    error_handler = unset;
    error_handler_404 = unset;
    stream_response_body = 0;
  };
  shutdown = λ c. true;
  release_rest = λ r. r;
  set_close_timeout = λ r. r;
  set_request_start = λ r. r;
  http_request_parse = λ c. (c, false);
  connection_handle_write_prepare = λ c. (c, false);
}

-- A body of three octets, which were read and sent on.
abbrev body : Chunkqueue
body = record chunkqueue_init { bytes_in = 3; bytes_out = 3 }

abbrev sent : Connection ℕ
sent = record {
  state = con_response_end;
  keep_alive = true;
  http_status = 200;
  http_method = pos 0;
  direct = true;
  error_intercept = false;
  error_handler = unset;
  error_handler_404 = unset;
  stream_response_body = 0;
  file_finished = true;
  file_started = true;
  parsed_response = 0;
  is_writable = true;
  is_readable = true;
  loops_per_request = 1;
  request_count = 1;
  fd = pos 3;
  response_keep_alive = 0;
  response_content_length = negsuc 0;
  transfer_encoding = 0;
  content_length = pos 3;
  request_content_queue = body;
  write_queue = chunkqueue_init;
  read_queue = chunkqueue_init;
  uri = ab;
  error_handler_saved_status = pos 0;
  error_handler_saved_method = pos 0;
  details = details;
  rest = 0;
}
