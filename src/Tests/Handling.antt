-- ===== src/Tests/Handling.antt =====
-- A request that ends with status 404, with an error handler in the configuration.
use lighttpd_multithread.Tests.Requests.{details}
use lighttpd_multithread.Base.{ℕ, refl, true, false, arith}
use lighttpd_multithread.Base.Int.{pos, negsuc}
use lighttpd_multithread.Chunk.{chunkqueue_init}
use lighttpd_multithread.Chunk.Contents.{IsQueue}
use lighttpd_multithread.Connections.Handle.{
  con_handle_request, handler_finished, Connection, Calls,
}
use lighttpd_multithread.Tests.Heaps.{ab, unset}

-- The response is there, and the plugins have nothing to reset. (Nothing reads the environment.)
abbrev pub calls : Calls ℕ
calls = record {
  http_response_prepare = λ c. (c, handler_finished);
  set_redirect_status = λ d status. d;
  plugins_call_connection_reset = λ c. c;
  clear_response = λ d status. d;
}

abbrev pub con : Connection ℕ
con = record {
  state = con_handle_request;
  keep_alive = true;
  http_status = 404;
  http_method = pos 0;
  direct = true;
  error_intercept = false;
  error_handler = ab;
  error_handler_404 = unset;
  stream_response_body = 0;
  file_finished = true;
  file_started = true;
  parsed_response = 0;
  is_writable = true;
  is_readable = true;
  loops_per_request = 0;
  request_count = 1;
  fd = pos 3;
  response_keep_alive = 0;
  response_content_length = negsuc 0;
  transfer_encoding = 0;
  content_length = pos 0;
  request_content_queue = chunkqueue_init;
  write_queue = chunkqueue_init;
  read_queue = chunkqueue_init;
  uri = ab;
  error_handler_saved_status = pos 0;
  error_handler_saved_method = pos 0;
  details = details;
  rest = 0;
}

pub init-IsQueue : IsQueue chunkqueue_init
init-IsQueue = record {
  all_chunks = tt;
  has_unused = record { all_reset = tt; counted = refl; at_most = omega arith };
  balance = refl;
}
