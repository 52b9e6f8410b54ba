-- ===== src/Connections/Cycle/Fresh.antt =====
-- connections.c: a connection is used again only when the request's body was read whole, and then
-- nothing of the request is left in it.
use lighttpd_multithread.Connections.Details.Clean.{HasArrays, IsUnanswered, IsUnasked}
use lighttpd_multithread.Base.{◌<◌, ◌≡◌, true, false, []}
use lighttpd_multithread.Base.Int.{pos, negsuc}
use lighttpd_multithread.Base.Memory.{size_mod}
use lighttpd_multithread.Buffer.{size}
use lighttpd_multithread.Chunk.Contents.{IsQueue}
use lighttpd_multithread.Connections.Handle.{Connection}
use lighttpd_multithread.Connections.Cycle.{Cycle, http_method_unset}

module _ {R : Type 0} where
  -- The queues are valid, the buffer for the URI fits in the address space, and the arrays have their
  -- entries.
  pub record HasQueues (con : Connection R) : Type 0 where
    pub valid_body : IsQueue con.request_content_queue
    pub valid_out : IsQueue con.write_queue
    pub uri_fits : size con.uri < size_mod
    pub has_arrays : HasArrays con.details

  -- Nothing is left of a request and its response.
  pub record IsFresh (con : Connection R) : Type 0 where
    pub no_status : con.http_status ≡ 0
    pub no_method : con.http_method ≡ http_method_unset
    pub no_uri : con.uri.used ≡ 0
    pub unasked : IsUnasked con.details
    pub unanswered : IsUnanswered con.details
    pub direct : con.direct ≡ true
    pub no_response_length : con.response_content_length ≡ negsuc 0
    pub not_parsed : con.parsed_response ≡ 0
    pub no_saved_status : con.error_handler_saved_status ≡ pos 0
    pub no_length : con.content_length ≡ pos 0
    pub not_started : con.file_started ≡ false
    pub not_finished : con.file_finished ≡ false
    pub not_unfinished : con.transfer_encoding ≡ 0
    pub valid_body : IsQueue con.request_content_queue
    pub no_body : con.request_content_queue.chunks ≡ []
    pub no_body_read : con.request_content_queue.bytes_in ≡ 0
    pub valid_out : IsQueue con.write_queue
    pub no_out : con.write_queue.chunks ≡ []

  -- The plugins keep the queues and the arrays valid.
  pub record KeepsQueues (calls : Cycle R) : Type 0 where
    pub done_keeps :
        (c : Connection R) → HasQueues c → HasQueues (calls.plugins_call_handle_request_done c)
    pub shut_keeps :
        (c : Connection R)
        → HasQueues c
        → HasQueues (calls.plugins_call_handle_connection_shut_wr c)
    pub reset_keeps :
        (c : Connection R) → HasQueues c → HasQueues (calls.plugins_call_connection_reset c)
