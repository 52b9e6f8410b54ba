-- ===== src/Connections/Io.antt =====
-- connections.c: the states in which a connection reads, writes and lingers.
pub mod State
pub mod Halves
pub mod Ends
use lighttpd_multithread.Connections.Details.{Details, counted}
use lighttpd_multithread.Base.{
  ℕ, zero, suc, ◌+◌, ◌-◌, Bool, true, false, not, ◌&&◌, ◌||◌, Option, none, some, List, [], ◌∷◌,
  ltb, ◌==◌, if◌then◌else◌, Outcome, ok, ◌>>=◌,
}
use lighttpd_multithread.Base.Memory.{Allocator}
use lighttpd_multithread.Buffer.{Buffer, buffer_string_length}
use lighttpd_multithread.Chunk.{
  Chunk, Chunkqueue, chunkqueue_length, chunkqueue_remove_finished_chunks,
}
use lighttpd_multithread.Connections.{read_header}
use lighttpd_multithread.Connections.Handle.{
  ConnectionState, con_connect, con_request_start, con_read, con_request_end, con_read_post,
  con_handle_request, con_response_start, con_write, con_response_end, con_error, con_close,
  Connection, Handler, handler_unset, handler_go_on, handler_finished, handler_comeback,
  handler_wait_for_event, handler_error, handler_wait_for_fd,
}
use lighttpd_multithread.Connections.Cycle.{Cycle, connection_close}

-- What `network_read` and `network_write` return: -1, -2, or a number that is not negative.
pub data NetResult : Type 0 where
  net_failed net_closed net_done : NetResult

-- What `connection_write_chunkqueue` returns: 0, -1, -2 or 1.
pub data WriteResult : Type 0 where
  all_written write_failed remote_close blocked : WriteResult

-- The network, the plugin that produces the response, and the times and the count of the server
-- (`count_written`). `connection_write_throttle` gives the limit on what is
-- written.
pub record Net (R : Type 0) : Type 0 where
  pub network_read : Connection R → Connection R × NetResult
  pub network_write : Connection R → ℕ → Connection R × NetResult
  pub connection_write_throttle : R → R × ℕ
  pub count_written : R → ℕ → R
  pub plugins_call_handle_subrequest : Connection R → Connection R × Handler
  pub set_read_idle : R → R
  pub set_first_byte : R → R
  pub set_write_request : R → R
  pub connection_read_for_eos : R → R
  pub lingered : R → Bool
  pub max_request_field_size : ℕ

-- The connection after a call of the state machine, whether the call returns -1, how often the
-- connection was appended to the queue for file descriptors, and whether the rounds were enough.
pub record Turn (R : Type 0) : Type 0 where
  pub con : Connection R
  pub again : Bool
  pub waits : ℕ
  pub finished : Bool

abbrev pub is_empty : Chunkqueue → Bool
is_empty q = elim q.chunks [ [] ↦ true | c ∷ cs ↦ false ]

abbrev pub is_writing : ConnectionState → Bool
is_writing con_write = true
is_writing _ = false

abbrev pub plain_turn : {R : Type 0} → Connection R → Turn R
plain_turn con = record { con = con; again = false; waits = 0; finished = true }

module _ {R : Type 0} (net : Net R) where
  abbrev time_written : Connection R → Connection R
  time_written con = record con { rest = net.set_write_request con.rest }

  -- What the answer of the network means for the connection.
  pub by_result : WriteResult → Connection R → Connection R
  by_result all_written con =
      let c = time_written con in
      if con.file_finished then record c { state = con_response_end } else c
  by_result write_failed con = record con { state = con_error }
  by_result remote_close con = record con { state = con_error }
  by_result blocked con = record (time_written con) { is_writable = false }

  -- What `network_write` returned, where the queue held `out` octets less before.
  pub after_network : NetResult → ℕ → Connection R → Outcome (Connection R × WriteResult)
  after_network r out con = do
    q ← (elim r [
      | net_done ↦ chunkqueue_remove_finished_chunks con.write_queue
      | failed ↦ ok con.write_queue
    ])
    let c = record con {
      write_queue = q;
      details = counted con.details (q.bytes_out - out);
      rest = net.count_written con.rest (q.bytes_out - out);
    }
    ok (
      c,
      elim r [
        | net_done ↦ if is_empty q then all_written else blocked
        | net_failed ↦ write_failed
        | net_closed ↦ remote_close
      ],
    )

  pub connection_write_chunkqueue : Connection R → Outcome (Connection R × WriteResult)
  unfolding after_network
  connection_write_chunkqueue con =
      let (rest, max_bytes) = net.connection_write_throttle con.rest in
      let throttled = record con { rest = rest } in
      let (c, r) = net.network_write throttled max_bytes in
      if max_bytes == 0
      then ok (throttled, blocked)
      else after_network r con.write_queue.bytes_out c

  -- It returns 0 always.
  pub connection_handle_write : Connection R → Outcome (Connection R)
  unfolding connection_write_chunkqueue by_result
  connection_handle_write con = do (c, r) ← connection_write_chunkqueue con; ok (by_result r c)

  -- The first half of a round, and whether it leaves the loop by `break`.
  pub write_queued : Connection R → Outcome (Connection R × Bool)
  unfolding connection_handle_write
  write_queued con =
      let write = (do c ← connection_handle_write con; ok (c, not (is_writing c.state))) in
      if not (is_empty con.write_queue)
      then (if con.is_writable then write else ok (con, false))
      else if con.file_finished
      then ok (record con { state = con_response_end }, true)
      else ok (con, false)

  -- What the plugin's answer means, and whether the connection waits for a file descriptor.
  pub by_subrequest : Handler → Connection R → Connection R × ℕ
  by_subrequest handler_wait_for_event con = (con, 0)
  by_subrequest handler_finished con = (con, 0)
  by_subrequest handler_go_on con = (con, 0)
  by_subrequest handler_wait_for_fd con = (con, 1)
  by_subrequest handler_comeback con = (record con { state = con_error }, 0)
  by_subrequest handler_unset con = (record con { state = con_error }, 0)
  by_subrequest handler_error con = (record con { state = con_error }, 0)

  -- The second half of a round: more of the response.
  pub ask_plugin : Connection R → Connection R × ℕ
  unfolding by_subrequest
  ask_plugin con =
      let (c, r) = net.plugins_call_handle_subrequest con in
      if not con.direct && not con.file_finished then by_subrequest r c else (con, 0)

  -- The condition of the loop.
  pub writes_on : Connection R → Bool
  writes_on con =
      is_writing con.state
      && (if not (is_empty con.write_queue) then con.is_writable else con.file_finished)

  pub connection_handle_write_state : ℕ → Connection R → Outcome (Turn R)
  unfolding write_queued ask_plugin writes_on
  connection_handle_write_state zero con =
      ok (record { con = con; again = false; waits = 0; finished = false })
  connection_handle_write_state (suc fuel) con = do
    (c, broken) ← write_queued con
    let (d, n) = ask_plugin c
    let rest = connection_handle_write_state fuel d
    let next = do t ← rest; ok (record t { waits = n + t.waits })
    let stop = ok (record { con = d; again = false; waits = n; finished = true })
    if broken then ok (plain_turn c) else if writes_on d then next else stop

  pub connection_handle_close_state : Cycle R → Connection R → Connection R
  connection_handle_close_state cycle con =
      let c = record con { rest = net.connection_read_for_eos con.rest } in
      if net.lingered c.rest then connection_close cycle c else c

  module _ (heap : Allocator) where
    -- The state after the search for the end of a header, where `is_closed` says that nothing more
    -- comes. The number is what is compared with the limit.
    pub after_search :
        Bool → Connection R → Option (Buffer × Chunkqueue) → Outcome (Connection R × ℕ)
    after_search is_closed con (some (b, q)) = ok (
      record con {
        read_queue = q;
        details = record con.details { request = b };
        state = con_request_end;
      },
      buffer_string_length b,
    )
    after_search is_closed con none = do
      n ← chunkqueue_length con.read_queue
      ok ((if is_closed then record con { state = con_error } else con), n)

    -- The handler from the end of `network_read` on.
    pub read_queued : Bool → Bool → Connection R → Outcome (Connection R)
    unfolding after_search
    read_queued is_closed is_request_start con = do
      q ← chunkqueue_remove_finished_chunks con.read_queue
      let first = ltb 1 con.request_count && is_request_start
      let timed = if first then net.set_first_byte con.rest else con.rest
      found ← read_header heap con.details.request q
      (c, n) ← after_search is_closed (record con { read_queue = q; rest = timed }) found
      let large = record c { http_status = 431; keep_alive = false; state = con_handle_request }
      let d = if ltb net.max_request_field_size n then large else c
      q' ← chunkqueue_remove_finished_chunks d.read_queue
      ok (record d { read_queue = q' })

    pub by_read : NetResult → Bool → Connection R → Outcome (Turn R)
    unfolding read_queued
    by_read net_failed is_request_start con =
        ok (record (plain_turn (record con { state = con_error })) { again = true })
    by_read net_closed is_request_start con = do
      c ← read_queued true is_request_start con
      ok (plain_turn c)
    by_read net_done is_request_start con = do
      c ← read_queued false is_request_start con
      ok (plain_turn c)

    pub connection_handle_read_state : Connection R → Outcome (Turn R)
    unfolding by_read
    connection_handle_read_state con =
        let is_request_start = is_empty con.read_queue in
        let (c, r) = net.network_read (record con { rest = net.set_read_idle con.rest }) in
        if con.is_readable
        then by_read r is_request_start c
        else by_read net_done is_request_start con
