-- ===== src/Connections/Machine.antt =====
-- connections.c: the table of the states, and the loop that calls their handlers.
pub mod Moves
pub mod Rest
use lighttpd_multithread.Base.{
  ℕ, zero, suc, ◌+◌, Bool, true, false, not, ◌||◌, ◌==◌, if◌then◌else◌, Outcome, ok, ◌>>=◌,
}
use lighttpd_multithread.Base.Memory.{Allocator}
use lighttpd_multithread.Connections.Handle.{
  ConnectionState, con_connect, con_request_start, con_read, con_request_end, con_read_post,
  con_handle_request, con_response_start, con_write, con_response_end, con_error, con_close,
  Connection, Handled, Calls, connection_handle_handle_request_state,
}
use lighttpd_multithread.Connections.Cycle.{
  Cycle, connection_handle_connect_state, connection_handle_response_end_state,
  connection_handle_request_start_state, connection_handle_request_end_state,
  connection_handle_response_start_state,
}
use lighttpd_multithread.Connections.Io.{
  Net, Turn, plain_turn, connection_handle_read_state, connection_handle_write_state,
  connection_handle_close_state,
}

-- The numbers of the enumeration.
abbrev pub state_number : ConnectionState → ℕ
state_number con_connect = 0
state_number con_request_start = 1
state_number con_read = 2
state_number con_request_end = 3
state_number con_read_post = 4
state_number con_handle_request = 5
state_number con_response_start = 6
state_number con_write = 7
state_number con_response_end = 8
state_number con_error = 9
state_number con_close = 10

abbrev pub same_state : ConnectionState → ConnectionState → Bool
same_state s t = state_number s == state_number t

pub connection_get_ostate : ConnectionState → ConnectionState
connection_get_ostate con_read_post = con_handle_request
connection_get_ostate s = s

module _ {R : Type 0} (heap : Allocator) (calls : Calls R) (cycle : Cycle R) (net : Net R) where
  abbrev turn_of : Handled R → Turn R
  turn_of h = record {
    con = h.con;
    again = h.again;
    waits = if h.waits_for_fd then 1 else 0;
    finished = true;
  }

  -- `connection_set_state` sets the state of the connection and of its state machine, which calls the
  -- handler that `state_info` has for it. The number is the rounds for the loop that writes.
  pub state_info : ℕ → ConnectionState → Connection R → Outcome (Turn R)
  state_info rounds con_connect con = do c ← connection_handle_connect_state con; ok (plain_turn c)
  state_info rounds con_request_start con =
      ok (plain_turn (connection_handle_request_start_state cycle con))
  state_info rounds con_read con = connection_handle_read_state net heap con
  state_info rounds con_request_end con =
      ok (plain_turn (connection_handle_request_end_state cycle con))
  state_info rounds con_read_post con = do
    h ← connection_handle_handle_request_state heap calls con
    ok (turn_of h)
  state_info rounds con_handle_request con = do
    h ← connection_handle_handle_request_state heap calls con
    ok (turn_of h)
  state_info rounds con_response_start con =
      ok (plain_turn (connection_handle_response_start_state cycle con))
  state_info rounds con_write con = connection_handle_write_state net rounds con
  state_info rounds con_response_end con = do
    c ← connection_handle_response_end_state cycle con
    ok (plain_turn c)
  state_info rounds con_error con = do
    c ← connection_handle_response_end_state cycle con
    ok (plain_turn c)
  state_info rounds con_close con = ok (plain_turn (connection_handle_close_state net cycle con))

  -- `connection_handle_base`, which calls the state machine again until a handler leaves the state as
  -- it is. (The events that it then registers are not in the connection.)
  pub connection_handle_base : ℕ → ℕ → ConnectionState → Connection R → Outcome (Turn R)
  unfolding state_info
  connection_handle_base zero rounds ostate con =
      ok (record { con = con; again = false; waits = 0; finished = false })
  connection_handle_base (suc fuel) rounds ostate con = do
    t ← state_info rounds con.state con
    let rest = connection_handle_base fuel rounds t.con.state t.con
    let next = do r ← rest; ok (record r { waits = t.waits + r.waits })
    let more = t.again || not (same_state ostate t.con.state)
    if not t.finished then ok t else if more then next else ok t

  pub connection_state_machine : ℕ → ℕ → Connection R → Outcome (Turn R)
  unfolding connection_handle_base connection_get_ostate
  connection_state_machine fuel rounds con =
      connection_handle_base fuel rounds (connection_get_ostate con.state) con
