-- ===== src/Tests/Machine.antt =====
-- A response of which two octets are to be written; its plugin comes once more, with the end.
use lighttpd_multithread.Base.{ℕ, zero, suc, ◌≡◌, refl, ◌⊎◌, inl, true, false, ok, Ensures}
use lighttpd_multithread.Chunk.{chunkqueue_init}
use lighttpd_multithread.Chunk.Contents.{IsQueue}
use lighttpd_multithread.Connections.Handle.{con_write, Connection, Handler, handler_go_on}
use lighttpd_multithread.Connections.Io.{
  Net, net_done, net_closed, Turn, is_writing, connection_handle_write_state,
}
use lighttpd_multithread.Connections.Io.Halves.{Pauses, KeepsQueue}
use lighttpd_multithread.Connections.Io.Ends.{Comes, write_state_ends}
use lighttpd_multithread.Connections.Machine.{connection_state_machine}
use lighttpd_multithread.Connections.Machine.Moves.{KeepsState}
use lighttpd_multithread.Connections.Machine.Rest.{RestsFrom, state_machine-RestsFrom}
use lighttpd_multithread.Tests.Chunks.{queue, queue-IsQueue}
use lighttpd_multithread.Tests.Cycles.{cycle}
use lighttpd_multithread.Tests.Handling.{calls, con, init-IsQueue}
use lighttpd_multithread.Tests.Heaps.{heap}

-- The rest of a connection is how often its plugin still comes.
abbrev answer : ℕ → Connection ℕ → Connection ℕ × Handler
answer zero c = (c, handler_go_on)
answer (suc n) c = (record c { file_finished = true; rest = n }, handler_go_on)

-- Nothing is read, and the socket takes all.
abbrev net : Net ℕ
net = record {
  network_read = λ c. (c, net_closed);
  network_write = λ c n. (record c { write_queue = chunkqueue_init }, net_done);
  connection_write_throttle = λ r. (r, 1000);
  count_written = λ r n. r;
  plugins_call_handle_subrequest = λ c. answer c.rest c;
  set_read_idle = λ r. r;
  set_first_byte = λ r. r;
  set_write_request = λ r. r;
  connection_read_for_eos = λ r. r;
  lingered = λ r. true;
  max_request_field_size = 8192;
}

answer_state : (n : ℕ) (c : Connection ℕ) → (answer n c).0.state ≡ c.state
answer_state zero c = refl
answer_state (suc n) c = refl

answer_valid :
    (n : ℕ) (c : Connection ℕ) → IsQueue c.write_queue → IsQueue (answer n c).0.write_queue
answer_valid zero c v = v
answer_valid (suc n) c v = v

net-KeepsQueue : KeepsQueue net
net-KeepsQueue = record {
  write_state = λ c n. refl;
  write_valid = λ c n v. init-IsQueue;
  ask_valid = λ c v. answer_valid c.rest c v;
}

abbrev sending : Connection ℕ
sending = record con {
  state = con_write;
  direct = false;
  file_finished = false;
  write_queue = queue;
  rest = 1;
}

write_state_ends_example :
    (t : Turn ℕ) × (connection_handle_write_state net 3 sending ≡ ok t)
    × (((t.finished ≡ true) × ((is_writing t.con.state ≡ false) ⊎ Pauses t.con))
        ⊎ ((t.finished ≡ false) × Comes net 3 sending))
write_state_ends_example = write_state_ends net net-KeepsQueue 3 sending refl queue-IsQueue

net-KeepsState : KeepsState calls cycle net
net-KeepsState = record {
  prepare_state = λ c. inl refl;
  reset_state = λ c. refl;
  done_state = λ c. refl;
  subrequest_state = λ c. inl (answer_state c.rest c);
  read_state = λ c. inl refl;
  write_state = λ c n. refl;
}

state_machine-RestsFrom_example :
    Ensures
      (RestsFrom heap calls cycle net net-KeepsState con_write)
      (connection_state_machine heap calls cycle net 9 3 sending)
state_machine-RestsFrom_example =
    state_machine-RestsFrom heap calls cycle net net-KeepsState 9 3 sending
