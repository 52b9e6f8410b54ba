-- ===== src/Connections/Machine/Rest.antt =====
-- connections.c: where the state machine comes to rest.
use lighttpd_multithread.Base.{
  ℕ, zero, suc, ◌≡◌, refl, sym, ap, ◌∙◌, ◌⊎◌, inl, inr, true, not, ◌||◌, List, [], ◌∷◌, get_or,
  ==_iff, Ensures, Ensures-bind, Ensures-test, arith,
}
use mathlib.Core.Path.{subst}
use lighttpd_multithread.Base.Memory.{Allocator}
use lighttpd_multithread.Connections.Handle.{
  ConnectionState, con_connect, con_request_start, con_read, con_request_end, con_read_post,
  con_handle_request, con_response_start, con_write, con_response_end, con_error, con_close,
  Connection, Calls,
}
use lighttpd_multithread.Connections.Cycle.{Cycle}
use lighttpd_multithread.Connections.Io.{Net, Turn}
use lighttpd_multithread.Connections.Machine.{
  state_number, same_state, state_info, connection_get_ostate, connection_handle_base,
  connection_state_machine,
}
use lighttpd_multithread.Connections.Machine.Moves.{
  Waits, Moves, stays, begins, header_read, read_fails, header_too_large, has_body, has_no_body,
  body_read, handled, handled_early, handling_fails, body_fails, prepared, preparing_fails, sent,
  sending_fails, next_request, lingers, ends, lingers_after_error, ends_after_error, closes,
  Reaches, here, there, KeepsState, To, state_info-Moves,
}

abbrev all_states : List ConnectionState
all_states =
    con_connect ∷ con_request_start ∷ con_read ∷ con_request_end ∷ con_read_post
    ∷ con_handle_request ∷ con_response_start ∷ con_write ∷ con_response_end ∷ con_error ∷ con_close
    ∷ []

abbrev state_of : ℕ → ConnectionState
state_of n = get_or all_states n con_close

state_of-number : (s : ConnectionState) → state_of (state_number s) ≡ s
state_of-number con_connect = refl
state_of-number con_request_start = refl
state_of-number con_read = refl
state_of-number con_request_end = refl
state_of-number con_read_post = refl
state_of-number con_handle_request = refl
state_of-number con_response_start = refl
state_of-number con_write = refl
state_of-number con_response_end = refl
state_of-number con_error = refl
state_of-number con_close = refl

same_state_sound : (s t : ConnectionState) → same_state s t ≡ true → s ≡ t
same_state_sound s t h =
    sym (state_of-number s)
    ∙ ap state_of ((==_iff (state_number s) (state_number t)).0 h)
    ∙ state_of-number t

-- A call that leaves the state as it is was made in a state that waits.
Moves-Waits : {s t : ConnectionState} → Moves s t → s ≡ t → Waits t
Moves-Waits (stays w) e = w
Moves-Waits begins e = tt
Moves-Waits header_read e = absurd (omega (arith, ap state_number e))
Moves-Waits read_fails e = absurd (omega (arith, ap state_number e))
Moves-Waits header_too_large e = tt
Moves-Waits has_body e = tt
Moves-Waits has_no_body e = tt
Moves-Waits body_read e = tt
Moves-Waits handled e = absurd (omega (arith, ap state_number e))
Moves-Waits handled_early e = absurd (omega (arith, ap state_number e))
Moves-Waits handling_fails e = absurd (omega (arith, ap state_number e))
Moves-Waits body_fails e = absurd (omega (arith, ap state_number e))
Moves-Waits prepared e = tt
Moves-Waits preparing_fails e = absurd (omega (arith, ap state_number e))
Moves-Waits sent e = absurd (omega (arith, ap state_number e))
Moves-Waits sending_fails e = absurd (omega (arith, ap state_number e))
Moves-Waits next_request e = absurd (omega (arith, ap state_number e))
Moves-Waits lingers e = tt
Moves-Waits ends e = tt
Moves-Waits lingers_after_error e = tt
Moves-Waits ends_after_error e = tt
Moves-Waits closes e = tt

-- The loop's `ostate`, at its start or in a later round.
abbrev IsOstate : ConnectionState → ConnectionState → Type 0
IsOstate o s = (o ≡ s) ⊎ ((o ≡ con_handle_request) × (s ≡ con_read_post))

stop-Waits : (o s t : ConnectionState) → IsOstate o s → Moves s t → same_state o t ≡ true → Waits t
stop-Waits o s t (inl e) m h = Moves-Waits m (sym e ∙ same_state_sound o t h)
stop-Waits o s t (inr (e, f)) m h = subst Waits (sym e ∙ same_state_sound o t h) tt

connection_get_ostate-IsOstate : (s : ConnectionState) → IsOstate (connection_get_ostate s) s
unfolding connection_get_ostate
connection_get_ostate-IsOstate con_connect = inl refl
connection_get_ostate-IsOstate con_request_start = inl refl
connection_get_ostate-IsOstate con_read = inl refl
connection_get_ostate-IsOstate con_request_end = inl refl
connection_get_ostate-IsOstate con_read_post = inr (refl, refl)
connection_get_ostate-IsOstate con_handle_request = inl refl
connection_get_ostate-IsOstate con_response_start = inl refl
connection_get_ostate-IsOstate con_write = inl refl
connection_get_ostate-IsOstate con_response_end = inl refl
connection_get_ostate-IsOstate con_error = inl refl
connection_get_ostate-IsOstate con_close = inl refl

module _ {R : Type 0} (heap : Allocator) (calls : Calls R) (cycle : Cycle R) (net : Net R)
    (k : KeepsState calls cycle net) where
  -- From the state `s`, by moves that are allowed, to a state that waits if the rounds were enough.
  abbrev pub RestsFrom : ConnectionState → Turn R → Type 0
  RestsFrom s t = Reaches s t.con.state × (t.finished ≡ true → Waits t.con.state)

  base-RestsFrom :
      (fuel rounds : ℕ) (o : ConnectionState) (c : Connection R)
      → IsOstate o c.state
      → Ensures (RestsFrom c.state) (connection_handle_base heap calls cycle net fuel rounds o c)
  unfolding connection_handle_base
  base-RestsFrom zero rounds o c i = (here, λ e. absurd (ground (arith, e)))
  base-RestsFrom (suc fuel) rounds o c i =
      Ensures-bind (To heap calls cycle net k c.state) (RestsFrom c.state)
        (state_info heap calls cycle net rounds c.state c) _
        (state_info-Moves heap calls cycle net k rounds c.state c refl)
        (λ t m.
          Ensures-test (RestsFrom c.state) (not t.finished) _ _
            (λ unfinished. (there m here, λ e. absurd (ground (arith, e, unfinished))))
            (λ done.
              Ensures-test (RestsFrom c.state) (t.again || not (same_state o t.con.state)) _ _
                (λ on.
                  Ensures-bind (RestsFrom t.con.state) (RestsFrom c.state)
                    (connection_handle_base heap calls cycle net fuel rounds t.con.state t.con) _
                    (base-RestsFrom fuel rounds t.con.state t.con (inl refl))
                    (λ r h. (there m h.0, h.1)))
                (λ stop. (
                  there m here,
                  λ e. stop-Waits o c.state t.con.state i m (ground (arith, stop)),
                ))))

  -- Where the calls of other parts leave the state alone, or fail, or read the body of a request:
  -- connection_state_machine changes the state only by moves that are allowed, and where it returns
  -- within its rounds, the connection is in a state that waits for an event.
  pub state_machine-RestsFrom :
      (fuel rounds : ℕ) (c : Connection R)
      → Ensures (RestsFrom c.state) (connection_state_machine heap calls cycle net fuel rounds c)
  unfolding connection_state_machine
  state_machine-RestsFrom fuel rounds c =
      base-RestsFrom fuel rounds (connection_get_ostate c.state) c
        (connection_get_ostate-IsOstate c.state)
