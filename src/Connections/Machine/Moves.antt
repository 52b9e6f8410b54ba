-- ===== src/Connections/Machine/Moves.antt =====
-- connections.c: which state may follow which, and where the state machine comes to rest.
use lighttpd_multithread.Base.{
  ℕ, ◌≡◌, refl, sym, ◌∙◌, ◌⊎◌, inl, inr, Bool, false, Ensures, Ensures-bind, Ensures-weaken, arith,
}
use mathlib.Core.Path.{subst}
use lighttpd_multithread.Base.Memory.{Allocator}
use lighttpd_multithread.Connections.Handle.{
  ConnectionState, con_connect, con_request_start, con_read, con_request_end, con_read_post,
  con_handle_request, con_response_start, con_write, con_response_end, con_error, con_close,
  Connection, Handled, Calls, connection_handle_handle_request_state,
}
use lighttpd_multithread.Connections.Cycle.{
  Cycle, connection_handle_connect_state, may_keep, logged, connection_handle_response_end_state,
}
use lighttpd_multithread.Connections.Handle.State.{EndsIn, handle_request-To}
use lighttpd_multithread.Connections.Cycle.State.{
  AfterResponse, connect_state, request_start_state, request_end_state, response_start_state,
  IsShut, response_end_state, logged-error,
}
use lighttpd_multithread.Connections.Io.{
  Net, Turn, connection_handle_read_state, connection_handle_write_state,
}
use lighttpd_multithread.Connections.Io.State.{
  AfterWrite, AfterRead, MayFail, MayFailReading, write_state_state, read_state_state,
  close_state_state,
}
use lighttpd_multithread.Connections.Machine.{state_info}

-- The states in which a connection waits for an event.
abbrev pub Waits : ConnectionState → Type 0
Waits con_request_start = ⊥
Waits con_request_end = ⊥
Waits con_response_start = ⊥
Waits con_response_end = ⊥
Waits con_error = ⊥
Waits _ = Unit

-- What one call of a handler may do to the state.
pub data Moves : ConnectionState → ConnectionState → Type 0 where
  stays : {s : ConnectionState} → Waits s → Moves s s
  begins : Moves con_request_start con_read
  header_read : Moves con_read con_request_end
  read_fails : Moves con_read con_error
  header_too_large : Moves con_read con_handle_request
  has_body : Moves con_request_end con_read_post
  has_no_body : Moves con_request_end con_handle_request
  body_read : Moves con_read_post con_handle_request
  handled : Moves con_handle_request con_response_start
  handled_early : Moves con_read_post con_response_start
  handling_fails : Moves con_handle_request con_error
  body_fails : Moves con_read_post con_error
  prepared : Moves con_response_start con_write
  preparing_fails : Moves con_response_start con_error
  sent : Moves con_write con_response_end
  sending_fails : Moves con_write con_error
  next_request : Moves con_response_end con_request_start
  lingers : Moves con_response_end con_close
  ends : Moves con_response_end con_connect
  lingers_after_error : Moves con_error con_close
  ends_after_error : Moves con_error con_connect
  closes : Moves con_close con_connect

-- A sequence of calls.
pub data Reaches : ConnectionState → ConnectionState → Type 0 where
  here : {s : ConnectionState} → Reaches s s
  there : {s t u : ConnectionState} → Moves s t → Reaches t u → Reaches s u

module _ {R : Type 0} where
  -- What the calls of other parts do to the state: the body of a request may be read whole, or not.
  pub record KeepsState (calls : Calls R) (cycle : Cycle R) (net : Net R) : Type 0 where
    pub prepare_state :
        (c : Connection R)
        → let d = (calls.http_response_prepare c).0 in
          (d.state ≡ c.state)
          ⊎ ((d.state ≡ con_error) ⊎ ((c.state ≡ con_read_post) × (d.state ≡ con_handle_request)))
    pub reset_state : (c : Connection R) → (calls.plugins_call_connection_reset c).state ≡ c.state
    pub done_state : (c : Connection R) → (cycle.plugins_call_handle_request_done c).state ≡ c.state
    pub subrequest_state : MayFail net
    pub read_state : MayFailReading net
    pub write_state : (c : Connection R) (n : ℕ) → (net.network_write c n).0.state ≡ c.state

-- From one state to another, where it may stay or become another.
moves_to : {s t u : ConnectionState} → Moves s t → u ≡ t → Moves s u
moves_to {s} m e = subst (Moves s) (sym e) m

after_write_moves : {s : ConnectionState} → AfterWrite s → Moves con_write s
after_write_moves (inl e) = moves_to (stays tt) e
after_write_moves (inr (inl e)) = moves_to sent e
after_write_moves (inr (inr e)) = moves_to sending_fails e

after_read_moves : {s : ConnectionState} → AfterRead s → Moves con_read s
after_read_moves (inl e) = moves_to (stays tt) e
after_read_moves (inr (inl e)) = moves_to header_read e
after_read_moves (inr (inr (inl e))) = moves_to read_fails e
after_read_moves (inr (inr (inr e))) = moves_to header_too_large e

module _ {R : Type 0} (heap : Allocator) (calls : Calls R) (cycle : Cycle R) (net : Net R)
    (k : KeepsState calls cycle net) where
  abbrev pub To : ConnectionState → Turn R → Type 0
  To s t = Moves s t.con.state

  request_moves :
      {s t : ConnectionState}
      → (s ≡ con_handle_request) ⊎ (s ≡ con_error)
      → EndsIn s t
      → Moves con_handle_request t
  request_moves (inl e) (inl f) = moves_to (stays tt) (f ∙ e)
  request_moves (inr e) (inl f) = moves_to handling_fails (f ∙ e)
  request_moves h (inr (inl f)) = moves_to handled f
  request_moves h (inr (inr f)) = moves_to handling_fails f

  post_moves :
      {s t : ConnectionState}
      → (s ≡ con_read_post) ⊎ ((s ≡ con_error) ⊎ (s ≡ con_handle_request))
      → EndsIn s t
      → Moves con_read_post t
  post_moves (inl e) (inl f) = moves_to (stays tt) (f ∙ e)
  post_moves (inr (inl e)) (inl f) = moves_to body_fails (f ∙ e)
  post_moves (inr (inr e)) (inl f) = moves_to body_read (f ∙ e)
  post_moves h (inr (inl f)) = moves_to handled_early f
  post_moves h (inr (inr f)) = moves_to body_fails f

  prepared_request :
      (c : Connection R)
      → c.state ≡ con_handle_request
      → let d = (calls.http_response_prepare c).0 in
        (d.state ≡ con_handle_request) ⊎ (d.state ≡ con_error)
  prepared_request c e = elim (k.prepare_state c) [
    | inl f ↦ inl (f ∙ e)
    | inr (inl f) ↦ inr f
    | inr (inr (f, g)) ↦ inl g
  ]

  prepared_post :
      (c : Connection R)
      → c.state ≡ con_read_post
      → let d = (calls.http_response_prepare c).0 in
        (d.state ≡ con_read_post) ⊎ ((d.state ≡ con_error) ⊎ (d.state ≡ con_handle_request))
  prepared_post c e = elim (k.prepare_state c) [
    | inl f ↦ inl (f ∙ e)
    | inr (inl f) ↦ inr (inl f)
    | inr (inr (f, g)) ↦ inr (inr g)
  ]

  shut_moves :
      {s t : ConnectionState} → (s ≡ con_response_end) ⊎ (s ≡ con_error) → IsShut t → Moves s t
  shut_moves (inl e) (inl f) = moves_to (subst (λ s. Moves s con_close) (sym e) lingers) f
  shut_moves (inl e) (inr f) = moves_to (subst (λ s. Moves s con_connect) (sym e) ends) f
  shut_moves (inr e) (inl f) =
      moves_to (subst (λ s. Moves s con_close) (sym e) lingers_after_error) f
  shut_moves (inr e) (inr f) =
      moves_to (subst (λ s. Moves s con_connect) (sym e) ends_after_error) f

  response_moves :
      {keep : Bool} {t : ConnectionState} → AfterResponse keep t → Moves con_response_end t
  response_moves (inl (q, e)) = moves_to next_request e
  response_moves (inr h) = shut_moves (inl refl) h

  error_moves :
      {keep : Bool} {t : ConnectionState} → keep ≡ false → AfterResponse keep t → Moves con_error t
  error_moves f (inl (q, e)) = absurd (ground (arith, f, q))
  error_moves f (inr h) = shut_moves (inr refl) h

  -- One call of the handler for a state.
  pub state_info-Moves :
      (rounds : ℕ) (s : ConnectionState) (c : Connection R)
      → c.state ≡ s
      → Ensures (To s) (state_info heap calls cycle net rounds s c)
  unfolding state_info
  state_info-Moves rounds con_connect c e =
      Ensures-bind (λ (d : Connection R). d.state ≡ c.state) (To con_connect)
        (connection_handle_connect_state c) _ (connect_state cycle c)
        (λ d f. moves_to (stays tt) (f ∙ e))
  state_info-Moves rounds con_request_start c e = moves_to begins (request_start_state cycle c)
  state_info-Moves rounds con_read c e =
      Ensures-weaken (connection_handle_read_state net heap c)
        (read_state_state net heap k.read_state c e) (λ t h. after_read_moves h)
  state_info-Moves rounds con_request_end c e = elim (request_end_state cycle c) [
    | inl f ↦ moves_to has_body f
    | inr f ↦ moves_to has_no_body f
  ]
  state_info-Moves rounds con_read_post c e =
      Ensures-bind (λ (h : Handled R). EndsIn (calls.http_response_prepare c).0.state h.con.state)
        (To con_read_post) (connection_handle_handle_request_state heap calls c) _
        (handle_request-To heap calls k.reset_state c) (λ h a. post_moves (prepared_post c e) a)
  state_info-Moves rounds con_handle_request c e =
      Ensures-bind (λ (h : Handled R). EndsIn (calls.http_response_prepare c).0.state h.con.state)
        (To con_handle_request) (connection_handle_handle_request_state heap calls c) _
        (handle_request-To heap calls k.reset_state c)
        (λ h a. request_moves (prepared_request c e) a)
  state_info-Moves rounds con_response_start c e = elim (response_start_state cycle c) [
    | inl f ↦ moves_to preparing_fails f
    | inr f ↦ moves_to prepared f
  ]
  state_info-Moves rounds con_write c e =
      Ensures-weaken (connection_handle_write_state net rounds c)
        (write_state_state net k.write_state k.subrequest_state rounds c e)
        (λ t h. after_write_moves h)
  state_info-Moves rounds con_response_end c e =
      Ensures-bind (λ (d : Connection R). AfterResponse (may_keep (logged cycle c)) d.state)
        (To con_response_end) (connection_handle_response_end_state cycle c) _
        (response_end_state cycle c) (λ d h. response_moves h)
  state_info-Moves rounds con_error c e =
      Ensures-bind (λ (d : Connection R). AfterResponse (may_keep (logged cycle c)) d.state)
        (To con_error) (connection_handle_response_end_state cycle c) _ (response_end_state cycle c)
        (λ d h. error_moves (logged-error cycle c k.done_state e) h)
  state_info-Moves rounds con_close c e = elim (close_state_state net cycle c) [
    | inl f ↦ moves_to (stays tt) (f ∙ e)
    | inr f ↦ moves_to closes f
  ]
