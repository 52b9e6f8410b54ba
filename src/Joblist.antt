-- ===== src/Joblist.antt =====
-- joblist.c: the queue of connections to run again and the queue of those that wait for a file
-- descriptor, both behind one mutex, `joblist_lock`.
pub mod Queue
pub mod Calls
use lighttpd_multithread.Base.{
  ℕ, zero, suc, ◌+◌, ◌-◌, ◌≡◌, Bool, true, false, not, Option, none, some, List, [], ◌∷◌, ◌++◌, ltb,
  ◌==◌, if◌then◌else◌, length, take, drop, replicate, get_elem?, set,
}
use lighttpd_multithread.Base.Int.{ℤ, pos, negsuc, sub_ℕ}

-- What a call comes to, on one thread. `blocked` waits for a mutex that this thread holds itself,
-- so it never returns; `crashed` uses an uninitialised slot; `unfinished` ran out of fuel.
pub data Job {ℓ} (A : Type ℓ) : Type ℓ where
  done : A → Job A
  blocked crashed unfinished : Job A

infixl 5 ◌>>=◌
abbrev pub ◌>>=◌ {ℓ κ} : {A : Type ℓ} {B : Type κ} → Job A → (A → Job B) → Job B
done a >>= f = f a
blocked >>= f = blocked
crashed >>= f = crashed
unfinished >>= f = unfinished

-- pthread.h, for a mutex of the default kind: `none` is a call that does not return, and a thread
-- that holds the mutex and locks it again is such a call.
pub record Pthread (M : Type 0) : Type 0 where
  pub free : M
  pub held : M
  pub lock : M → Option M
  pub unlock : M → M
  pub lock_free : lock free ≡ some held
  pub lock_held : lock held ≡ none
  pub unlock_held : unlock held ≡ free

-- `connections`: a slot of the allocation that was never written is `none`.
pub record Connections (C : Type 0) : Type 0 where
  pub ptr : List (Option C)
  pub used : ℕ

-- The members of `server` that this file uses, the mutex, and the rest of the program's state.
pub record Server (M C S : Type 0) : Type 0 where
  pub joblist_lock : M
  pub joblist : Connections C
  pub fdwaitqueue : Connections C
  pub want_fds : ℤ
  pub max_fds : ℕ
  pub cur_fds : ℕ
  pub rest : S

module _ {C : Type 0} where
  -- Room for 16 connections, or for 16 more where all slots are in use.
  pub grow_slots : List (Option C) → ℕ → List (Option C)
  grow_slots ptr used =
      if length ptr == 0
      then replicate 16 none
      else if used == length ptr
      then ptr ++ replicate 16 none
      else ptr

  -- The body that `joblist_append` and `fdwaitqueue_append` share.
  unfoldable pub append_to : Connections C → C → Connections C
  append_to q con = record {
    ptr = set (grow_slots q.ptr q.used) q.used (some con);
    used = q.used + 1;
  }

  -- Without the lock: the first connection, and the others moved down by `memmove`.
  unfoldable pub unshift_from : Connections C → Job (Option C × Connections C)
  unshift_from q = if q.used == 0 then done (none, q) else elim q.ptr [
    | [] ↦ crashed
    | none ∷ r ↦ crashed
    | some con ∷ r ↦ done (
      some con,
      record { ptr = take (q.used - 1) r ++ drop (q.used - 1) q.ptr; used = q.used - 1 },
    )
  ]

  -- `ptr[ndx]`, as it is used: the slot must have been written.
  abbrev pub slot_at : Connections C → ℕ → Job C
  slot_at q ndx = elim (get_elem? q.ptr ndx) [
    | none ↦ crashed
    | some x ↦ elim x [ none ↦ crashed | some c ↦ done c ]
  ]

abbrev pub is_zero : ℤ → Bool
is_zero (pos n) = n == 0
is_zero (negsuc n) = false

-- `n - 1`.
abbrev pub less_one : ℤ → ℤ
less_one (pos n) = sub_ℕ n 1
less_one (negsuc n) = negsuc (n + 1)

module _ {M C S : Type 0} (pthread : Pthread M) where
  -- JOB_LOCK and JOB_UNLOCK.
  abbrev pub job_lock : Server M C S → Job (Server M C S)
  job_lock srv = elim (pthread.lock srv.joblist_lock) [
    | none ↦ blocked
    | some m ↦ done (record srv { joblist_lock = m })
  ]

  abbrev pub job_unlock : Server M C S → Server M C S
  job_unlock srv = record srv { joblist_lock = pthread.unlock srv.joblist_lock }

  pub joblist_append : Server M C S → C → Job (Server M C S)
  joblist_append srv con = do
    s ← job_lock srv
    done (job_unlock (record s { joblist = append_to s.joblist con }))

  pub fdwaitqueue_append : Server M C S → C → Job (Server M C S)
  fdwaitqueue_append srv con = do
    s ← job_lock srv
    done (job_unlock (record s { fdwaitqueue = append_to s.fdwaitqueue con }))

  pub fdwaitqueue_unshift : Server M C S → Job (Option C × Server M C S)
  unfolding unshift_from
  fdwaitqueue_unshift srv = do
    s ← job_lock srv
    (con, q) ← unshift_from s.fdwaitqueue
    done (con, job_unlock (record s { fdwaitqueue = q }))

  -- `connection_state_machine` of connections.c, which may call the functions above.
  module _ (connection_state_machine : Server M C S → C → Job (Server M C S)) where
    -- The loop of `joblist_call` from `ndx` on; `used` is read again in every round.
    pub run_jobs : ℕ → ℕ → Server M C S → Job (Server M C S)
    run_jobs zero ndx srv = unfinished
    run_jobs (suc fuel) ndx srv =
        let round = (do
          con ← slot_at srv.joblist ndx
          s ← connection_state_machine srv con
          run_jobs fuel (ndx + 1) s) in
        if ltb ndx srv.joblist.used then round else done srv

    pub joblist_call : Server M C S → Job (Server M C S)
    joblist_call srv = do
      s ← job_lock srv
      t ← run_jobs (s.joblist.used + 1) 0 s
      done (job_unlock (record t { joblist = record { ptr = t.joblist.ptr; used = 0 } }))

    -- The loop of `fdwaitqueue_call`, with `free_fds` rounds left.
    pub share_fds : ℕ → Server M C S → Job (Server M C S)
    share_fds zero srv = done srv
    share_fds (suc free_fds) srv = do
      (con, s) ← fdwaitqueue_unshift srv
      elim con [
        | none ↦ done s
        | some c ↦ do
          t ← connection_state_machine s c
          share_fds free_fds (record t { want_fds = less_one t.want_fds })
      ]

    pub fdwaitqueue_call : Server M C S → Job (Server M C S)
    fdwaitqueue_call srv = do
      s ← job_lock srv
      t ← (if is_zero s.want_fds then done s else share_fds (s.max_fds - s.cur_fds - 16) s)
      done (job_unlock t)
