-- ===== src/Joblist/Calls.antt =====
-- The calls on the queues under `joblist_lock`.
use lighttpd_multithread.Base.{
  ℕ, zero, suc, ◌+◌, ◌-◌, ◌≤◌, ◌<◌, ◌≡◌, refl, ap, ◌∙◌, ◌⊎◌, inl, inr, true, false, List, [], ◌∷◌,
  ◌++◌, append_assoc, ltb, length, length-append, Bool-cases, ltb→lt, ltb→ge, arith,
}
use lighttpd_multithread.Joblist.{
  Job, done, blocked, crashed, unfinished, Pthread, Connections, Server, append_to, slot_at,
  is_zero, job_lock, job_unlock, joblist_append, fdwaitqueue_append, fdwaitqueue_unshift, run_jobs,
  joblist_call, share_fds, fdwaitqueue_call, ◌>>=◌,
}
use lighttpd_multithread.Joblist.Queue.{IsQueue, append_to-IsQueue, slot_at-IsQueue}

data Ending {ℓ} {A : Type ℓ} (o : Job A) : Type ℓ where
  returns : (a : A) → o ≡ done a → Ending o
  blocks : o ≡ blocked → Ending o
  crashes : o ≡ crashed → Ending o
  goes_on : o ≡ unfinished → Ending o

Job-cases {ℓ} : {A : Type ℓ} (o : Job A) → Ending o
Job-cases (done a) = returns a refl
Job-cases blocked = blocks refl
Job-cases crashed = crashes refl
Job-cases unfinished = goes_on refl

module _ {M C S : Type 0} (pthread : Pthread M) where
  abbrev pub locked : Server M C S → Server M C S
  locked srv = record srv { joblist_lock = pthread.held }

  job_lock_free :
      (srv : Server M C S)
      → srv.joblist_lock ≡ pthread.free
      → job_lock pthread srv ≡ done (locked srv)
  job_lock_free srv free = ground (arith, free, pthread.lock_free)

  unlock_locked :
      (srv : Server M C S) → srv.joblist_lock ≡ pthread.free → job_unlock pthread (locked srv) ≡ srv
  unlock_locked srv free = ground (arith, free, pthread.unlock_held)

  -- With the mutex free, `joblist_append` puts the connection behind those that wait, changes
  -- nothing else and frees the mutex.
  pub joblist_append_lem :
      (srv : Server M C S) (xs : List C) (con : C)
      → srv.joblist_lock ≡ pthread.free
      → IsQueue xs srv.joblist
      → (q : Connections C) × (joblist_append pthread srv con ≡ done (record srv { joblist = q }))
        × IsQueue (xs ++ (con ∷ [])) q
  unfolding joblist_append
  joblist_append_lem srv xs con free i = (
    append_to srv.joblist con,
    ground (arith, free, pthread.lock_free, pthread.unlock_held),
    append_to-IsQueue xs con srv.joblist i,
  )

  -- The same for the connections that wait for a file descriptor.
  pub fdwaitqueue_append_lem :
      (srv : Server M C S) (xs : List C) (con : C)
      → srv.joblist_lock ≡ pthread.free
      → IsQueue xs srv.fdwaitqueue
      → (q : Connections C) × (fdwaitqueue_append pthread srv con
          ≡ done (record srv { fdwaitqueue = q }))
        × IsQueue (xs ++ (con ∷ [])) q
  unfolding fdwaitqueue_append
  fdwaitqueue_append_lem srv xs con free i = (
    append_to srv.fdwaitqueue con,
    ground (arith, free, pthread.lock_free, pthread.unlock_held),
    append_to-IsQueue xs con srv.fdwaitqueue i,
  )

  pub fdwaitqueue_unshift_held :
      (srv : Server M C S)
      → srv.joblist_lock ≡ pthread.held
      → fdwaitqueue_unshift pthread srv ≡ blocked
  unfolding fdwaitqueue_unshift
  fdwaitqueue_unshift_held srv h = ground (arith, h, pthread.lock_held)

  module _ (machine : Server M C S → C → Job (Server M C S)) where
    share_fds_held :
        (n : ℕ) (srv : Server M C S)
        → srv.joblist_lock ≡ pthread.held
        → share_fds pthread machine (suc n) srv ≡ blocked
    unfolding share_fds
    share_fds_held n srv h = rw (fdwaitqueue_unshift_held srv h)

    -- `fdwaitqueue_call` on a free mutex does nothing at all, when no connection wants a file
    -- descriptor or fewer than 17 are free; in every other case it never returns, since
    -- `fdwaitqueue_unshift` locks the mutex that `fdwaitqueue_call` holds. So no waiting connection
    -- is ever run by it.
    pub fdwaitqueue_call_blocks :
        (srv : Server M C S)
        → srv.joblist_lock ≡ pthread.free
        → (((is_zero srv.want_fds ≡ true) ⊎ (srv.max_fds ≤ srv.cur_fds + 16))
            × (fdwaitqueue_call pthread machine srv ≡ done srv))
          ⊎ ((is_zero srv.want_fds ≡ false)
              × (srv.cur_fds + 16 < srv.max_fds)
              × (fdwaitqueue_call pthread machine srv ≡ blocked))
    unfolding fdwaitqueue_call
    fdwaitqueue_call_blocks srv free = elim (Bool-cases (is_zero srv.want_fds)) [
      | inl none_wanted ↦ inl (
        inl none_wanted,
        ground (arith, free, pthread.lock_free, pthread.unlock_held, none_wanted),
      )
      | inr wanted ↦ elim (Bool-cases (ltb (srv.cur_fds + 16) srv.max_fds)) [
        | inl enough ↦
            let left : srv.max_fds - srv.cur_fds - 16 ≡ suc (srv.max_fds - srv.cur_fds - 17) =
              omega (arith, ltb→lt _ _ enough) in
            inr (
              wanted,
              ltb→lt _ _ enough,
              rw (
                job_lock_free srv free,
                wanted,
                left,
                share_fds_held (srv.max_fds - srv.cur_fds - 17) (locked srv) refl,
              ),
            )
        | inr scarce ↦
            let left : srv.max_fds - srv.cur_fds - 16 ≡ 0 = omega (arith, ltb→ge _ _ scarce) in
            inl (
              inr (ltb→ge _ _ scarce),
              rw (job_lock_free srv free, wanted, left)
                  (unfold share_fds in ap done (unlock_locked srv free)),
            )
      ]
    ]

    -- The state machine on each of the connections in turn.
    pub run_each : List C → Server M C S → Job (Server M C S)
    run_each [] srv = done srv
    run_each (c ∷ cs) srv = do s ← machine srv c; run_each cs s

    -- A state machine that leaves the queue of jobs alone.
    abbrev pub KeepsJobs : Type 0
    KeepsJobs = (srv s : Server M C S) (c : C) → machine srv c ≡ done s → s.joblist ≡ srv.joblist

    run_jobs-run_each :
        KeepsJobs
        → (front back : List C) (fuel ndx : ℕ) (srv : Server M C S)
        → IsQueue (front ++ back) srv.joblist
        → ndx ≡ length front
        → length back < fuel
        → run_jobs pthread machine fuel ndx srv ≡ run_each back srv
    unfolding run_jobs run_each
    run_jobs-run_each keeps front back zero ndx srv i e h = absurd (omega arith)
    run_jobs-run_each keeps front [] (suc fuel) ndx srv i e h =
        ground (arith, i.used_is, length-append front [])
    run_jobs-run_each keeps front (c ∷ back) (suc fuel) ndx srv i e h =
        elim (Job-cases (machine srv c)) [
          | returns s m ↦
              rw (more, slot, m)
                (run_jobs-run_each keeps (front ++ (c ∷ [])) back fuel (ndx + 1) s
                  (rw (keeps srv s c m, append_assoc front (c ∷ []) back) i)
                  (omega (arith, length-append {0})) (omega arith))
          | blocks m ↦ rw (more, slot, m)
          | crashes m ↦ rw (more, slot, m)
          | goes_on m ↦ rw (more, slot, m)
        ]
      where
        more : ltb ndx srv.joblist.used ≡ true
        more = ground (arith, i.used_is, e, length-append front (c ∷ back))

        slot : slot_at srv.joblist ndx ≡ done c
        slot = slot_at-IsQueue front back c srv.joblist ndx i e

    -- With the mutex free, `joblist_call` runs the state machine on each queued connection, the
    -- oldest first, with the mutex held; then the queue is empty and the mutex is freed. The state
    -- machine is one that leaves the queue of jobs alone.
    pub joblist_call-run_each :
        KeepsJobs
        → (xs : List C) (srv : Server M C S) → srv.joblist_lock ≡ pthread.free
        → IsQueue xs srv.joblist
        → joblist_call pthread machine srv ≡ (
            run_each xs (locked srv) >>= λ t.
            done (
              job_unlock pthread (record t { joblist = record { ptr = t.joblist.ptr; used = 0 } })))
    unfolding joblist_call
    joblist_call-run_each keeps xs srv free i = rw (
      job_lock_free srv free,
      run_jobs-run_each keeps [] xs (srv.joblist.used + 1) 0 (locked srv) i refl
          (omega (arith, i.used_is)),
    )

    -- A state machine that answers HANDLER_WAIT_FOR_FD calls `fdwaitqueue_append`. If it does so for
    -- the first connection of the queue of jobs, `joblist_call` never returns.
    pub joblist_call_blocks :
        (c : C) (xs : List C) (srv : Server M C S)
        → srv.joblist_lock ≡ pthread.free
        → IsQueue (c ∷ xs) srv.joblist
        → (prepare : Server M C S → Server M C S)
        → ((s : Server M C S) → (prepare s).joblist_lock ≡ s.joblist_lock)
        → (next : Server M C S → Job (Server M C S))
        → ((s : Server M C S) → machine s c ≡ (fdwaitqueue_append pthread (prepare s) c >>= next))
        → joblist_call pthread machine srv ≡ blocked
    unfolding joblist_call run_jobs fdwaitqueue_append
    joblist_call_blocks c xs srv free i prepare same next waits =
        let more : ltb 0 srv.joblist.used ≡ true = ground (arith, i.used_is) in
        let slot = slot_at-IsQueue [] xs c srv.joblist 0 i refl in
        let stops : machine (locked srv) c ≡ blocked =
          waits (locked srv) ∙ ground (arith, same (locked srv), pthread.lock_held) in
        let fuel : srv.joblist.used + 1 ≡ suc srv.joblist.used = omega arith in
        rw (job_lock_free srv free, fuel, more, slot, stops)
