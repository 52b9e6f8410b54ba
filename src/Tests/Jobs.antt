-- ===== src/Tests/Jobs.antt =====
-- The queues of connections.
use lighttpd_multithread.Base.{
  ℕ, ◌+◌, ◌≤◌, ◌<◌, ◌≡◌, refl, ◌⊎◌, Bool, true, false, Option, none, some, List, [], ◌∷◌, ◌++◌,
}
use lighttpd_multithread.Base.Int.{pos}
use lighttpd_multithread.Joblist.{
  Job, done, blocked, crashed, unfinished, Pthread, Connections, Server, is_zero, job_unlock,
  fdwaitqueue_append, joblist_call, fdwaitqueue_call, ◌>>=◌,
}
use lighttpd_multithread.Joblist.Queue.{IsQueue}
use lighttpd_multithread.Joblist.Calls.{
  fdwaitqueue_call_blocks, joblist_call-run_each, joblist_call_blocks, run_each, locked,
}

-- A mutex is whether it is held.
abbrev take_it : Bool → Option Bool
take_it false = some true
take_it true = none

abbrev mutexes : Pthread Bool
mutexes = record {
  free = false;
  held = true;
  lock = take_it;
  unlock = λ m. false;
  lock_free = refl;
  lock_held = refl;
  unlock_held = refl;
}

abbrev two_jobs : Connections ℕ
two_jobs = record { ptr = some 4 ∷ some 5 ∷ none ∷ []; used = 2 }

two_jobs-IsQueue : IsQueue (4 ∷ 5 ∷ []) two_jobs
two_jobs-IsQueue = record { spare = none ∷ []; ptr_is = refl; used_is = refl }

-- 40 descriptors, none open; one connection waits for one. The rest of the state is the log of the
-- connections that were run.
abbrev server : Server Bool ℕ (List ℕ)
server = record {
  joblist_lock = false;
  joblist = two_jobs;
  fdwaitqueue = two_jobs;
  want_fds = pos 1;
  max_fds = 40;
  cur_fds = 0;
  rest = [];
}

abbrev logging : Server Bool ℕ (List ℕ) → ℕ → Job (Server Bool ℕ (List ℕ))
logging srv c = done (record srv { rest = srv.rest ++ (c ∷ []) })

logging_keeps :
    (srv s : Server Bool ℕ (List ℕ)) (c : ℕ) → logging srv c ≡ done s → s.joblist ≡ srv.joblist
logging_keeps srv s c e = cc e

fdwaitqueue_call_blocks_example :
    (((is_zero server.want_fds ≡ true) ⊎ (40 ≤ server.cur_fds + 16))
      × (fdwaitqueue_call mutexes logging server ≡ done server))
    ⊎ ((is_zero server.want_fds ≡ false)
        × (server.cur_fds + 16 < 40)
        × (fdwaitqueue_call mutexes logging server ≡ blocked))
fdwaitqueue_call_blocks_example = fdwaitqueue_call_blocks mutexes logging server refl

joblist_call-run_each_example : joblist_call mutexes logging server ≡ (
    run_each mutexes logging (4 ∷ 5 ∷ []) (locked mutexes server) >>= λ t.
    done (job_unlock mutexes (record t { joblist = record { ptr = t.joblist.ptr; used = 0 } })))
joblist_call-run_each_example =
    joblist_call-run_each mutexes logging logging_keeps (4 ∷ 5 ∷ []) server refl two_jobs-IsQueue

bind_done : {A : Type 0} (m : Job A) → m ≡ (m >>= λ a. done a)
bind_done (done a) = refl
bind_done blocked = refl
bind_done crashed = refl
bind_done unfinished = refl

joblist_call_blocks_example :
    joblist_call mutexes (λ s c. fdwaitqueue_append mutexes s c) server ≡ blocked
joblist_call_blocks_example =
    joblist_call_blocks mutexes (λ s c. fdwaitqueue_append mutexes s c) 4 (5 ∷ []) server refl
      two_jobs-IsQueue (λ s. s) (λ s. refl) (λ s. done s)
      (λ s. bind_done (fdwaitqueue_append mutexes s 4))
