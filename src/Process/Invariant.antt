-- ===== src/Process/Invariant.antt =====
-- What holds of a ChildProcess between calls, and what its calls do to it.
use rpp_cpp.Base.{ℕ, ◌+◌, ◌≡◌, refl, true, false, String, List, [], ◌∷◌, Option, some, arith}
use rpp_cpp.Base.Result.{ok}
use rpp_cpp.Base.Int.{ℤ}
use mathlib.Core.Option
use rpp_cpp.Process.{
  ChildProcess, Fork, forked, fork_failed, Wait, still_running, Round, returned, child_process,
  start, poll, running, wait_loop, wait, reaped, is_live, is_set,
}

-- A process that is started has a pid: started_ and pid_ never disagree.
abbrev pub IsValid : ChildProcess → Type 0
IsValid p = p.started ≡ is_set p.pid

-- One call on the object, with what the system answers to it.
pub data Call : Type 0 where
  starting : Fork → Call
  asking : Wait → Call
  waiting : Option ℕ → ℕ → List Round → Call

abbrev pub after : Call → ChildProcess → ChildProcess
after (starting fork) p = (start fork p).1
after (asking w) p = (running w p).0
after (waiting timeout now rounds) p = (wait timeout now rounds p).1

wait_loop-IsValid :
    (deadline : Option ℕ) (p : ChildProcess) (rounds : List Round)
    → IsValid p
    → IsValid (wait_loop deadline p rounds).1
unfolding wait_loop
wait_loop-IsValid deadline p [] v = v
wait_loop-IsValid deadline p (r ∷ rounds) v = ground (arith, wait_loop-IsValid deadline p rounds v)

pub start-IsValid : (fork : Fork) (p : ChildProcess) → IsValid p → IsValid (start fork p).1
unfolding start
start-IsValid (forked pid) p v = ground (arith, v)
start-IsValid (fork_failed reason) p v = ground (arith, v)

running-IsValid : (w : Wait) (p : ChildProcess) → IsValid p → IsValid (running w p).0
unfolding running poll
running-IsValid w p v = ground (arith, v)

pub wait-IsValid :
    (timeout : Option ℕ) (now : ℕ) (rounds : List Round) (p : ChildProcess)
    → IsValid p
    → IsValid (wait timeout now rounds p).1
unfolding wait
wait-IsValid timeout now rounds p v =
    ground (arith, v, wait_loop-IsValid (Option.map (λ t. now + t) timeout) p rounds v)

after-IsValid : (c : Call) (p : ChildProcess) → IsValid p → IsValid (after c p)
after-IsValid (starting fork) p v = start-IsValid fork p v
after-IsValid (asking w) p v = running-IsValid w p v
after-IsValid (waiting timeout now rounds) p v = wait-IsValid timeout now rounds p v

abbrev pub run : List Call → ChildProcess → ChildProcess
run [] p = p
run (c ∷ calls) p = run calls (after c p)

run-IsValid : (calls : List Call) (p : ChildProcess) → IsValid p → IsValid (run calls p)
run-IsValid [] p v = v
run-IsValid (c ∷ calls) p v = run-IsValid calls (after c p) (after-IsValid c p v)

pub child_process-IsValid :
    (args : List String) (p : ChildProcess) → child_process args ≡ ok p → IsValid p
unfolding child_process
child_process-IsValid [] p e = ground (arith, e)
child_process-IsValid (a ∷ args) p e = ground (arith, e)

-- Whatever sequence of start, running and wait is called on a new ChildProcess, and whatever the
-- system answers, started_ is true exactly when pid_ is set.
pub calls-IsValid :
    (args : List String) (p : ChildProcess) (calls : List Call)
    → child_process args ≡ ok p
    → IsValid (run calls p)
calls-IsValid args p calls e = run-IsValid calls p (child_process-IsValid args p e)

wait_loop-keeps_code :
    (deadline : Option ℕ) (p q : ChildProcess) (rounds : List Round) (code : ℤ)
    → wait_loop deadline p rounds ≡ (returned code, q)
    → q ≡ reaped code p
unfolding wait_loop
wait_loop-keeps_code deadline p q [] code e = ground (arith, e)
wait_loop-keeps_code deadline p q (r ∷ rounds) code e =
    ground (arith, e, wait_loop-keeps_code deadline p q rounds code)

wait-keeps_code :
    (timeout : Option ℕ) (now : ℕ) (rounds : List Round) (p q : ChildProcess) (code : ℤ)
    → is_live p ≡ true
    → wait timeout now rounds p ≡ (returned code, q)
    → q ≡ reaped code p
unfolding wait
wait-keeps_code timeout now rounds p q code live =
    rw live (λ e. wait_loop-keeps_code (Option.map (λ t. now + t) timeout) p q rounds code e)

reaped-settled :
    (again : Option ℕ) (later : ℕ) (more : List Round) (p : ChildProcess) (code : ℤ) (pid : ℕ)
    → (wait again later more (reaped code p) ≡ (returned code, reaped code p))
      × (running still_running (reaped code p) ≡ (reaped code p, false))
      × (start (forked pid) (reaped code p)
          ≡ (ok tt, record p { pid = some pid; started = true; exit_code = code }))
unfolding wait running start
reaped-settled again later more p code pid = (refl, refl, refl)

-- Once a wait has returned a code for a started process, every later wait returns that code at once,
-- whatever the system would answer; and the process can be started again, as a new child.
pub wait-settled :
    (timeout again : Option ℕ) (now later : ℕ) (rounds more : List Round) (p q : ChildProcess)
    (code : ℤ) (pid : ℕ)
    → is_live p ≡ true
    → wait timeout now rounds p ≡ (returned code, q)
    → (wait again later more q ≡ (returned code, q))
      × (running still_running q ≡ (q, false))
      × (start (forked pid) q
          ≡ (ok tt, record p { pid = some pid; started = true; exit_code = code }))
unfolding wait running start
wait-settled timeout again now later rounds more p q code pid live e =
    rw (wait-keeps_code timeout now rounds p q code live e)
      (reaped-settled again later more p code pid)
