-- ===== src/Process.antt =====
-- class ChildProcess of include/rpp_cpp/child_process.hpp and src/child_process.cpp, on POSIX. What
-- fork, waitpid, kill and the clock answer is given to each call; pid_ is `none` for -1, and the
-- exit code -1 is negsuc 0. What the forked child does after execvp is not modelled: an exec that
-- fails shows as the exit status 127.
pub mod Invariant
pub mod Waiting
pub mod Cleanup
pub mod Quoting
use rpp_cpp.Base.{
  ℕ, ◌+◌, Bool, true, false, String, ◌<>◌, ◌==◌, ◌&&◌, ◌||◌, not, List, [], ◌∷◌, Option, none, some,
  leb, if◌then◌else◌,
}
use mathlib.Core.Option
use rpp_cpp.Base.Result.{
  Result, ok, err, Error, runtime_error, invalid_argument, logic_error, guard, ◌>>=◌, ◌>>◌,
}
use rpp_cpp.Base.Int.{ℤ, pos, negsuc}

pub record ChildProcess : Type 0 where
  pub pid : Option ℕ
  pub args : List String
  pub exit_code : ℤ
  pub started : Bool

pub data Fork : Type 0 where
  forked : ℕ → Fork
  fork_failed : String → Fork

-- waitpid(pid, &status, WNOHANG): the child exited, was ended by a signal, or changed otherwise; it
-- still runs; the call was interrupted; the call failed.
pub data Wait : Type 0 where
  exited : ℕ → Wait
  signaled : ℕ → Wait
  changed : Wait
  still_running : Wait
  interrupted : Wait
  wait_failed : String → Wait

pub data Kill : Type 0 where
  delivered : Kill
  no_such_process : Kill
  kill_failed : String → Kill

-- ChildProcess(args)
unfoldable pub child_process : List String → Result ChildProcess
child_process [] = err (invalid_argument "Child process requires a command.")
child_process (command ∷ rest) =
    if command == ""
    then err (invalid_argument "Child process requires a command.")
    else ok (record { pid = none; args = command ∷ rest; exit_code = negsuc 0; started = false })

-- After a throw the object is what the code has left; so the object comes back beside the result.
abbrev start_with : Fork → ChildProcess → Result (Unit {0}) × ChildProcess
start_with (forked pid) p = (ok tt, record p { pid = some pid; started = true })
start_with (fork_failed reason) p =
    (err (runtime_error ("Unable to fork child process: " <> reason)), record p { pid = none })

unfoldable pub start : Fork → ChildProcess → Result (Unit {0}) × ChildProcess
start fork p =
    if p.started
    then (err (logic_error "Child process has already been started."), p)
    else start_with fork p

abbrev is_set : Option ℕ → Bool
is_set none = false
is_set (some n) = true

-- `started_ && pid_ >= 0`
unfoldable pub is_live : ChildProcess → Bool
is_live p = p.started && is_set p.pid

-- The exit code that a status stands for, and the state once the child is gone.
abbrev pub reaped : ℤ → ChildProcess → ChildProcess
reaped code p = record p { pid = none; exit_code = code; started = false }

poll : ChildProcess → Wait → ChildProcess × Bool
poll p (exited status) = (reaped (pos status) p, false)
poll p (signaled signal) = (reaped (pos (128 + signal)) p, false)
poll p changed = (reaped p.exit_code p, false)
poll p still_running = (p, true)
poll p interrupted = (p, true)
poll p (wait_failed reason) = (p, false)

unfoldable pub running : Wait → ChildProcess → ChildProcess × Bool
unfolding is_live poll
running w p = if is_live p then poll p w else (p, false)

-- One round of the loop in wait: what waitpid answers, and the time of the deadline's test.
pub record Round : Type 0 where
  pub answer : Wait
  pub now : ℕ

pub data Outcome : Type 0 where
  returned : ℤ → Outcome
  thrown : Error → Outcome
  blocked : Outcome

-- A timeout of `none` is milliseconds::max().
abbrev pub expired : Option ℕ → ℕ → Bool
expired none now = false
expired (some deadline) now = leb deadline now

abbrev timed_out : Error
timed_out = runtime_error "Timed out waiting for child process."

abbrev pub wait_error : String → Error
wait_error reason = runtime_error ("Unable to wait for child process: " <> reason)

-- The end of a round in which the child is still there: the deadline's test, and the next rounds.
sleep : Option ℕ → ChildProcess → ℕ → Outcome × ChildProcess → Outcome × ChildProcess
sleep deadline p now rest = if expired deadline now then (thrown timed_out, p) else rest

wait_round : Option ℕ → ChildProcess → ℕ → Outcome × ChildProcess → Wait → Outcome × ChildProcess
unfolding sleep
wait_round deadline p now rest (exited status) = (returned (pos status), reaped (pos status) p)
wait_round deadline p now rest (signaled signal) =
    (returned (pos (128 + signal)), reaped (pos (128 + signal)) p)
wait_round deadline p now rest changed = (returned p.exit_code, reaped p.exit_code p)
wait_round deadline p now rest still_running = sleep deadline p now rest
wait_round deadline p now rest interrupted = sleep deadline p now rest
wait_round deadline p now rest (wait_failed reason) = (thrown (wait_error reason), p)

-- The loop, over the rounds that the environment grants; `blocked` if it grants no more.
wait_loop : Option ℕ → ChildProcess → List Round → Outcome × ChildProcess
unfolding wait_round
wait_loop deadline p [] = (blocked, p)
wait_loop deadline p (r ∷ rounds) =
    wait_round deadline p r.now (wait_loop deadline p rounds) r.answer

-- wait(timeout), called at the time `now`
unfoldable pub wait : Option ℕ → ℕ → List Round → ChildProcess → Outcome × ChildProcess
unfolding is_live wait_loop
wait timeout now rounds p =
    if is_live p
    then wait_loop (Option.map (λ t. now + t) timeout) p rounds
    else (returned p.exit_code, p)

signal_with : String → Kill → Result (Unit {0})
signal_with verb delivered = ok tt
signal_with verb no_such_process = ok tt
signal_with verb (kill_failed reason) =
    err (runtime_error ("Unable to " <> verb <> " child process: " <> reason))

unfoldable pub terminate : Kill → ChildProcess → Result (Unit {0})
unfolding is_live signal_with
terminate k p = if is_live p then signal_with "terminate" k else ok tt

unfoldable pub kill : Kill → ChildProcess → Result (Unit {0})
unfolding is_live signal_with
kill k p = if is_live p then signal_with "kill" k else ok tt

-- What the system answers during one cleanup.
pub record Surroundings : Type 0 where
  pub now : ℕ
  pub on_terminate : Kill
  pub rounds : List Round
  pub on_kill : Kill
  pub last_now : ℕ
  pub last_rounds : List Round

-- cleanup does not throw: it finishes, or hangs in a wait.
pub data Cleaned : Type 0 where
  finished hangs : Cleaned

abbrev last_wait : Outcome × ChildProcess → Cleaned × ChildProcess
last_wait (blocked, p) = (hangs, p)
last_wait (_, p) = (finished, p)

-- The outer catch block: kill, and wait with no timeout; the inner one drops their exceptions.
force : Surroundings → ChildProcess → Cleaned × ChildProcess
force s p = elim (kill s.on_kill p) [
  | err e ↦ (finished, p)
  | ok _ ↦ last_wait (wait none s.last_now s.last_rounds p)
]

first_wait : Surroundings → Outcome × ChildProcess → Cleaned × ChildProcess
unfolding force
first_wait s (returned code, p) = (finished, p)
first_wait s (thrown e, p) = force s p
first_wait s (blocked, p) = (hangs, p)

-- cleanup, which the destructor calls
unfoldable pub cleanup : Surroundings → ChildProcess → Cleaned × ChildProcess
unfolding force first_wait
cleanup s p =
    if p.started
    then elim (terminate s.on_terminate p) [
      | err e ↦ force s p
      | ok _ ↦ first_wait s (wait (some 2000) s.now s.rounds p)
    ]
    else (finished, p)
