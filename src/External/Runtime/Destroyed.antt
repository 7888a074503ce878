-- ===== src/External/Runtime/Destroyed.antt =====
-- What the destructor leaves behind.
use rpp_cpp.Base.{
  ℕ, ◌+◌, ◌≤◌, ◌≡◌, ◌≢◌, refl, sym, ◌∙◌, Bool, true, false, List, ◌∷◌, ◌++◌, Option, some, arith,
}
use mathlib.Core.Path.{subst}
use rpp_cpp.Base.Int.{ℤ}
use rpp_cpp.Process.{
  ChildProcess, Round, Outcome, returned, thrown, blocked, finished, wait, cleanup, is_live, reaped,
}
use rpp_cpp.Process.Invariant.{IsValid}
use rpp_cpp.Process.Waiting.{AllUndecided, code_of, wait-first_end, wait-ends}
use rpp_cpp.Process.Cleanup.{Ends, IsGone, cleanup-IsGone, Waited, wait-Waited, live-of-started}
use rpp_cpp.External.Runtime.Built.{cleanup-idle}
use rpp_cpp.External.Runtime.{
  ExternalComponentProcess, ShutdownAnswer, answered, silent, failed, Ending, returns, after_wait,
  wait_and_destroy, destroy,
}

returns-answer : (b : Bool) (a : ShutdownAnswer) → a ≢ silent → returns b a ≡ true
returns-answer false a h = refl
returns-answer true answered h = refl
returns-answer true silent h = absurd (h refl)
returns-answer true (failed e) h = refl

wait-idle :
    (timeout : Option ℕ) (now : ℕ) (rounds : List Round) (p : ChildProcess)
    → p.started ≡ false
    → wait timeout now rounds p ≡ (returned p.exit_code, p)
unfolding wait is_live
wait-idle timeout now rounds p e = ground (arith, e)

module _ {Client : Type 0} (w : Ending) (x : ExternalComponentProcess Client)
    (answers : w.shutdown_answer ≢ silent) where
  destroy-eq : destroy w x ≡ wait_and_destroy w x.process
  unfolding destroy
  destroy-eq = rw (returns-answer x.runtime_client w.shutdown_answer answers) (ground arith)

  -- Where the server answers the shutdown request, or the request fails, and the child ends within
  -- the second that the destructor waits, the child is reaped with its code, and the cleanup after
  -- that sends it no signal: the outcome is the same whatever the system would answer to one.
  pub destroy-graceful :
      (before after : List Round) (r : Round) (code : ℤ)
      → is_live x.process ≡ true
      → w.rounds ≡ before ++ r ∷ after
      → AllUndecided (some (w.now + 1000)) before
      → code_of x.process r.answer ≡ some code
      → destroy w x ≡ (finished, reaped code x.process)
  unfolding wait_and_destroy cleanup
  destroy-graceful before after r code live rounds unseen seen =
      destroy-eq
      ∙ rw rounds (
          rw (wait-first_end (some 1000) w.now x.process before after r code live unseen seen) refl)

  after_wait-IsGone :
      (o : Outcome × ChildProcess)
      → IsValid x.process
      → Waited x.process o
      → o.0 ≢ blocked
      → Ends w.unwinding x.process
      → IsGone (after_wait w o)
  after_wait-IsGone (returned code, q) v waited h ends =
      rw waited (cleanup-idle w.unwinding (reaped code x.process) refl)
  after_wait-IsGone (thrown e, q) v waited h ends =
      rw waited (cleanup-IsGone w.unwinding x.process v ends)
  after_wait-IsGone (blocked, q) v waited h ends = absurd (h refl)

  -- In any case the destructor ends with the child process gone, by force if need be, where the wait
  -- reaches its deadline of one second and the system lets the cleanup end.
  pub destroy-IsGone :
      (before after : List Round) (r : Round)
      → IsValid x.process
      → w.rounds ≡ before ++ r ∷ after
      → w.now + 1000 ≤ r.now
      → Ends w.unwinding x.process
      → IsGone (destroy w x)
  unfolding wait_and_destroy
  destroy-IsGone before after r v rounds late ends =
      subst IsGone (sym destroy-eq) (go x.process.started refl)
    where
      go : (b : Bool) → x.process.started ≡ b → IsGone (wait_and_destroy w x.process)
      go true e =
          after_wait-IsGone (wait (some 1000) w.now w.rounds x.process) v
            (wait-Waited (some 1000) w.now w.rounds x.process (live-of-started x.process v e))
            (rw rounds (wait-ends 1000 w.now x.process before after r late)) ends
      go false e =
          rw (wait-idle (some 1000) w.now w.rounds x.process e)
            (cleanup-idle w.unwinding x.process e)
