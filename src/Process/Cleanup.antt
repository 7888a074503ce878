-- ===== src/Process/Cleanup.antt =====
-- What cleanup, and with it the destructor, leaves behind.
use rpp_cpp.Base.{
  ℕ, ◌+◌, ◌≤◌, ◌≡◌, ◌≢◌, refl, ◌⊎◌, inl, inr, Bool, true, false, List, [], ◌∷◌, ◌++◌, Option, none,
  some, arith, if◌then◌else◌,
}
use rpp_cpp.Base.Result.{Result, ok, err}
use rpp_cpp.Base.Int.{ℤ}
use mathlib.Core.Option
use rpp_cpp.Process.{
  ChildProcess, Kill, delivered, no_such_process, Round, Outcome, returned, thrown, blocked,
  wait_loop, wait, terminate, kill, reaped, is_live, Surroundings, Cleaned, finished, force,
  first_wait, cleanup,
}
use rpp_cpp.Process.Invariant.{IsValid}
use rpp_cpp.Process.Waiting.{AllUndecided, code_of, wait-first_end, wait-ends}

-- What a wait has done: it reaped the child, or it left the object as it was.
abbrev pub Waited : ChildProcess → Outcome × ChildProcess → Type 0
Waited p (returned code, q) = q ≡ reaped code p
Waited p (thrown e, q) = q ≡ p
Waited p (blocked, q) = q ≡ p

wait_loop-Waited :
    (deadline : Option ℕ) (p : ChildProcess) (rounds : List Round)
    → Waited p (wait_loop deadline p rounds)
unfolding wait_loop
wait_loop-Waited deadline p [] = refl
wait_loop-Waited deadline p (r ∷ rounds) = ground (arith, wait_loop-Waited deadline p rounds)

pub wait-Waited :
    (timeout : Option ℕ) (now : ℕ) (rounds : List Round) (p : ChildProcess)
    → is_live p ≡ true
    → Waited p (wait timeout now rounds p)
unfolding wait
wait-Waited timeout now rounds p live =
    rw live (wait_loop-Waited (Option.map (λ t. now + t) timeout) p rounds)

-- The system lets the cleanup of p end: the first wait sees a round at or after its deadline of two
-- seconds, kill succeeds, and the child's end shows in some round after it.
pub record Ends (s : Surroundings) (p : ChildProcess) : Type 0 where
  pub before : List Round
  pub after : List Round
  pub early : List Round
  pub late : List Round
  pub first : Round
  pub last : Round
  pub code : ℤ
  pub first_rounds : s.rounds ≡ before ++ first ∷ after
  pub in_time : s.now + 2000 ≤ first.now
  pub killed : (s.on_kill ≡ delivered) ⊎ (s.on_kill ≡ no_such_process)
  pub last_rounds : s.last_rounds ≡ early ++ last ∷ late
  pub unseen : AllUndecided none early
  pub seen : code_of p last.answer ≡ some code

abbrev pub IsGone : Cleaned × ChildProcess → Type 0
IsGone r = (r.0 ≡ finished) × (r.1.started ≡ false)

kill-passes :
    (k : Kill) (p : ChildProcess) → (k ≡ delivered) ⊎ (k ≡ no_such_process) → kill k p ≡ ok tt
unfolding kill
kill-passes k p (inl e) = ground (arith, e)
kill-passes k p (inr e) = ground (arith, e)

force-IsGone :
    (s : Surroundings) (p : ChildProcess) → is_live p ≡ true → Ends s p → IsGone (force s p)
unfolding force
force-IsGone s p live h =
    rw (force, kill-passes s.on_kill p h.killed)
      (rw h.last_rounds (
        rw (wait-first_end none s.last_now p h.early h.late h.last h.code live h.unseen h.seen)
          (refl, refl)))

first_wait-IsGone :
    (s : Surroundings) (p : ChildProcess) (r : Outcome × ChildProcess)
    → is_live p ≡ true
    → Ends s p
    → r.0 ≢ blocked
    → Waited p r
    → IsGone (first_wait s r)
unfolding first_wait
first_wait-IsGone s p (returned code, q) live h ends w = rw w (refl, refl)
first_wait-IsGone s p (thrown e, q) live h ends w = rw w (force-IsGone s p live h)
first_wait-IsGone s p (blocked, q) live h ends w = absurd (ends refl)

terminated-IsGone :
    (s : Surroundings) (p : ChildProcess) (t : Result (Unit {0}))
    → is_live p ≡ true
    → Ends s p
    → IsGone
        (elim t [ err e ↦ force s p | ok _ ↦ first_wait s (wait (some 2000) s.now s.rounds p) ])
terminated-IsGone s p (err e) live h = force-IsGone s p live h
terminated-IsGone s p (ok u) live h =
    first_wait-IsGone s p (wait (some 2000) s.now s.rounds p) live h
      (rw h.first_rounds (wait-ends 2000 s.now p h.before h.after h.first h.in_time))
      (wait-Waited (some 2000) s.now s.rounds p live)

pub live-of-started : (p : ChildProcess) → IsValid p → p.started ≡ true → is_live p ≡ true
unfolding is_live
live-of-started p v e = ground (arith, v, e)

-- cleanup of a valid object never throws and never hangs, and the process is no longer started
-- afterwards, whatever terminate answers and whether or not the first wait times out or fails: for
-- that the first wait must reach its deadline, kill must succeed, and the child must end after it.
pub cleanup-IsGone :
    (s : Surroundings) (p : ChildProcess) → IsValid p → Ends s p → IsGone (cleanup s p)
unfolding cleanup
cleanup-IsGone s p v h = started-IsGone p.started refl
  where
    started-IsGone :
        (b : Bool)
        → p.started ≡ b
        → IsGone (
            if b
            then elim (terminate s.on_terminate p) [
              | err e ↦ force s p
              | ok _ ↦ first_wait s (wait (some 2000) s.now s.rounds p)
            ]
            else (finished, p))
    started-IsGone true e =
        terminated-IsGone s p (terminate s.on_terminate p) (live-of-started p v e) h
    started-IsGone false e = (refl, e)
