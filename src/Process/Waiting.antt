-- ===== src/Process/Waiting.antt =====
-- What wait returns, and when.
use rpp_cpp.Base.{
  ℕ, ◌+◌, ◌≤◌, ◌≡◌, ◌≢◌, refl, ◌⊎◌, inl, inr, true, false, Option, none, some, List, [], ◌∷◌, ◌++◌,
  leb, Bool-cases, arith,
}
use rpp_cpp.Base.Int.{ℤ, pos}
use mathlib.Core.Option
use rpp_cpp.Process.{
  ChildProcess, Wait, exited, signaled, changed, still_running, interrupted, Round, returned,
  blocked, expired, wait_loop, wait, is_live, reaped,
}

-- A round that leaves the loop running: the child is there, and the deadline has not come.
abbrev pub Undecided : Option ℕ → Round → Type 0
Undecided deadline r =
    ((r.answer ≡ still_running) ⊎ (r.answer ≡ interrupted)) × (expired deadline r.now ≡ false)

abbrev pub AllUndecided : Option ℕ → List Round → Type 0
AllUndecided deadline [] = Unit
AllUndecided deadline (r ∷ rounds) = Undecided deadline r × AllUndecided deadline rounds

-- The exit code that an answer of waitpid stands for.
abbrev pub code_of : ChildProcess → Wait → Option ℤ
code_of p (exited status) = some (pos status)
code_of p (signaled signal) = some (pos (128 + signal))
code_of p changed = some p.exit_code
code_of p _ = none

wait_loop-undecided :
    (deadline : Option ℕ) (p : ChildProcess) (before after : List Round)
    → AllUndecided deadline before
    → wait_loop deadline p (before ++ after) ≡ wait_loop deadline p after
unfolding wait_loop
wait_loop-undecided deadline p [] after u = refl
wait_loop-undecided deadline p (r ∷ before) after ((a, e), u) =
    ground (arith, wait_loop-undecided deadline p before after u)

-- The first round that reports the child's end decides: wait returns that code, even if the deadline
-- has passed by then, and the process is no longer started.
pub wait-first_end :
    (timeout : Option ℕ) (now : ℕ) (p : ChildProcess) (before after : List Round) (r : Round)
    (code : ℤ)
    → is_live p ≡ true
    → AllUndecided (Option.map (λ t. now + t) timeout) before
    → code_of p r.answer ≡ some code
    → wait timeout now (before ++ r ∷ after) p ≡ (returned code, reaped code p)
unfolding wait
wait-first_end timeout now p before after r code live u e =
    rw (live, wait_loop-undecided _ p before (r ∷ after) u) (ground arith)

late-expired : (timeout now t : ℕ) → now + timeout ≤ t → leb (now + timeout) t ≡ true
late-expired timeout now t le = ground (arith, le)

wait_loop-ends :
    (deadline : ℕ) (p : ChildProcess) (before after : List Round) (r : Round)
    → leb deadline r.now ≡ true
    → (wait_loop (some deadline) p (before ++ r ∷ after)).0 ≢ blocked
unfolding wait_loop
wait_loop-ends deadline p [] after r late = ground (arith, late)
wait_loop-ends deadline p (q ∷ before) after r late =
    ground (arith, wait_loop-ends deadline p before after r late)

-- With a timeout, a round at or after the deadline ends the wait in any case.
pub wait-ends :
    (timeout now : ℕ) (p : ChildProcess) (before after : List Round) (r : Round)
    → now + timeout ≤ r.now
    → (wait (some timeout) now (before ++ r ∷ after) p).0 ≢ blocked
unfolding wait
wait-ends timeout now p before after r late =
    let l = wait_loop-ends (now + timeout) p before after r (late-expired timeout now r.now late) in
    elim (Bool-cases (is_live p)) [ inl e ↦ rw e l | inr e ↦ rw e (ground arith) ]
