-- ===== src/Connection/Attempts.antt =====
-- Which attempt ends the loop that connects, and that it ends.
use rpp_cpp.Base.{
  ℕ, ◌+◌, ◌≤◌, ◌<◌, ◌≡◌, ◌≢◌, ◌⊎◌, inl, inr, refl, ◌∙◌, List, [], ◌∷◌, ◌++◌, All, arith,
}
use rpp_cpp.Connection.{
  Attempt, connected, refused, Try, Connecting, stream, gave_up, trying, connect,
  runtime_client_context,
}

abbrev pub IsRefused : Attempt → Type 0
IsRefused connected = ⊥
IsRefused (refused e) = Unit

-- An attempt that fails before the deadline.
abbrev pub IsEarly : ℕ → Try → Type 0
IsEarly deadline t = IsRefused t.attempt × (t.now < deadline)

-- How an attempt ends the loop, if it does.
abbrev pub ended_by : Attempt → Connecting
ended_by connected = stream
ended_by (refused e) = gave_up e

connect-early :
    (deadline : ℕ) (before after : List Try)
    → All (IsEarly deadline) before
    → connect deadline (before ++ after) ≡ connect deadline after
unfolding connect
connect-early deadline [] after early = refl
connect-early deadline (t ∷ before) after ((r, e), early) =
    ground (arith, connect-early deadline before after early)

-- An attempt that succeeds, or whose test finds that the deadline has passed.
abbrev pub Decides : ℕ → Try → Type 0
Decides deadline t = (t.attempt ≡ connected) ⊎ (deadline ≤ t.now)

connect-decided :
    (deadline : ℕ) (t : Try) (after : List Try)
    → Decides deadline t
    → connect deadline (t ∷ after) ≡ ended_by t.attempt
unfolding connect
connect-decided deadline t after (inl e) = ground (arith, e)
connect-decided deadline t after (inr late) = ground arith

-- After attempts that fail before the deadline, the first other one decides: one that succeeds gives
-- the stream even when it is late, and one that fails at or after the deadline is the exception that
-- the caller sees.
pub runtime_client_context-decided :
    (timeout now : ℕ) (before after : List Try) (t : Try)
    → All (IsEarly (now + timeout)) before
    → Decides (now + timeout) t
    → runtime_client_context timeout now (before ++ t ∷ after) ≡ ended_by t.attempt
unfolding runtime_client_context
runtime_client_context-decided timeout now before after t early d =
    connect-early (now + timeout) before (t ∷ after) early
    ∙ connect-decided (now + timeout) t after d

-- The loop has ended by the first attempt whose test finds the deadline passed, whatever the attempts
-- before it did.
pub runtime_client_context-ends :
    (timeout now : ℕ) (before after : List Try) (t : Try)
    → now + timeout ≤ t.now
    → runtime_client_context timeout now (before ++ t ∷ after) ≢ trying
unfolding runtime_client_context connect
runtime_client_context-ends timeout now [] after t late = ground arith
runtime_client_context-ends timeout now (s ∷ before) after t late =
    ground (arith, runtime_client_context-ends timeout now before after t late)
