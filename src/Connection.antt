-- ===== src/Connection.antt =====
-- class RppRuntimeClientContext of include/rpp_cpp/adapter_bases.hpp: the loop that connects to a
-- server. What each attempt meets, and when, is given as a list; the RPC system that is set up on the
-- stream is not modelled.
pub mod Attempts
use rpp_cpp.Base.{ℕ, ◌+◌, String, List, [], ◌∷◌, leb, if◌then◌else◌}

-- parseAddress and connect give a stream, or throw a kj::Exception.
pub data Attempt : Type 0 where
  connected : Attempt
  refused : String → Attempt

-- One round of the loop: the attempt, and the time of the deadline's test after it.
pub record Try : Type 0 where
  pub attempt : Attempt
  pub now : ℕ

-- The stream is there; the last exception was let through; the rounds granted are used up.
pub data Connecting : Type 0 where
  stream : Connecting
  gave_up : String → Connecting
  trying : Connecting

unfoldable pub connect : ℕ → List Try → Connecting
connect deadline [] = trying
connect deadline (t ∷ tries) =
    let rest = connect deadline tries in
    elim t.attempt [
      | connected ↦ stream
      | refused e ↦ if leb deadline t.now then gave_up e else rest
    ]

-- RppRuntimeClientContext(host, port, timeout), begun at the time `now`.
unfoldable pub runtime_client_context : ℕ → ℕ → List Try → Connecting
unfolding connect
runtime_client_context timeout now tries = connect (now + timeout) tries
