-- ===== src/Network.antt =====
-- include/rpp_cpp/network_utils.hpp: a free port, asked of the system by a socket that is bound to
-- port 0; what the calls on the socket answer is given.
use rpp_cpp.Base.{
  ℕ, ◌%◌, ◌^◌, ◌<◌, ◌≡◌, Bool, List, [], ◌∷◌, Option, none, some, if◌then◌else◌, arith,
}
use rpp_cpp.Base.Result.{Result, ok, err, runtime_error}

-- The calls: `none` where socket or getsockname fails, false where bind fails.
pub record Sockets : Type 0 where
  pub socket : Option ℕ
  pub bind : ℕ → Bool
  -- sin_port, in the order of the network
  pub getsockname : ℕ → Option ℕ
  pub ntohs : ℕ → ℕ

pub data SocketEvent : Type 0 where
  opened closed : ℕ → SocketEvent

module _ (s : Sockets) where
  unfoldable pub inspect_socket : ℕ → Result ℕ
  inspect_socket handle = elim (s.getsockname handle) [
    | none ↦ err (runtime_error "Unable to inspect port discovery socket.")
    | some port ↦ ok (s.ntohs port % 2 ^ 16)
  ]

  unfoldable pub get_available_port : List SocketEvent × Result ℕ
  unfolding inspect_socket
  get_available_port = elim s.socket [
    | none ↦ ([], err (runtime_error "Unable to create port discovery socket."))
    | some handle ↦
        if s.bind handle then (opened handle ∷ closed handle ∷ [], inspect_socket handle) else (
          opened handle ∷ closed handle ∷ [],
          err (runtime_error "Unable to bind port discovery socket."),
        )
  ]

  -- The port that is found fits sixteen bits.
  pub get_available_port-fits : (port : ℕ) → get_available_port.1 ≡ ok port → port < 65536
  unfolding get_available_port inspect_socket
  get_available_port-fits port e = ground (arith, e)
