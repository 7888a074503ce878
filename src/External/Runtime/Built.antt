-- ===== src/External/Runtime/Built.antt =====
-- What the constructor leaves behind, on every way out of it.
use rpp_cpp.Base.{◌≡◌, ◌≢◌, refl, true, false, String, List, [], ◌∷◌, All, arith}
use rpp_cpp.Base.Result.{Result, ok, err}
use rpp_cpp.Connection.{Connecting, stream, gave_up, trying, runtime_client_context}
use rpp_cpp.Process.{
  ChildProcess, Fork, Surroundings, forked, fork_failed, child_process, start, cleanup, is_live,
}
use rpp_cpp.Process.Invariant.{IsValid, start-IsValid, child_process-IsValid}
use rpp_cpp.Process.Cleanup.{Ends, IsGone, cleanup-IsGone}
use rpp_cpp.External.Runtime.{
  Connected, agrees, Task, finished_task, thrown_task, endless_task, connect_clients,
  connect_runtime, World, Construction, built, refused, unwound, waits, after_task, after_start,
  start_runtime, external_component_process,
}

start-live :
    (fork : Fork) (p : ChildProcess) → (start fork p).0 ≡ ok tt → is_live (start fork p).1 ≡ true
unfolding start is_live
start-live (forked pid) p e = ground (arith, e)
start-live (fork_failed reason) p e = ground (arith, e)

child_process-idle :
    (args : List String) (p : ChildProcess) → child_process args ≡ ok p → p.started ≡ false
unfolding child_process
child_process-idle [] p e = ground (arith, e)
child_process-idle (a ∷ args) p e = ground (arith, e)

pub cleanup-idle : (s : Surroundings) (p : ChildProcess) → p.started ≡ false → IsGone (cleanup s p)
unfolding cleanup
cleanup-idle s p idle = rw idle (refl, refl)

module _ {Client : Type 0} where
  -- What the constructor promises of each way that it ends.
  abbrev pub IsSafe : World Client → List Client → Construction Client → Type 0
  IsSafe w clients (built x) =
      (is_live x.process ≡ true)
      × (x.executor_started ≡ true)
      × (x.runtime_client ≡ true)
      × (x.adapter_clients ≡ clients)
      × All (λ c. w.connect_adapter_client c ≡ agrees true) clients
  IsSafe w clients (refused e) = Unit
  IsSafe w clients (unwound e r) = IsGone r
  IsSafe w clients (waits p) = runtime_client_context w.startup_timeout w.now w.tries ≡ trying

  connect_clients-All :
      (connect : Client → Connected) (clients : List Client)
      → connect_clients connect clients ≡ finished_task
      → All (λ c. connect c ≡ agrees true) clients
  unfolding connect_clients
  connect_clients-All connect [] e = tt
  connect_clients-All connect (c ∷ clients) e =
      (ground (arith, e), connect_clients-All connect clients (ground (arith, e)))

  connect_clients-ends :
      (connect : Client → Connected) (clients : List Client)
      → connect_clients connect clients ≢ endless_task
  unfolding connect_clients
  connect_clients-ends connect [] = ground arith
  connect_clients-ends connect (c ∷ clients) = ground (arith, connect_clients-ends connect clients)

  connect_runtime-finished :
      (c : Connecting) (connect : Client → Connected) (clients : List Client)
      → connect_runtime c connect clients ≡ finished_task
      → All (λ c. connect c ≡ agrees true) clients
  unfolding connect_runtime
  connect_runtime-finished stream connect clients e = connect_clients-All connect clients e
  connect_runtime-finished (gave_up m) connect clients e = absurd (cc e)
  connect_runtime-finished trying connect clients e = absurd (cc e)

  connect_runtime-endless :
      (c : Connecting) (connect : Client → Connected) (clients : List Client)
      → connect_runtime c connect clients ≡ endless_task
      → c ≡ trying
  unfolding connect_runtime
  connect_runtime-endless stream connect clients e = absurd (connect_clients-ends connect clients e)
  connect_runtime-endless (gave_up m) connect clients e = absurd (cc e)
  connect_runtime-endless trying connect clients e = refl

  after_task-IsSafe :
      (w : World Client) (clients : List Client) (p : ChildProcess) (t : Task)
      → is_live p ≡ true
      → IsGone (cleanup w.unwinding p)
      → connect_runtime
          (runtime_client_context w.startup_timeout w.now w.tries)
          w.connect_adapter_client
          clients
        ≡ t
      → IsSafe w clients (after_task w clients p t)
  unfolding after_task
  after_task-IsSafe w clients p finished_task live gone e =
      (live, refl, refl, refl, connect_runtime-finished _ w.connect_adapter_client clients e)
  after_task-IsSafe w clients p (thrown_task x) live gone e = gone
  after_task-IsSafe w clients p endless_task live gone e =
      connect_runtime-endless _ w.connect_adapter_client clients e

  after_start-IsSafe :
      (w : World Client) (clients : List Client) (r : Result (Unit {0}) × ChildProcess)
      → (r.0 ≡ ok tt → is_live r.1 ≡ true)
      → IsGone (cleanup w.unwinding r.1)
      → IsSafe w clients (after_start w clients r)
  unfolding after_start
  after_start-IsSafe w clients (err e, p) live gone = gone
  after_start-IsSafe w clients (ok u, p) live gone =
      after_task-IsSafe w clients p _ (live refl) gone refl

  start_runtime-IsSafe :
      (w : World Client) (clients : List Client) (p : ChildProcess)
      → p.started ≡ false
      → IsValid p
      → Ends w.unwinding (start w.fork p).1
      → IsSafe w clients (start_runtime w clients p)
  unfolding start_runtime
  start_runtime-IsSafe w [] p idle v ends = cleanup-idle w.unwinding p idle
  start_runtime-IsSafe w (c ∷ clients) p idle v ends =
      after_start-IsSafe w (c ∷ clients) (start w.fork p) (start-live w.fork p)
        (cleanup-IsGone w.unwinding (start w.fork p).1 (start-IsValid w.fork p v) ends)

  -- However the constructor ends: if it returns, the child process runs and every adapter client is
  -- connected; if it throws, because there is no client, the fork fails, the connection fails or a
  -- client fails, the child process has been cleaned up; and it waits for ever only if the attempts
  -- to connect do not end. It holds where the system lets the cleanup of the child end.
  pub external_component_process-IsSafe :
      (w : World Client) (command : List String) (clients : List Client)
      → ((p : ChildProcess) → child_process command ≡ ok p → Ends w.unwinding (start w.fork p).1)
      → IsSafe w clients (external_component_process w command clients)
  unfolding external_component_process
  external_component_process-IsSafe w command clients ends = go (child_process command) refl
    where
      go :
          (r : Result ChildProcess)
          → child_process command ≡ r
          → IsSafe w clients (elim r [ err e ↦ refused e | ok p ↦ start_runtime w clients p ])
      go (err x) e = tt
      go (ok p) e =
          start_runtime-IsSafe w clients p (child_process-idle command p e)
            (child_process-IsValid command p e) (ends p e)
