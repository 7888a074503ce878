-- ===== src/External/Runtime.antt =====
-- The constructor and the destructor of class ExternalComponentProcess,
-- include/rpp_cpp/external_component_process.hpp. The worker of the call executor runs one task at a
-- time and gives its caller the task's result (Executor/Order), so a call is the task itself here.
-- What the server and the adapter clients answer is given to each call.
pub mod Built
pub mod Destroyed
use rpp_cpp.Base.{
  ℕ, Bool, true, false, String, List, [], ◌∷◌, Option, none, some, is_empty, if◌then◌else◌,
}
use rpp_cpp.Base.Result.{Result, ok, err, Error, runtime_error, invalid_argument}
use rpp_cpp.Connection.{Try, Connecting, stream, gave_up, trying, runtime_client_context}
use rpp_cpp.Process.{
  ChildProcess, Fork, Round, Outcome, blocked, Surroundings, Cleaned, hangs, child_process, start,
  wait, cleanup,
}

pub record ExternalComponentProcess (Client : Type 0) : Type 0 where
  pub process : ChildProcess
  pub executor_started : Bool
  pub runtime_client_context_ : Bool
  pub adapter_clients : List Client
  pub runtime_client : Bool

-- A kj::Exception, which the constructor translates, or another one.
pub data Thrown : Type 0 where
  kj_exception : String → Thrown
  other : Error → Thrown

-- What connect_adapter_client__ gives.
pub data Connected : Type 0 where
  agrees : Bool → Connected
  raises : Thrown → Connected

-- How the task of the constructor ends.
pub data Task : Type 0 where
  finished_task : Task
  thrown_task : Thrown → Task
  endless_task : Task

module _ {Client : Type 0} where
  -- The loop over the adapter clients.
  unfoldable pub connect_clients : (Client → Connected) → List Client → Task
  connect_clients connect_adapter_client [] = finished_task
  connect_clients connect_adapter_client (c ∷ clients) =
      let rest = connect_clients connect_adapter_client clients in
      elim (connect_adapter_client c) [
        | agrees true ↦ rest
        | agrees false ↦
            thrown_task
              (other (runtime_error "Failed to connect external component adapter client."))
        | raises e ↦ thrown_task e
      ]

  -- The task that the executor is given.
  unfoldable pub connect_runtime : Connecting → (Client → Connected) → List Client → Task
  unfolding connect_clients
  connect_runtime stream connect_adapter_client clients =
      connect_clients connect_adapter_client clients
  connect_runtime (gave_up e) connect_adapter_client clients = thrown_task (kj_exception e)
  connect_runtime trying connect_adapter_client clients = endless_task

-- The catch block around the call.
abbrev pub translated : Thrown → Error
translated (kj_exception e) = runtime_error "Timed out connecting to external component server."
translated (other e) = e

-- What the constructor meets, and what the destructors of the members meet when it throws.
pub record World (Client : Type 0) : Type 0 where
  pub fork : Fork
  pub startup_timeout : ℕ
  pub now : ℕ
  pub tries : List Try
  pub connect_adapter_client : Client → Connected
  pub unwinding : Surroundings

-- The object is there; the child process could not be made; the constructor has thrown, and the
-- member process_ was cleaned up; the constructor waits for ever.
pub data Construction (Client : Type 0) : Type 0 where
  built : ExternalComponentProcess Client → Construction Client
  refused : Error → Construction Client
  unwound : Error → Cleaned × ChildProcess → Construction Client
  waits : ChildProcess → Construction Client

module _ {Client : Type 0} where
  unfoldable pub after_task : World Client → List Client → ChildProcess → Task → Construction Client
  after_task w clients p finished_task = built (record {
    process = p;
    executor_started = true;
    runtime_client_context_ = true;
    adapter_clients = clients;
    runtime_client = true;
  })
  after_task w clients p (thrown_task e) = unwound (translated e) (cleanup w.unwinding p)
  after_task w clients p endless_task = waits p

  unfoldable pub after_start :
      World Client → List Client → Result (Unit {0}) × ChildProcess → Construction Client
  unfolding after_task connect_runtime
  after_start w clients (err e, p) = unwound e (cleanup w.unwinding p)
  after_start w clients (ok _, p) = after_task w clients p (
      connect_runtime (runtime_client_context w.startup_timeout w.now w.tries)
        w.connect_adapter_client clients)

  -- The body, once process_ is made.
  unfoldable pub start_runtime : World Client → List Client → ChildProcess → Construction Client
  unfolding after_start
  start_runtime w clients p =
      if is_empty clients
      then unwound (invalid_argument "External component runtime requires an adapter client.")
          (cleanup w.unwinding p)
      else after_start w clients (start w.fork p)

  -- ExternalComponentProcess(command, host, port, adapter_clients, startup_timeout)
  unfoldable pub external_component_process :
      World Client → List String → List Client → Construction Client
  unfolding start_runtime
  external_component_process w command clients = elim (child_process command) [
    | err e ↦ refused e
    | ok p ↦ start_runtime w clients p
  ]

-- What the server answers to the shutdown request.
pub data ShutdownAnswer : Type 0 where
  answered silent : ShutdownAnswer
  failed : String → ShutdownAnswer

-- What the destructor meets: the answer, the wait for the child, and the member's own destructor.
pub record Ending : Type 0 where
  pub shutdown_answer : ShutdownAnswer
  pub now : ℕ
  pub rounds : List Round
  pub unwinding : Surroundings

abbrev pub after_wait : Ending → Outcome × ChildProcess → Cleaned × ChildProcess
after_wait w (blocked, p) = (hangs, p)
after_wait w (_, p) = cleanup w.unwinding p

-- The second part of the destructor, and then that of process_.
unfoldable pub wait_and_destroy : Ending → ChildProcess → Cleaned × ChildProcess
wait_and_destroy w p = after_wait w (wait (some 1000) w.now w.rounds p)

-- Whether the call that releases the clients returns: shutdown waits for its answer.
abbrev pub returns : Bool → ShutdownAnswer → Bool
returns false _ = true
returns true silent = false
returns true _ = true

-- ~ExternalComponentProcess()
unfoldable pub destroy :
    {Client : Type 0} → Ending → ExternalComponentProcess Client → Cleaned × ChildProcess
unfolding wait_and_destroy
destroy w x =
    if x.executor_started
    then (if returns x.runtime_client w.shutdown_answer
        then wait_and_destroy w x.process
        else (hangs, x.process))
    else wait_and_destroy w x.process
