-- ===== src/Executor.antt =====
-- class ComponentCallExecutor of include/rpp_cpp/component_call_executor.hpp: calls from any thread
-- are run one by one on a worker thread. Each definition is what happens under the mutex at once; the
-- orders in which the threads take it are the steps of Executor/Steps. A task is the function that
-- call was given, and `apply` is what running it gives, a value or an exception.
pub mod Steps
pub mod Order
pub mod Draining
use rpp_cpp.Base.{
  ℕ, zero, suc, Bool, true, false, ◌&&◌, ◌||◌, not, List, [], ◌∷◌, ◌++◌, Option, none, some,
  is_empty, if◌then◌else◌,
}
use rpp_cpp.Base.Result.{Result, ok, err, runtime_error}

-- The worker thread: none; at the top of the loop in run; in a task; run has returned.
pub data Worker (A : Type 0) : Type 0 where
  absent : Worker A
  idle : Worker A
  busy : A → Worker A
  returned : Worker A

-- `accepted` and `completed` record what was enqueued and what has been run, with the value or the
-- exception that its promise was given; the source keeps neither.
pub record Executor (A B : Type 0) : Type 0 where
  pub tasks : List A
  pub worker : Worker A
  pub started : Bool
  pub stopping : Bool
  pub accepted : List A
  pub completed : List (A × Result B)

unfoldable pub new_executor : {A B : Type 0} → Executor A B
new_executor = record {
  tasks = [];
  worker = absent;
  started = false;
  stopping = false;
  accepted = [];
  completed = [];
}

unfoldable pub start : {A B : Type 0} → Executor A B → Executor A B
start e = if e.started then e else record e { stopping = false; worker = idle; started = true }

unfoldable pub enqueue : {A B : Type 0} → A → Executor A B → Result (Executor A B)
enqueue task e =
    if not e.started || e.stopping
    then err (runtime_error "Component call executor is not running.")
    else ok (record e { tasks = e.tasks ++ task ∷ []; accepted = e.accepted ++ task ∷ [] })

-- The thread that calls: the worker itself, from within a task, or another one.
pub data Caller : Type 0 where
  worker_thread : Caller
  other_thread : Caller

-- call, up to future.get(), which waits until the task is completed.
unfoldable pub call : {A B : Type 0} → Caller → A → Executor A B → Result (Executor A B)
unfolding enqueue
call worker_thread task e =
    err (runtime_error "Component call executor cannot block its own worker thread.")
call other_thread task e = enqueue task e

-- stop, up to thread_.join(): what it does under the mutex.
unfoldable pub begin_stop : {A B : Type 0} → Executor A B → Executor A B
begin_stop e = if e.started then record e { stopping = true } else e

-- The rest of stop, which join lets go on once run has returned.
unfoldable pub join : {A B : Type 0} → Executor A B → Option (Executor A B)
join e = elim e.worker [
  | returned ↦ if e.stopping then some (record e { worker = absent; started = false }) else none
  | _ ↦ none
]

abbrev pub take_task : {A B : Type 0} → Executor A B → List A → Option (Executor A B)
take_task e [] = if e.stopping then some (record e { worker = returned }) else none
take_task e (task ∷ tasks) = some (record e { tasks = tasks; worker = busy task })

-- One round of the loop in run, up to the task; `none` while it waits on the condition.
unfoldable pub pick : {A B : Type 0} → Executor A B → Option (Executor A B)
pick e = elim e.worker [ idle ↦ take_task e e.tasks | _ ↦ none ]

-- The task returns; its promise has its value, or the exception that was caught.
unfoldable pub finish : {A B : Type 0} → (A → Result B) → Executor A B → Option (Executor A B)
finish apply e = elim e.worker [
  | busy task ↦
      some (record e { worker = idle; completed = e.completed ++ (task, apply task) ∷ [] })
  | _ ↦ none
]
