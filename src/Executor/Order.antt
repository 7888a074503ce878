-- ===== src/Executor/Order.antt =====
-- Every accepted call is run exactly once, in the order of acceptance, and its caller gets the value
-- or the exception that the function ends with.
use rpp_cpp.Base.{◌≡◌, refl, ap, Bool, true, false, List, [], ◌∷◌, ◌++◌, none, some, All, arith}
use rpp_cpp.Base.Result.{Result, ok}
use mathlib.Core.List.{append_assoc, append-nil}
use rpp_cpp.Executor.{
  Executor, Worker, absent, idle, busy, returned, Caller, worker_thread, other_thread, new_executor,
  start, enqueue, call, begin_stop, join, pick, finish,
}
use rpp_cpp.Executor.Steps.{
  Step, starts, calls, stops, joins, picks, finishes, Reachable, at_first, after,
}

abbrev pub underway : {A : Type 0} → Worker A → List A
underway (busy task) = task ∷ []
underway _ = []

abbrev pub tasks_of : {A B : Type 0} → List (A × Result B) → List A
tasks_of [] = []
tasks_of ((task, result) ∷ completed) = task ∷ tasks_of completed

tasks_of-append :
    {A B : Type 0}
    → (xs ys : List (A × Result B)) → tasks_of (xs ++ ys) ≡ tasks_of xs ++ tasks_of ys
tasks_of-append [] ys = refl
tasks_of-append ((t, r) ∷ xs) ys = ap (λ zs. t ∷ zs) (tasks_of-append xs ys)

All-append :
    {A : Type 0} → (P : A → Type 0) (xs : List A) (y : A) → All P xs → P y → All P (xs ++ y ∷ [])
All-append P [] y a p = (p, tt)
All-append P (x ∷ xs) y (q, a) p = (q, All-append P xs y a p)

abbrev pub WorkerValid : {A : Type 0} → Worker A → Bool → Bool → List A → Type 0
WorkerValid absent started stopping tasks = (started ≡ false) × (tasks ≡ [])
WorkerValid idle started stopping tasks = started ≡ true
WorkerValid (busy task) started stopping tasks = started ≡ true
WorkerValid returned started stopping tasks = (started ≡ true) × (stopping ≡ true) × (tasks ≡ [])

-- What was accepted is what has been completed, the task underway and the queue, in this order; and
-- a completed task's promise holds what the task gave.
pub record Valid {A B : Type 0} (apply : A → Result B) (e : Executor A B) : Type 0 where
  pub in_order : e.accepted ≡ tasks_of e.completed ++ (underway e.worker ++ e.tasks)
  pub results : All (λ (r : A × Result B). r.1 ≡ apply r.0) e.completed
  pub worker_valid : WorkerValid e.worker e.started e.stopping e.tasks

module _ {A B : Type 0} (apply : A → Result B) where
  start-Valid : (e : Executor A B) → Valid apply e → Valid apply (start e)
  unfolding start
  start-Valid e v = ground (arith, v)

  begin_stop-Valid : (e : Executor A B) → Valid apply e → Valid apply (begin_stop e)
  unfolding begin_stop
  begin_stop-Valid e v = ground (arith, v)

  enqueue-Valid :
      (task : A) (e f : Executor A B) → Valid apply e → enqueue task e ≡ ok f → Valid apply f
  unfolding enqueue
  enqueue-Valid task e f v q = ground (
    arith,
    v,
    q,
    append_assoc (tasks_of e.completed) (underway e.worker ++ e.tasks) (task ∷ []),
    append_assoc (underway e.worker) e.tasks (task ∷ []),
  )

  join-Valid : (e f : Executor A B) → Valid apply e → join e ≡ some f → Valid apply f
  unfolding join
  join-Valid e f v q = ground (arith, v, q)

  pick-Valid : (e f : Executor A B) → Valid apply e → pick e ≡ some f → Valid apply f
  unfolding pick
  pick-Valid e f v q = ground (arith, v, q)

  busy-Valid :
      (task : A) (e : Executor A B)
      → Valid apply e
      → e.worker ≡ busy task
      → Valid apply (record e { worker = idle; completed = e.completed ++ (task, apply task) ∷ [] })
  busy-Valid task e v w = ground (
    arith,
    v,
    w,
    tasks_of-append e.completed ((task, apply task) ∷ []),
    append_assoc (tasks_of e.completed) (task ∷ []) e.tasks,
    All-append (λ (r : A × Result B). r.1 ≡ apply r.0) e.completed (task, apply task) v.results
        refl,
  )

  finish-Valid : (e f : Executor A B) → Valid apply e → finish apply e ≡ some f → Valid apply f
  unfolding finish
  finish-Valid e f v q = go e.worker refl q
    where
      go :
          (w : Worker A)
          → e.worker ≡ w
          → elim w [
            | busy task ↦
                some
                  (record e { worker = idle; completed = e.completed ++ (task, apply task) ∷ [] })
            | _ ↦ none
          ]
            ≡ some f
          → Valid apply f
      go (busy task) w q = ground (arith, q, busy-Valid task e v w)
      go absent w q = ground (arith, q)
      go idle w q = ground (arith, q)
      go returned w q = ground (arith, q)

  call-Valid :
      (c : Caller) (task : A) (e f : Executor A B)
      → Valid apply e
      → call c task e ≡ ok f
      → Valid apply f
  unfolding call
  call-Valid worker_thread task e f v q = ground (arith, q)
  call-Valid other_thread task e f v q = enqueue-Valid task e f v q

  Step-Valid : (e f : Executor A B) → Valid apply e → Step apply e f → Valid apply f
  Step-Valid e f v starts = start-Valid e v
  Step-Valid e f v (calls c task q) = call-Valid c task e f v q
  Step-Valid e f v stops = begin_stop-Valid e v
  Step-Valid e f v (joins q) = join-Valid e f v q
  Step-Valid e f v (picks q) = pick-Valid e f v q
  Step-Valid e f v (finishes q) = finish-Valid e f v q

  -- In every state that the threads can bring about, what was accepted is what has been completed,
  -- then the task underway, then the queue, in this order; each completed call's promise holds what its
  -- function gave; and the worker is running or returned exactly while started_.
  pub Reachable-Valid : (e : Executor A B) → Reachable apply e → Valid apply e
  unfolding new_executor
  Reachable-Valid e at_first = record { in_order = refl; results = tt; worker_valid = (refl, refl) }
  Reachable-Valid f (after {e = e} r s) = Step-Valid e f (Reachable-Valid e r) s

  -- Once stop has returned, every accepted call has been completed: none is lost or left waiting.
  pub join-completes :
      (e f : Executor A B)
      → Reachable apply e
      → join e ≡ some f
      → (tasks_of f.completed ≡ f.accepted) × (f.started ≡ false) × (f.tasks ≡ [])
  unfolding join
  join-completes e f r q = ground (arith, q, Reachable-Valid e r, append-nil (tasks_of e.completed))
