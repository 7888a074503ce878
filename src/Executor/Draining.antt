-- ===== src/Executor/Draining.antt =====
-- The worker finishes all that was accepted, and run returns once it is told to stop.
use rpp_cpp.Base.{
  ℕ, zero, suc, ◌+◌, ◌*◌, ◌≡◌, refl, ap, ◌∙◌, Bool, true, false, List, [], ◌∷◌, ◌++◌, Option, none,
  some, length, arith,
}
use rpp_cpp.Base.Result.{Result}
use mathlib.Core.List.{append_assoc, append-nil}
use rpp_cpp.Executor.{
  Executor, Worker, absent, idle, busy, returned, begin_stop, join, pick, finish,
}
use rpp_cpp.Executor.Steps.{Reachable}
use rpp_cpp.Executor.Order.{WorkerValid, Reachable-Valid, underway}

-- What the worker does next, if it can do anything.
unfoldable pub worker_step : {A B : Type 0} → (A → Result B) → Executor A B → Option (Executor A B)
unfolding pick finish
worker_step apply e = elim e.worker [ busy task ↦ finish apply e | idle ↦ pick e | _ ↦ none ]

-- The worker's next so many steps, undisturbed.
unfoldable pub work : {A B : Type 0} → (A → Result B) → ℕ → Executor A B → Executor A B
unfolding worker_step
work apply zero e = e
work apply (suc n) e = elim (worker_step apply e) [ some f ↦ work apply n f | none ↦ e ]

abbrev results : {A B : Type 0} → (A → Result B) → List A → List (A × Result B)
results apply [] = []
results apply (t ∷ tasks) = (t, apply t) ∷ results apply tasks

module _ {A B : Type 0} (apply : A → Result B) (started : Bool) (accepted : List A) where
  abbrev stopping_with : Worker A → List A → List (A × Result B) → Executor A B
  stopping_with w tasks completed = record {
    tasks = tasks;
    worker = w;
    started = started;
    stopping = true;
    accepted = accepted;
    completed = completed;
  }

  work-idle :
      (k : ℕ) (tasks : List A) (completed : List (A × Result B))
      → work apply (length tasks * 2 + suc k) (stopping_with idle tasks completed)
        ≡ stopping_with returned [] (completed ++ results apply tasks)
  unfolding work
  work-idle zero [] completed = rw (append-nil completed) refl
  work-idle (suc k) [] completed = rw (append-nil completed, no_more k) refl
    where
      no_more : (k : ℕ) → 0 + suc (suc k) ≡ suc (suc k)
      no_more k = omega arith
  work-idle k (t ∷ tasks) completed = rw (two_more (length tasks) k) (
      work-idle k tasks (completed ++ (t, apply t) ∷ [])
      ∙ ap (stopping_with returned [])
          (append_assoc completed ((t, apply t) ∷ []) (results apply tasks)))
    where
      two_more : (n k : ℕ) → suc n * 2 + suc k ≡ suc (suc (n * 2 + suc k))
      two_more n k = omega arith

  work-busy :
      (t : A) (tasks : List A) (completed : List (A × Result B))
      → work apply (length tasks * 2 + 2) (stopping_with (busy t) tasks completed)
        ≡ stopping_with returned [] ((completed ++ (t, apply t) ∷ []) ++ results apply tasks)
  unfolding work
  work-busy t tasks completed =
      rw (one_more (length tasks)) (work-idle 0 tasks (completed ++ (t, apply t) ∷ []))
    where
      one_more : (n : ℕ) → n * 2 + 2 ≡ suc (n * 2 + 1)
      one_more n = omega arith

abbrev pub drained : {A B : Type 0} → (A → Result B) → Executor A B → List (A × Result B)
drained apply e = e.completed ++ results apply (underway e.worker ++ e.tasks)

module _ {A B : Type 0} (apply : A → Result B) (stopping : Bool) (accepted : List A) where
  abbrev started_with : Worker A → Bool → List A → List (A × Result B) → Executor A B
  started_with w started tasks completed = record {
    tasks = tasks;
    worker = w;
    started = started;
    stopping = stopping;
    accepted = accepted;
    completed = completed;
  }

  drains :
      (w : Worker A) (started : Bool) (tasks : List A) (completed : List (A × Result B))
      → WorkerValid w started stopping tasks
      → started ≡ true
      → join
          (work apply (length tasks * 2 + 2) (begin_stop (started_with w started tasks completed)))
        ≡ some (record {
          tasks = [];
          worker = absent;
          started = false;
          stopping = true;
          accepted = accepted;
          completed = completed ++ results apply (underway w ++ tasks);
        })
  unfolding join begin_stop
  drains absent true tasks completed v s = ground (arith, v)
  drains idle true tasks completed v s = rw (work-idle apply true accepted 1 tasks completed) refl
  drains (busy t) true tasks completed v s =
      rw
        (
          work-busy apply true accepted t tasks completed,
          append_assoc completed ((t, apply t) ∷ []) (results apply tasks),
        )
        refl
  drains returned true tasks completed (u, p, q) s =
      unfold work in rw (q, append-nil completed) refl
  drains w false tasks completed v s = ground (arith, s)

-- A call of stop while the executor is started, in any state the threads can bring about: after two
-- steps for each queued task and two more, the worker alone has run every accepted task, run has
-- returned, and join lets stop return.
pub stop-drains :
    {A B : Type 0} (apply : A → Result B) (e : Executor A B)
    → Reachable apply e
    → e.started ≡ true
    → join (work apply (length e.tasks * 2 + 2) (begin_stop e))
      ≡ some (record e {
        tasks = [];
        worker = absent;
        started = false;
        stopping = true;
        completed = drained apply e;
      })
stop-drains apply e r s =
    drains apply e.stopping e.accepted e.worker e.started e.tasks e.completed
      (Reachable-Valid apply e r).worker_valid s
