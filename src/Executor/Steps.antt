-- ===== src/Executor/Steps.antt =====
-- The steps of the threads that share an executor, in any order, and what they keep.
use rpp_cpp.Base.{◌≡◌, some}
use rpp_cpp.Base.Result.{Result, ok}
use rpp_cpp.Executor.{Executor, Caller, new_executor, start, call, begin_stop, join, pick, finish}

module _ {A B : Type 0} (apply : A → Result B) where
  pub data Step : Executor A B → Executor A B → Type 0 where
    starts : {e : Executor A B} → Step e (start e)
    calls : {e f : Executor A B} (c : Caller) (task : A) → call c task e ≡ ok f → Step e f
    stops : {e : Executor A B} → Step e (begin_stop e)
    joins : {e f : Executor A B} → join e ≡ some f → Step e f
    picks : {e f : Executor A B} → pick e ≡ some f → Step e f
    finishes : {e f : Executor A B} → finish apply e ≡ some f → Step e f

  -- The states that the threads can bring about.
  pub data Reachable : Executor A B → Type 0 where
    at_first : Reachable new_executor
    after : {e f : Executor A B} → Reachable e → Step e f → Reachable f
