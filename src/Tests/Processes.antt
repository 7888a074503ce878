-- ===== src/Tests/Processes.antt =====
-- Child processes and the call executor.
use rpp_cpp.Base.{
  ℕ, zero, suc, ◌+◌, ◌*◌, ◌≡◌, refl, inl, true, false, List, [], ◌∷◌, ◌++◌, length, none, some,
  arith,
}
use rpp_cpp.Base.Result.{Result, ok, err, runtime_error}
use rpp_cpp.Base.Int.{pos, negsuc}
use rpp_cpp.Process.{
  ChildProcess, child_process, forked, exited, still_running, interrupted, delivered, Round,
  returned, start, running, wait, reaped, Surroundings, cleanup, is_live,
}
use rpp_cpp.Process.Waiting.{wait-first_end}
use rpp_cpp.Process.Invariant.{
  IsValid, Call, starting, asking, waiting, run, calls-IsValid, wait-settled,
}
use rpp_cpp.Process.Cleanup.{Ends, IsGone, cleanup-IsGone}
use rpp_cpp.Process.Quoting.{command_line}
use rpp_cpp.Process.Quoting.Rules.{arguments_of}
use rpp_cpp.Process.Quoting.Parsed.{arguments_of-command_line}
use rpp_cpp.Executor.{
  Executor, absent, idle, busy, returned as gone, other_thread, new_executor, call, enqueue,
  begin_stop, join, pick, finish, start as start_worker,
}
use rpp_cpp.Executor.Steps.{Step, starts, calls, stops, picks, finishes, Reachable, at_first, after}
use rpp_cpp.Executor.Order.{Valid, tasks_of, Reachable-Valid, join-completes}
use rpp_cpp.Executor.Draining.{work, drained, stop-drains}

abbrev sleeper : ChildProcess
sleeper = record { pid = some 41; args = "sleep" ∷ []; exit_code = negsuc 0; started = true }

abbrev quiet : Round
quiet = record { answer = still_running; now = 5 }

abbrev late : Round
late = record { answer = interrupted; now = 3000 }

abbrev over : Round
over = record { answer = exited 7; now = 3001 }

sleeper_live : is_live sleeper ≡ true
sleeper_live = unfold is_live in refl

wait-first_end_example :
    wait (some 100) 0 ((quiet ∷ []) ++ over ∷ []) sleeper
    ≡ (returned (pos 7), reaped (pos 7) sleeper)
wait-first_end_example =
    wait-first_end (some 100) 0 sleeper (quiet ∷ []) [] over (pos 7) sleeper_live
      ((inl refl, refl), tt) refl

abbrev new_sleeper : ChildProcess
new_sleeper = record { pid = none; args = "sleep" ∷ []; exit_code = negsuc 0; started = false }

abbrev three_calls : List Call
three_calls = starting (forked 41) ∷ asking still_running ∷ waiting (some 100) 0 (late ∷ []) ∷ []

calls-IsValid_example : IsValid (run three_calls new_sleeper)
calls-IsValid_example = calls-IsValid ("sleep" ∷ []) new_sleeper three_calls made
  where
    made : child_process ("sleep" ∷ []) ≡ ok new_sleeper
    made = unfold child_process in refl

wait-settled_example :
    (wait none 9 (quiet ∷ []) (reaped (pos 7) sleeper) ≡ (returned (pos 7), reaped (pos 7) sleeper))
    × (running still_running (reaped (pos 7) sleeper) ≡ (reaped (pos 7) sleeper, false))
    × (start (forked 50) (reaped (pos 7) sleeper)
        ≡ (ok tt, record sleeper { pid = some 50; started = true; exit_code = pos 7 }))
wait-settled_example =
    wait-settled (some 100) none 0 9 (over ∷ []) (quiet ∷ []) sleeper (reaped (pos 7) sleeper)
      (pos 7) 50 sleeper_live
      (wait-first_end (some 100) 0 sleeper [] [] over (pos 7) sleeper_live tt refl)

abbrev stubborn : Surroundings
stubborn = record {
  now = 0;
  on_terminate = delivered;
  rounds = quiet ∷ late ∷ [];
  on_kill = delivered;
  last_now = 3000;
  last_rounds = over ∷ [];
}

stubborn-Ends : Ends stubborn sleeper
stubborn-Ends = record {
  before = quiet ∷ [];
  after = [];
  early = [];
  late = [];
  first = late;
  last = over;
  code = pos 7;
  first_rounds = refl;
  in_time = omega arith;
  killed = inl refl;
  last_rounds = refl;
  unseen = tt;
  seen = refl;
}

cleanup-IsGone_example : IsGone (cleanup stubborn sleeper)
cleanup-IsGone_example = cleanup-IsGone stubborn sleeper refl stubborn-Ends

-- The arguments a\ and b"c and the empty one.
abbrev awkward : List (List ℕ)
awkward = (97 ∷ 92 ∷ []) ∷ (98 ∷ 34 ∷ 32 ∷ 99 ∷ []) ∷ [] ∷ []

arguments_of-command_line_example : arguments_of (command_line awkward) ≡ awkward
arguments_of-command_line_example = arguments_of-command_line awkward

-- A task is a number; an odd one throws.
abbrev halve : ℕ → Result ℕ
halve zero = ok 0
halve (suc zero) = err (runtime_error "odd")
halve (suc (suc n)) = halve n

abbrev waiting_worker : Executor ℕ ℕ
waiting_worker = record {
  tasks = [];
  worker = idle;
  started = true;
  stopping = false;
  accepted = [];
  completed = [];
}

abbrev two_queued : Executor ℕ ℕ
two_queued = record {
  tasks = 4 ∷ 7 ∷ [];
  worker = idle;
  started = true;
  stopping = false;
  accepted = 4 ∷ 7 ∷ [];
  completed = [];
}

two_queued-Reachable : Reachable halve two_queued
two_queued-Reachable =
    after (after (after at_first started) (calls other_thread 4 first))
      (calls other_thread 7 second)
  where
    started : Step halve new_executor waiting_worker
    started = unfold new_executor start_worker in starts

    first :
        call other_thread 4 waiting_worker
        ≡ ok (record waiting_worker { tasks = 4 ∷ []; accepted = 4 ∷ [] })
    first = unfold call enqueue in refl

    second :
        call other_thread 7 (record waiting_worker { tasks = 4 ∷ []; accepted = 4 ∷ [] })
        ≡ ok two_queued
    second = unfold call enqueue in refl

Reachable-Valid_example : Valid halve two_queued
Reachable-Valid_example = Reachable-Valid halve two_queued two_queued-Reachable

stop-drains_example :
    join (work halve (length two_queued.tasks * 2 + 2) (begin_stop two_queued))
    ≡ some (record two_queued {
      tasks = [];
      worker = absent;
      started = false;
      stopping = true;
      completed = drained halve two_queued;
    })
stop-drains_example = stop-drains halve two_queued two_queued-Reachable refl

abbrev one_queued : Executor ℕ ℕ
one_queued = record waiting_worker { tasks = 4 ∷ []; accepted = 4 ∷ [] }

abbrev told_to_stop : Executor ℕ ℕ
told_to_stop = record one_queued { stopping = true }

abbrev in_task : Executor ℕ ℕ
in_task = record told_to_stop { tasks = []; worker = busy 4 }

abbrev all_done : Executor ℕ ℕ
all_done = record in_task { worker = idle; completed = (4, ok 0) ∷ [] }

abbrev at_end : Executor ℕ ℕ
at_end = record all_done { worker = gone }

at_end-Reachable : Reachable halve at_end
at_end-Reachable =
    after
      (after
        (after (after (after (after at_first started) (calls other_thread 4 accepted)) stopped)
          (picks picked))
        (finishes done))
      (picks returns)
  where
    started : Step halve new_executor waiting_worker
    started = unfold new_executor start_worker in starts

    accepted : call other_thread 4 waiting_worker ≡ ok one_queued
    accepted = unfold call enqueue in refl

    stopped : Step halve one_queued told_to_stop
    stopped = unfold begin_stop in stops

    picked : pick told_to_stop ≡ some in_task
    picked = unfold pick in refl

    done : finish halve in_task ≡ some all_done
    done = unfold finish in refl

    returns : pick all_done ≡ some at_end
    returns = unfold pick in refl

abbrev joined : Executor ℕ ℕ
joined = record at_end { worker = absent; started = false }

join-completes_example :
    (tasks_of joined.completed ≡ joined.accepted) × (joined.started ≡ false) × (joined.tasks ≡ [])
join-completes_example = join-completes halve at_end joined at_end-Reachable ended
  where
    ended : join at_end ≡ some joined
    ended = unfold join in refl
