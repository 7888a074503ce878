-- ===== src/Tests/Runtime.antt =====
-- Libraries that are loaded, servers that are started and stopped, and attempts to connect.
use rpp_cpp.Base.{ℕ, ◌≡◌, ◌≢◌, refl, inl, inr, true, false, [], ◌∷◌, ◌++◌, some, arith, nat_eq}
use rpp_cpp.Base.Result.{ok}
use rpp_cpp.Base.Int.{pos, negsuc}
use rpp_cpp.Data.Plugin.{PluginInfo}
use rpp_cpp.Connection.{Try, connected, refused, gave_up, trying, runtime_client_context}
use rpp_cpp.Connection.Attempts.{runtime_client_context-decided, runtime_client_context-ends}
use rpp_cpp.Loader.{
  Linker, handle, factory, load_cpp_plugin_description, load_cpp_plugin_from_shared_library,
  load_plugin_adapter_client, load_plugin_adapter_server,
}
use rpp_cpp.Loader.Handles.{IsBalanced, loading-restores}
use rpp_cpp.Process.{
  ChildProcess, Round, still_running, exited, forked, delivered, is_live, Surroundings, finished,
  start, reaped,
}
use rpp_cpp.Process.Cleanup.{Ends, IsGone}
use rpp_cpp.External.Runtime.{
  ExternalComponentProcess, World, agrees, external_component_process, Ending, answered, destroy,
}
use rpp_cpp.External.Runtime.Built.{IsSafe, external_component_process-IsSafe}
use rpp_cpp.External.Runtime.Destroyed.{destroy-graceful, destroy-IsGone}
use rpp_cpp.Tests.Building.{plugin_written}

-- Every library opens under the handle 3; the factory of clients returns a null pointer.
abbrev linker : Linker ℕ
linker = record { dlopen = λ path. handle 3; dlsym = λ h name. factory (ok (some 8)) }

abbrev info : PluginInfo
info = plugin_written "Arm" "Cpp"

-- The client refuses its configuration, the server agrees.
loading-restores_example :
    IsBalanced (7 ∷ []) 0 (load_cpp_plugin_description "/h" linker info "create")
    × IsBalanced (7 ∷ []) 1 (load_cpp_plugin_from_shared_library "/h" linker info "create")
    × IsBalanced
        (7 ∷ [])
        1
        (load_plugin_adapter_client "/h" linker (λ o p. ok (false, o)) info "" "" "create")
    × IsBalanced
        (7 ∷ [])
        1
        (load_plugin_adapter_server "/h" linker (λ o p. ok (true, o)) info tt "" "" "create")
loading-restores_example =
    loading-restores "/h" linker (λ o p. ok (false, o)) (λ o p. ok (true, o)) tt info "" "" "create"
      (7 ∷ []) (λ h name e q. cc q)

abbrev early : Try
early = record { attempt = refused "no server"; now = 10 }

-- The deadline is 100.
abbrev late : Try
late = record { attempt = refused "still none"; now = 120 }

runtime_client_context-decided_example :
    runtime_client_context 95 5 ((early ∷ []) ++ late ∷ []) ≡ gave_up "still none"
runtime_client_context-decided_example =
    runtime_client_context-decided 95 5 (early ∷ []) [] late ((tt, omega arith), tt)
      (inr (omega arith))

runtime_client_context-ends_example :
    runtime_client_context 95 5 ((early ∷ []) ++ late ∷ []) ≢ trying
runtime_client_context-ends_example =
    runtime_client_context-ends 95 5 (early ∷ []) [] late (omega arith)

abbrev started : ChildProcess
started = record { pid = some 4; args = "server" ∷ []; exit_code = negsuc 0; started = true }

abbrev round : ℕ → Round
round n = record { answer = still_running; now = n }

abbrev over : Round
over = record { answer = exited 0; now = 6000 }

-- The child ends only once it is killed.
abbrev pub stubborn : Surroundings
stubborn = record {
  now = 2000;
  on_terminate = delivered;
  rounds = round 4000 ∷ [];
  on_kill = delivered;
  last_now = 5000;
  last_rounds = over ∷ [];
}

pub stubborn-Ends : (p : ChildProcess) → Ends stubborn p
stubborn-Ends p = record {
  before = [];
  after = [];
  early = [];
  late = [];
  first = round 4000;
  last = over;
  code = pos 0;
  first_rounds = refl;
  in_time = omega arith;
  killed = inl refl;
  last_rounds = refl;
  unseen = tt;
  seen = refl;
}

-- The second of two clients does not connect.
abbrev world : World ℕ
world = record {
  fork = forked 4;
  startup_timeout = 100;
  now = 0;
  tries = early ∷ record { attempt = connected; now = 20 } ∷ [];
  connect_adapter_client = λ c. agrees (nat_eq c 1);
  unwinding = stubborn;
}

external_component_process-IsSafe_example :
    IsSafe world (1 ∷ 2 ∷ []) (external_component_process world ("server" ∷ []) (1 ∷ 2 ∷ []))
external_component_process-IsSafe_example =
    external_component_process-IsSafe world ("server" ∷ []) (1 ∷ 2 ∷ [])
      (λ p e. stubborn-Ends (start (forked 4) p).1)

abbrev runtime : ExternalComponentProcess ℕ
runtime = record {
  process = started;
  executor_started = true;
  runtime_client_context_ = true;
  adapter_clients = 1 ∷ [];
  runtime_client = true;
}

abbrev prompt : Ending
prompt = record {
  shutdown_answer = answered;
  now = 0;
  rounds = round 10 ∷ record { answer = exited 3; now = 20 } ∷ [];
  unwinding = stubborn;
}

destroy-graceful_example : destroy prompt runtime ≡ (finished, reaped (pos 3) started)
unfolding is_live
destroy-graceful_example =
    destroy-graceful prompt runtime (λ e. cc e) (round 10 ∷ []) []
      (record { answer = exited 3; now = 20 }) (pos 3) refl refl ((inl refl, refl), tt) refl

abbrev slow : Ending
slow = record prompt { rounds = round 10 ∷ round 1001 ∷ [] }

destroy-IsGone_example : IsGone (destroy slow runtime)
destroy-IsGone_example =
    destroy-IsGone slow runtime (λ e. cc e) (round 10 ∷ []) [] (round 1001) refl refl (omega arith)
      (stubborn-Ends started)
