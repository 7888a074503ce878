-- ===== src/Tests/Hosts.antt =====
-- A host with two adapters, for the theorems on its running.
use rpp_cpp.Base.{◌≡◌, String, [], ◌∷◌, ◌++◌}
use rpp_cpp.Host.{
  RppServerHost, ServerAdapter, ping, interrupt, check, capability_request, stopped, server_host,
  add_server, run, shutdown,
}
use rpp_cpp.Host.Running.{asked, run-phase}
use rpp_cpp.Base.Dict.{insert}

abbrev arm : ServerAdapter String
arm = record {
  info = record {
    name = "arm";
    plugin_name = "demo::Arm";
    plugin_type = "component";
    connection_name = "arm_1";
    created_at = 7;
  };
  capability = "arm capability";
}

abbrev base : ServerAdapter String
base = record {
  info = record {
    name = "base";
    plugin_name = "demo::Base";
    plugin_type = "component";
    connection_name = "base_1";
    created_at = 9;
  };
  capability = "base capability";
}

-- A host that was asked to stop before it runs.
abbrev host : RppServerHost String
host = shutdown (add_server base (add_server arm server_host))

run-phase_example :
    (run host ((ping ∷ check ∷ capability_request "arm_1" ∷ interrupt ∷ []) ++ check ∷ [])).1
    ≡ stopped ("arm_1" ∷ "base_1" ∷ [])
unfolding add_server server_host shutdown asked insert
run-phase_example = run-phase host (ping ∷ check ∷ capability_request "arm_1" ∷ interrupt ∷ [])
