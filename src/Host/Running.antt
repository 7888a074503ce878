-- ===== src/Host/Running.antt =====
-- When the host stops, and what it answers until then.
use rpp_cpp.Base.{◌≡◌, refl, ap, ◌∙◌, Bool, true, false, String, List, [], ◌∷◌, ◌++◌, if◌then◌else◌}
use rpp_cpp.Base.Dict.{keys}
use rpp_cpp.Host.{
  RppServerHost, Event, ping, shutdown_request, list_request, interrupt, check, capability_request,
  Answer, Phase, serving, stopped, serve, serve_all, run, shutdown,
}

-- The events that ask the host to stop.
abbrev pub asks : Event → Bool
asks shutdown_request = true
asks interrupt = true
asks e = false

-- Whether one of the events asks the host to stop.
unfoldable pub asked : List Event → Bool
asked [] = false
asked (e ∷ events) = if asks e then true else asked events

module _ {Capability : Type 0} where
  -- The phase after a check that finds the flag b; rest is what comes of the events behind it.
  abbrev at_check : List String → List (Answer Capability) × Phase → Bool → Phase
  at_check names rest b =
      (if◌then◌else◌ {A = List (Answer Capability) × Phase} b ([], stopped names) rest).1

  serve_all-stopped :
      (host : RppServerHost Capability) (events : List Event)
      → host.shutdown_requested ≡ true
      → (serve_all host (events ++ check ∷ [])).1 ≡ stopped (keys host.adapters)
  unfolding serve_all serve shutdown
  serve_all-stopped host [] e = ap (at_check (keys host.adapters) ([], serving)) e
  serve_all-stopped host (ping ∷ events) e = serve_all-stopped host events e
  serve_all-stopped host (shutdown_request ∷ events) e =
      serve_all-stopped (shutdown host) events refl
  serve_all-stopped host (list_request ∷ events) e = serve_all-stopped host events e
  serve_all-stopped host (interrupt ∷ events) e = serve_all-stopped (shutdown host) events refl
  serve_all-stopped host (check ∷ events) e =
      ap (at_check (keys host.adapters) (serve_all host (events ++ check ∷ []))) e
  serve_all-stopped host (capability_request name ∷ events) e = serve_all-stopped host events e

  serve_all-phase :
      (host : RppServerHost Capability) (events : List Event)
      → host.shutdown_requested ≡ false
      → (serve_all host (events ++ check ∷ [])).1
        ≡ (if asked events then stopped (keys host.adapters) else serving)
  unfolding serve_all serve shutdown asked
  serve_all-phase host [] e = ap (at_check (keys host.adapters) ([], serving)) e
  serve_all-phase host (ping ∷ events) e = serve_all-phase host events e
  serve_all-phase host (shutdown_request ∷ events) e = serve_all-stopped (shutdown host) events refl
  serve_all-phase host (list_request ∷ events) e = serve_all-phase host events e
  serve_all-phase host (interrupt ∷ events) e = serve_all-stopped (shutdown host) events refl
  serve_all-phase host (check ∷ events) e =
      ap (at_check (keys host.adapters) (serve_all host (events ++ check ∷ []))) e
      ∙ serve_all-phase host events e
  serve_all-phase host (capability_request name ∷ events) e = serve_all-phase host events e

  -- Once the events are served and the flag is checked again, the host has stopped, and closed every
  -- registered adapter, if one of the events asked for it, and still serves otherwise: a request made
  -- before it runs counts for nothing.
  pub run-phase :
      (host : RppServerHost Capability) (events : List Event)
      → (run host (events ++ check ∷ [])).1
        ≡ (if asked events then stopped (keys host.adapters) else serving)
  unfolding run
  run-phase host events = serve_all-phase (record host { shutdown_requested = false }) events refl
