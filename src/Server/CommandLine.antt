-- ===== src/Server/CommandLine.antt =====
-- The command line that ExternalComponentProcess::create writes is the one that main reads.
use rpp_cpp.Base.{
  ℕ, suc, ◌≡◌, ◌<◌, refl, ap, ◌∙◌, false, String, List, [], ◌∷◌, ◌++◌, map, length, is_empty, not,
  arith,
}
use mathlib.Core.List.{append_assoc, append-nil}
use native.Mathlib.Nat.{mod-eq_of_lt}
use rpp_cpp.Base.Result.{Result, ok, or_throw, guard, >>=-eq-ok}
use rpp_cpp.Base.Int.{ℤ, pos}
use rpp_cpp.External.{
  ExternalComponentSpec, Machine, component_options, server_options, load_clients, create,
  command_for, ExternalComponentProcessRegistry,
}
use rpp_cpp.Server.{
  Arguments, initial_arguments, goes_on, set_option, parse_arguments, check_arguments, start_server,
}

abbrev pub all_options : List ExternalComponentSpec → List String
all_options [] = []
all_options (s ∷ components) = component_options s ++ all_options components

abbrev pub plugin_of : ExternalComponentSpec → String
plugin_of s = s.plugin_info.plugin_name

module _ (stoi : String → Result ℤ) where
  abbrev added : Arguments → List ExternalComponentSpec → Arguments
  added a components = record a {
    paths = a.paths ++ map (λ s. s.component_path) components;
    conns = a.conns ++ map (λ s. s.connection_name) components;
    plugin_names = a.plugin_names ++ map plugin_of components;
  }

  parse_arguments-all_options :
      (a : Arguments) (components : List ExternalComponentSpec)
      → parse_arguments stoi a (all_options components) ≡ goes_on (added a components)
  unfolding parse_arguments set_option
  parse_arguments-all_options a [] =
      rw (append-nil a.paths, append-nil a.conns, append-nil a.plugin_names) refl
  parse_arguments-all_options a (s ∷ components) =
      parse_arguments-all_options
        (record a {
          paths = a.paths ++ s.component_path ∷ [];
          conns = a.conns ++ s.connection_name ∷ [];
          plugin_names = a.plugin_names ++ plugin_of s ∷ [];
        })
        components
      ∙ rw
          (
            append_assoc a.paths (s.component_path ∷ []) (map (λ s. s.component_path) components),
            append_assoc a.conns (s.connection_name ∷ []) (map (λ s. s.connection_name) components),
            append_assoc a.plugin_names (plugin_of s ∷ []) (map plugin_of components),
          )
          refl

  -- What the options of a component list say.
  abbrev pub described : String → String → ℕ → List ExternalComponentSpec → Arguments
  described rpp_home host port components = record {
    rpp_home = rpp_home;
    host = host;
    port = port;
    paths = map (λ s. s.component_path) components;
    conns = map (λ s. s.connection_name) components;
    plugin_names = map plugin_of components;
  }

length-map_any : {A B : Type 0} → (f : A → B) (xs : List A) → length (map f xs) ≡ length xs
length-map_any f [] = refl
length-map_any f (x ∷ xs) = ap (λ (n : ℕ). suc n) (length-map_any f xs)

module _ {Client Plugin Process : Type 0} (machine : Machine Client Plugin Process) where
  load_clients-options :
      (components : List ExternalComponentSpec) (adapters : List Client) (instances : List Plugin)
      (options : List String)
      → load_clients machine components ≡ ok (adapters, instances, options)
      → (options ≡ all_options components) × (length instances ≡ length components)
  unfolding load_clients
  load_clients-options [] adapters instances options e = ground (arith, e)
  load_clients-options (s ∷ components) adapters instances options e =
      let (c, _, e1) = >>=-eq-ok (machine.load_plugin_adapter_client s.plugin_info _ _) _ e in
      let (i, _, e2) = >>=-eq-ok (or_throw (machine.as_plugin c) _) _ e1 in
      let ((cs, is, os), f, e3) = >>=-eq-ok (load_clients machine components) _ e2 in
      let (p, q) = load_clients-options components cs is os f in ground (arith, e3, p, q)

  options_read :
      (stoi : String → Result ℤ) (a : Arguments) (rpp_home host : String) (port : ℕ)
      (rest : List String)
      → stoi (machine.to_string port) ≡ ok (pos port)
      → port < 65536
      → parse_arguments stoi a (server_options machine rpp_home host port ++ rest)
        ≡ parse_arguments stoi (record a { rpp_home = rpp_home; host = host; port = port }) rest
  unfolding parse_arguments set_option
  options_read stoi a rpp_home host port rest numeral fits =
      rw (numeral, parse_arguments, mod-eq_of_lt fits) refl

  checked-described :
      (stoi : String → Result ℤ) (rpp_home host : String) (port : ℕ) (s : ExternalComponentSpec)
      (components : List ExternalComponentSpec)
      → check_arguments stoi (goes_on (described stoi rpp_home host port (s ∷ components)))
        ≡ goes_on (described stoi rpp_home host port (s ∷ components))
  unfolding check_arguments
  checked-described stoi rpp_home host port s components = ground (
    arith,
    length-map_any (λ (s : ExternalComponentSpec). s.component_path) components,
    length-map_any (λ (s : ExternalComponentSpec). s.connection_name) components,
    length-map_any plugin_of components,
  )

  command_line-read :
      (stoi : String → Result ℤ) (home rpp_home host : String) (port : ℕ)
      (components : List ExternalComponentSpec)
      → stoi (machine.to_string port) ≡ ok (pos port)
      → port < 65536
      → is_empty components ≡ false
      → start_server stoi home (server_options machine rpp_home host port ++ all_options components)
        ≡ goes_on (described stoi rpp_home host port components)
  unfolding start_server
  command_line-read stoi home rpp_home host port [] numeral fits e = ground (arith, e)
  command_line-read stoi home rpp_home host port (s ∷ components) numeral fits e =
      ap (check_arguments stoi) (
        options_read stoi (initial_arguments home) rpp_home host port (all_options (s ∷ components))
          numeral fits
        ∙ parse_arguments-all_options stoi
            (record (initial_arguments home) { rpp_home = rpp_home; host = host; port = port })
            (s ∷ components))
      ∙ checked-described stoi rpp_home host port s components

  -- The command that create starts is the registered server's, and main of that server goes on with
  -- the home, the host, the port and, for each component, the path, the plugin and the connection
  -- that create was given, in order, whatever text they are. It holds where std::stoi reads what
  -- std::to_string wrote, and the port that is found fits sixteen bits.
  pub create-start_server :
      (stoi : String → Result ℤ) (home language rpp_home host : String) (port : ℕ)
      (components : List ExternalComponentSpec) (registry : ExternalComponentProcessRegistry)
      (process : Process) (instances : List Plugin) (command : List String)
      → machine.get_available_port ≡ ok port
      → stoi (machine.to_string port) ≡ ok (pos port)
      → port < 65536
      → create machine language rpp_home components registry host ≡ ok (process, instances, command)
      → (server : String) × (argv : List String) × (command_for registry language ≡ ok server)
        × (command ≡ server ∷ argv)
        × (start_server stoi home argv ≡ goes_on (described stoi rpp_home host port components))
        × (length instances ≡ length components)
  unfolding create
  create-start_server stoi home language rpp_home host port components registry process instances
        command available numeral fits e =
      let (_, g, e1) = >>=-eq-ok (guard (not (is_empty components)) _) _ e in
      let e0 = rw available at e1 in
      let (server, f, e2) = >>=-eq-ok (command_for registry language) _ e0 in
      let ((cs, is, os), l, e3) = >>=-eq-ok (load_clients machine components) _ e2 in
      let (pr, _, e4) = >>=-eq-ok (machine.external_component_process _ _ _ cs) _ e3 in
      let (p, q) = load_clients-options components cs is os l in
      (
        server,
        server_options machine rpp_home host port ++ all_options components,
        f,
        ground (arith, e4, p),
        command_line-read stoi home rpp_home host port components numeral fits (ground (arith, g)),
        ground (arith, e4, q),
      )
