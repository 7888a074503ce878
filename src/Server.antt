-- ===== src/Server.antt =====
-- main of src/component_server.cpp: the command line.
pub mod CommandLine
pub mod Hosting
use rpp_cpp.Base.{
  ℕ, ◌≡◌, Bool, true, false, String, ◌<>◌, ◌==◌, ◌||◌, List, [], ◌∷◌, ◌++◌, Option, none, some,
  length, is_empty, nat_eq, not, if◌then◌else◌,
}
use rpp_cpp.Base.Result.{Result, ok, err, Error, ◌>>=◌}
use rpp_cpp.Base.Int.{ℤ, pos, pattern_of}

-- The local variables that the loop sets, and the global RPP_HOME. The variable home_dir, which the
-- environment sets, is read nowhere.
pub record Arguments : Type 0 where
  pub rpp_home : String
  pub host : String
  pub port : ℕ
  pub paths : List String
  pub conns : List String
  pub plugin_names : List String

abbrev pub initial_arguments : String → Arguments
initial_arguments rpp_home = record {
  rpp_home = rpp_home;
  host = "localhost";
  port = 8080;
  paths = [];
  conns = [];
  plugin_names = [];
}

-- How the first part of main ends.
pub data Start : Type 0 where
  exits : ℕ → Start
  throws : Error → Start
  goes_on : Arguments → Start

module _ (stoi : String → Result ℤ) where
  -- The argument that follows an option is its value; `none` if the text is no option.
  unfoldable pub set_option : String → String → Arguments → Option (Result Arguments)
  set_option arg value a =
      if arg == "--home"
      then some (ok (record a { rpp_home = value }))
      else if arg == "--host"
      then some (ok (record a { host = value }))
      else if arg == "--port"
      then some (do i ← stoi value; ok (record a { port = pattern_of 32768 i }))
      else if arg == "--path"
      then some (ok (record a { paths = a.paths ++ value ∷ [] }))
      else if arg == "--plugin"
      then some (ok (record a { plugin_names = a.plugin_names ++ value ∷ [] }))
      else if arg == "--conn"
      then some (ok (record a { conns = a.conns ++ value ∷ [] }))
      else none

  -- The loop over argv, from its second entry on. An option that stands last is passed over.
  unfoldable pub parse_arguments : Arguments → List String → Start
  unfolding set_option
  parse_arguments a [] = goes_on a
  parse_arguments a (arg ∷ []) = if arg == "--help" || arg == "-h" then exits 0 else goes_on a
  parse_arguments a (arg ∷ value ∷ rest) = elim (arg == "--help" || arg == "-h") [
    | true ↦ exits 0
    | false ↦ elim (set_option arg value a) [
      | none ↦ parse_arguments a (value ∷ rest)
      | some (ok b) ↦ parse_arguments b rest
      | some (err e) ↦ throws e
    ]
  ]

  check_arguments : Start → Start
  check_arguments (goes_on a) =
      if is_empty a.paths || is_empty a.conns || is_empty a.plugin_names
      then exits 1
      else if not (nat_eq (length a.paths) (length a.conns))
          || not (nat_eq (length a.paths) (length a.plugin_names))
      then exits 1
      else goes_on a
  check_arguments s = s

  -- main, up to the construction of the server; `argv` without the program's name.
  unfoldable pub start_server : String → List String → Start
  unfolding parse_arguments check_arguments
  start_server rpp_home argv = check_arguments (parse_arguments (initial_arguments rpp_home) argv)
