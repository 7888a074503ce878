-- ===== src/Tests/Values.antt =====
-- Parameter values, names and parameter sets.
use rpp_cpp.Base.{
  ℕ, ◌≡◌, refl, ◌⊎◌, ◌↔◌, ◌<◌, ◌≤◌, String, ◌<>◌, ◌==◌, List, [], ◌∷◌, map, length, get_elem?, none,
  some, arith, if◌then◌else◌,
}
use rpp_cpp.Base.Result.{ok, err, runtime_error, invalid_argument}
use rpp_cpp.Base.Dict.{find, insert}
use rpp_cpp.Base.Int.{ℤ, pos, negsuc, Fits}
use rpp_cpp.Params.Value.{int}
use rpp_cpp.Params.Convert.{int8, string, RoundTrips}
use rpp_cpp.Params.Convert.Numbers.{int_round_trip, int8_exact}
use rpp_cpp.Params.Struct.{Member, Reflected, struct}
use rpp_cpp.Params.Struct.Laws.{struct-RoundTrips}
use rpp_cpp.Params.Struct.Macros.{for_each, for_each_exact, bodies, call_of}
use rpp_cpp.Params.Store.{get_parameter}
use rpp_cpp.Params.Store.Resolve.{ParameterDescription, resolve_description}
use rpp_cpp.Params.Store.Resolve.Laws.{default_of, resolved}
use rpp_cpp.Params.Store.Reading.{read, get-resolve}
use rpp_cpp.Text.Separator.{split_at_separator}
use rpp_cpp.Text.Lower.{to_lower, to_lower_copy}
use rpp_cpp.Paths.{parse_plugin_name, invalid_plugin_name}
use rpp_cpp.Paths.Names.{parse_plugin_name_sound}
use rpp_cpp.External.{ExternalComponentProcessRegistry, register_server, command_for}
use rpp_cpp.External.Registry.{command_for-register_server}

-- A struct with a name and a gain.
record Gains : Type 0 where
  name : String
  gain : ℤ

abbrev name_member : Member Gains
name_member = record {
  name = "name";
  Field = String;
  converter = string;
  get = λ g. g.name;
  put = λ s g. record g { name = s };
}

abbrev gain_member : Member Gains
gain_member = record {
  name = "gain";
  Field = ℤ;
  converter = int8;
  get = λ g. g.gain;
  put = λ i g. record g { gain = i };
}

abbrev gains : Reflected Gains
gains = record {
  struct_name = "Gains";
  default_value = record { name = ""; gain = pos 0 };
  members = name_member ∷ gain_member ∷ [];
}

abbrev pitch : Gains
pitch = record { name = "pitch"; gain = negsuc 4 }

string_pitch : RoundTrips string "pitch"
unfolding string
string_pitch = refl

struct-RoundTrips_example : RoundTrips (struct gains) pitch
struct-RoundTrips_example =
    struct-RoundTrips gains pitch ((refl, tt), (tt, tt))
      (string_pitch, ((int_round_trip (negsuc 4)).0 (omega arith), tt)) refl

int8_exact_example :
    (int8.from (int (pos 300)) ≡ err (runtime_error "Parameter value is not an int."))
    ⊎ ((i : ℤ) × (z : ℤ) × (int (pos 300) ≡ int i)
        × (int8.from (int (pos 300)) ≡ ok z)
        × Fits 128 z
        × ((z ≡ i) ↔ Fits 128 i))
int8_exact_example = int8_exact (int (pos 300))

abbrev two_three : List ℕ
two_three = 2 ∷ 3 ∷ []

for_each_exact_example :
    ((length two_three < 8)
      × (for_each (λ (n : ℕ). n) 1 two_three ≡ bodies (map (λ (n : ℕ). n) (1 ∷ two_three))))
    ⊎ ((8 ≤ length two_three)
        × (a : ℕ) × (get_elem? two_three 7 ≡ some a)
        × (for_each (λ (n : ℕ). n) 1 two_three ≡ call_of a))
for_each_exact_example = for_each_exact (λ (n : ℕ). n) 1 two_three

abbrev described_twice : List ParameterDescription
described_twice =
    record { name = "rate"; default_value = int (pos 1) }
    ∷ record { name = "rate"; default_value = int (pos 2) }
    ∷ []

get-resolve_example :
    get_parameter int8 (resolve_description described_twice (("rate", int (pos 9)) ∷ [])) "rate"
    ≡ read int8 "rate" (
        resolved
          (default_of "rate" described_twice none)
          (find "rate" (("rate", int (pos 9)) ∷ [])))
get-resolve_example = get-resolve int8 "rate" described_twice (("rate", int (pos 9)) ∷ [])

parse_plugin_name_sound_example :
    (parse_plugin_name "control::Pid" ≡ err (invalid_argument invalid_plugin_name))
    ⊎ ((lib : String) × (plugin : String) × (parse_plugin_name "control::Pid" ≡ ok (lib, plugin))
        × ("control::Pid" ≡ lib <> "::" <> plugin)
        × (split_at_separator (lib <> ":") ≡ none))
parse_plugin_name_sound_example = parse_plugin_name_sound "control::Pid"

abbrev empty_registry : ExternalComponentProcessRegistry
empty_registry = record { commands = [] }

abbrev julia_registry : ExternalComponentProcessRegistry
julia_registry = record { commands = ("julia", "rpp_component_server_julia") ∷ [] }

command_for-register_server_example : command_for julia_registry "JULIA" ≡ (
    if to_lower_copy "Julia" == to_lower_copy "JULIA"
    then ok "rpp_component_server_julia"
    else command_for empty_registry "JULIA")
command_for-register_server_example =
    command_for-register_server "Julia" "rpp_component_server_julia" "JULIA" empty_registry
      julia_registry registered
  where
    registered :
        register_server "Julia" "rpp_component_server_julia" empty_registry ≡ ok julia_registry
    registered = unfold register_server to_lower_copy to_lower insert in refl
