-- ===== src/External/Registry.antt =====
-- Looking up the servers that were registered.
use rpp_cpp.Base.{◌≡◌, String, ◌==◌, eq_iff, arith, if◌then◌else◌}
use rpp_cpp.Base.Result.{ok}
use rpp_cpp.Base.Dict.{find-insert}
use rpp_cpp.Text.Lower.{to_lower_copy}
use rpp_cpp.External.{ExternalComponentProcessRegistry, register_server, command_for}

-- A registered command is found under every spelling of its language that differs in the case of
-- letters alone, in place of an earlier one; every other language's answer is as it was.
pub command_for-register_server :
    (language command asked : String) (r s : ExternalComponentProcessRegistry)
    → register_server language command r ≡ ok s
    → command_for s asked
      ≡ (if to_lower_copy language == to_lower_copy asked then ok command else command_for r asked)
unfolding register_server command_for
command_for-register_server language command asked r s e = ground (
  arith,
  e,
  find-insert (to_lower_copy asked) (to_lower_copy language) command r.commands,
  eq_iff (to_lower_copy language) (to_lower_copy asked),
)
