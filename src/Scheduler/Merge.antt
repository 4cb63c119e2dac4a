-- ===== src/Scheduler/Merge.antt =====
-- pkg/scheduler/framework/interfaces/interface.go: `PluginToStatus` and its method Merge. The map
-- is an association list in the order in which `range` visits it, which Go leaves open.
pub mod Precedence
use clusternet.Prelude.{
  String, Bool, true, false, ◌&&◌, Option, none, some, List, [], ◌∷◌, Message, if◌then◌else◌,
}
use clusternet.Prelude.Int.{ℤ, pos, negsuc, ltb_ℤ}
use clusternet.Scheduler.Status.{
  Code, success, error, unschedulable, unschedulable_and_unresolvable, wait, skip, same_code,
  Status, as_error, new_status, append_reason,
}

abbrev pub PluginToStatus : Type 0
PluginToStatus = List (String × Status)

-- `statusPrecedence`: a code that is no key of the map has the zero value.
unfoldable pub precedence : Code → ℤ
precedence error = pos 3
precedence unschedulable_and_unresolvable = pos 2
precedence unschedulable = pos 1
precedence success = negsuc 0
precedence _ = pos 0

unfoldable pub append_reasons : List Message → Status → Status
append_reasons [] s = s
append_reasons (r ∷ rs) s = append_reasons rs (append_reason r s)

-- The body of the loop, where `final` is finalStatus.
unfoldable pub merge_step : Status → Status → Status
merge_step final s =
    let caused =
      if same_code s.code error then record final { cause = as_error (some s) } else final in
    let ranked =
      if ltb_ℤ (precedence caused.code) (precedence s.code)
      then record caused { code = s.code; failed_plugin = s.failed_plugin }
      else caused in
    append_reasons s.reasons ranked

unfoldable pub merge_from : Status → PluginToStatus → Status
merge_from final [] = final
merge_from final ((name, s) ∷ m) = merge_from (merge_step final s) m

unfoldable pub merge : PluginToStatus → Option Status
merge [] = none
merge (p ∷ m) = some (merge_from (new_status success []) (p ∷ m))

-- Every status of the map has the code Success.
abbrev pub all_success : PluginToStatus → Bool
all_success [] = true
all_success ((name, s) ∷ m) = same_code s.code success && all_success m
