-- ===== src/Scheduler/Status.antt =====
-- pkg/scheduler/framework/interfaces/interface_copied.go: the result of running a plugin.
-- A `*Status` is an `Option Status`; nil counts as success.
use clusternet.Prelude.{
  String, Bool, true, false, ◌||◌, Option, none, some, List, [], ◌∷◌, ◌++◌, Message, join_all,
  empty, if◌then◌else◌,
}

pub data Code : Type 0 where
  success error unschedulable unschedulable_and_unresolvable wait skip : Code

pub Code-discrete : Discrete Code
Code-discrete = hlevel

-- `a == b` on codes.
abbrev pub same_code : Code → Code → Bool
same_code success success = true
same_code error error = true
same_code unschedulable unschedulable = true
same_code unschedulable_and_unresolvable unschedulable_and_unresolvable = true
same_code wait wait = true
same_code skip skip = true
same_code _ _ = false

pub record Status : Type 0 where
  pub code : Code
  pub reasons : List Message
  -- The field `err`, with `none` for nil.
  pub cause : Option Message
  pub failed_plugin : String

unfoldable pub code_of : Option Status → Code
code_of none = success
code_of (some s) = s.code

unfoldable pub message : Option Status → Message
message none = empty
message (some s) = join_all s.reasons

unfoldable pub is_success : Option Status → Bool
unfolding code_of
is_success s = same_code (code_of s) success

unfoldable pub is_unschedulable : Option Status → Bool
unfolding code_of
is_unschedulable s =
    same_code (code_of s) unschedulable || same_code (code_of s) unschedulable_and_unresolvable

-- The error of a status whose code is not Success, and the whole method, where `none` is nil.
unfoldable pub failure_of : Status → Message
failure_of s = elim s.cause [ some e ↦ e | none ↦ join_all s.reasons ]

unfoldable pub as_error : Option Status → Option Message
as_error none = none
as_error (some s) = if same_code s.code success then none else some (failure_of s)

unfoldable pub new_status : Code → List Message → Status
new_status code reasons = record {
  code = code;
  reasons = reasons;
  cause = if same_code code error then some (join_all reasons) else none;
  failed_plugin = "";
}

unfoldable pub as_status : Message → Status
as_status e = record { code = error; reasons = e ∷ []; cause = some e; failed_plugin = "" }

unfoldable pub with_failed_plugin : String → Status → Status
with_failed_plugin plugin s = record s { failed_plugin = plugin }

unfoldable pub append_reason : Message → Status → Status
append_reason reason s = record s { reasons = s.reasons ++ reason ∷ [] }
