-- ===== src/Scheduler/Permit.antt =====
-- pkg/scheduler/framework/runtime/framework.go: RunPermitPlugins and WaitOnPermit. The state is the
-- world of the plugins with the map of the waiting subscriptions.
pub mod Handshake
pub mod Rejection
use clusternet.Prelude.{
  String, Bool, true, false, Option, none, some, List, [], ◌∷◌, named, about, put, if◌then◌else◌,
}
use clusternet.Prelude.Int.{ℤ, pos, ltb_ℤ}
use clusternet.Scheduler.Status.{
  Status, Code, success, wait, same_code, is_unschedulable, failure_of, as_status,
  with_failed_plugin, new_status,
}
use clusternet.Scheduler.Api.{Subscription}
use clusternet.Scheduler.Plugins.{PermitPlugin}
use clusternet.Scheduler.Filter.{failing}
use clusternet.Scheduler.Waiting.{
  WaitingMap, new_waiting_subscription, add, get, remove_waiting, receive, Event, handle_all,
  reject,
}

pub record State (W : Type 0) : Type 0 where
  pub world : W
  pub waiting : WaitingMap

-- 15 * time.Minute, in nanoseconds.
abbrev pub max_timeout : ℤ
max_timeout = pos 900_000_000_000

abbrev pub cap_timeout : ℤ → ℤ
cap_timeout timeout = if ltb_ℤ max_timeout timeout then max_timeout else timeout

-- What WaitOnPermit makes of the signal.
unfoldable pub judge_signal : Status → Option Status
judge_signal s = elim (failing (some s)) [
  | none ↦ none
  | some f ↦
      if is_unschedulable (some f)
      then some (with_failed_plugin f.failed_plugin f)
      else some (
          with_failed_plugin f.failed_plugin
            (as_status (about "waiting on permit for subscription: %w" "" (failure_of f))))
]

-- What one round of the loop of RunPermitPlugins does: `continue`, note that the plugin asks to
-- wait, or return a status.
pub data Round : Type 0 where
  pass ask : Round
  refuse : Status → Round

unfoldable pub round_of : String → Option Status → Round
unfolding failing
round_of name status = elim (failing status) [
  | none ↦ pass
  | some s ↦
      let wrapped = about "running Permit plugin %q: %w" name (failure_of s) in
      if is_unschedulable (some s)
      then refuse (with_failed_plugin name s)
      else if same_code s.code wait
      then ask
      else refuse (with_failed_plugin name (as_status wrapped))
]

module _ {W S : Type 0} (sub : Subscription S) where
  -- The end of the function, from `if statusCode == framework.Wait`.
  unfoldable pub permit_end : List (String × ℤ) → Code → State W → Option Status × State W
  permit_end plugins_wait_time status_code st = elim (same_code status_code wait) [
    | true ↦ (
      some (
          new_status wait (
            named "one or more plugins asked to wait and no plugin rejected subscription %q"
              sub.name
            ∷ [])),
      record st { waiting = add (new_waiting_subscription sub.uid plugins_wait_time) st.waiting },
    )
    | false ↦ (none, st)
  ]

  unfoldable pub permit_loop :
      List String
      → List (PermitPlugin W (Subscription S))
      → List (String × ℤ)
      → Code
      → State W
      → Option Status × State W
  permit_loop clusters [] plugins_wait_time status_code st =
      permit_end plugins_wait_time status_code st
  permit_loop clusters (pl ∷ pls) plugins_wait_time status_code st =
      let (status, timeout, world') = pl.permit sub clusters st.world in
      let st' = record st { world = world' } in
      elim (round_of pl.name status) [
        | pass ↦ permit_loop clusters pls plugins_wait_time status_code st'
        | ask ↦
            permit_loop clusters pls (put pl.name (cap_timeout timeout) plugins_wait_time) wait st'
        | refuse s ↦ (some s, st')
      ]

  unfoldable pub run_permit_plugins :
      List String → List (PermitPlugin W (Subscription S)) → State W → Option Status × State W
  unfolding permit_loop
  run_permit_plugins clusters pls st = permit_loop clusters pls [] success st

  -- `events` is what other goroutines do to the waiting subscription before a signal is received;
  -- the result is none where there is no signal yet, so that the call still blocks.
  unfoldable pub wait_on_permit : List Event → State W → Option (Option Status × State W)
  wait_on_permit events st = elim (get sub.uid st.waiting) [
    | none ↦ some (none, st)
    | some w ↦ elim (receive (handle_all events w)) [
      | none ↦ none
      | some (s, w') ↦
          some (judge_signal s, record st { waiting = remove_waiting sub.uid st.waiting })
    ]
  ]
