-- ===== src/Scheduler/Cycle.antt =====
-- pkg/scheduler/scheduler.go: the scheduling of one subscription. Package workqueue, the listers and
-- the texts of errors are parameters. The actions of a run are listed in their order; metrics are
-- left out.
pub mod Protocol
pub mod Truncate
use clusternet.Prelude.{
  ℕ, ◌-◌, ◌≤◌, leb, String, Bool, true, false, not, ◌&&◌, Option, none, some, List, [], ◌∷◌, ◌++◌,
  length, take, if◌then◌else◌, Result, ok, err, Message, text, about, named, ◌||◌,
}
use clusternet.Scheduler.Api.{Subscription}
use clusternet.Scheduler.Status.{
  Status, Code, error, wait, same_code, code_of, is_success, failure_of, message,
}
use clusternet.Scheduler.Filter.{failing}
use clusternet.Scheduler.Schedule.{ScheduleResult, ScheduleError, Outcome, scheduled, refused}

-- The part of the interface framework.Framework that a cycle calls.
pub record Framework (W S : Type 0) : Type 0 where
  pub run_reserve_plugins_reserve : Subscription S → List String → W → Option Status × W
  pub run_reserve_plugins_unreserve : Subscription S → List String → W → W
  pub run_permit_plugins : Subscription S → List String → W → Option Status × W
  pub wait_on_permit : Subscription S → W → Option Status × W
  pub run_pre_bind_plugins : Subscription S → List String → W → Option Status × W
  pub run_bind_plugins : Subscription S → List String → W → Option Status × W
  pub run_post_bind_plugins : Subscription S → List String → W → W

-- The calls of the framework with their status, the events that are recorded, and the changes of the
-- queue.
pub data Action : Type 0 where
  reserve permit await pre_bind bind : Option Status → Action
  unreserve post_bind : Action
  warn : List ℕ → Action
  announce : Action
  add_rate_limited done : String → Action

abbrev pub note_length_limit : ℕ
note_length_limit = 1024

-- truncateMessage, for a text given by its bytes; `suffix` is " ...".
abbrev pub suffix : List ℕ
suffix = 32 ∷ 46 ∷ 46 ∷ 46 ∷ []

unfoldable pub truncate_message : List ℕ → List ℕ
truncate_message message =
    if leb (length message) note_length_limit
    then message
    else take (note_length_limit - length suffix) message ++ suffix

-- The code Wait, or success.
unfoldable pub is_permitted : Option Status → Bool
is_permitted s = same_code (code_of s) wait || is_success s

-- bind, from the status of the "bind" plugins.
unfoldable pub bind_error : Option Status → Option Message
bind_error status = elim (failing status) [
  | none ↦ none
  | some s ↦
      if same_code s.code error
      then some (failure_of s)
      else some (about "bind status: %s, %v" "" (message status))
]

module _ {W S : Type 0} (key : Subscription S → String) (render : Message → List ℕ)
    (fwk : Framework W S) where
  -- recordSchedulingFailure.
  unfoldable pub record_scheduling_failure : Subscription S → Message → List Action
  record_scheduling_failure sub e =
      warn (truncate_message (render e)) ∷ add_rate_limited (key sub) ∷ []

  -- RunReservePluginsUnreserve and recordSchedulingFailure, with which each failure ends.
  unfoldable pub roll_back : Subscription S → List String → Message → W → List Action × W
  roll_back sub clusters e w = (
    unreserve ∷ record_scheduling_failure sub e,
    fwk.run_reserve_plugins_unreserve sub clusters w,
  )

  unfoldable pub bind_step : Subscription S → List String → W → List Action × W
  bind_step sub clusters w =
      let bound = fwk.run_bind_plugins sub clusters w in
      elim (bind_error bound.0) [
        | some e ↦
            let rest = roll_back sub clusters (about "binding rejected: %w" "" e) bound.1 in
            (bind bound.0 ∷ rest.0, rest.1)
        | none ↦ (
          bind bound.0 ∷ announce ∷ post_bind ∷ [],
          fwk.run_post_bind_plugins sub clusters bound.1,
        )
      ]

  unfoldable pub pre_bind_step : Subscription S → List String → W → List Action × W
  pre_bind_step sub clusters w =
      let prepared = fwk.run_pre_bind_plugins sub clusters w in
      let rest : List Action × W = elim (failing prepared.0) [
        | some s ↦ roll_back sub clusters (failure_of s) prepared.1
        | none ↦ bind_step sub clusters prepared.1
      ] in
      (pre_bind prepared.0 ∷ rest.0, rest.1)

  -- The function that scheduleOne starts as a goroutine.
  unfoldable pub binding_cycle : Subscription S → List String → W → List Action × W
  binding_cycle sub clusters w =
      let waited = fwk.wait_on_permit sub w in
      let rest : List Action × W = elim (failing waited.0) [
        | some s ↦ roll_back sub clusters (failure_of s) waited.1
        | none ↦ pre_bind_step sub clusters waited.1
      ] in
      (await waited.0 ∷ rest.0, rest.1)

  -- What scheduleOne leaves: its actions, the world, and the clusters for which the binding cycle is
  -- started.
  pub record Scheduled : Type 0 where
    pub actions : List Action
    pub world : W
    pub started : Option (List String)

  -- RunReservePluginsReserve and RunPermitPlugins, up to the start of the binding cycle.
  unfoldable pub permit_step : Subscription S → List String → W → Scheduled
  permit_step sub clusters w =
      let permitted = fwk.run_permit_plugins sub clusters w in
      elim (if is_permitted permitted.0 then none else failing permitted.0) [
        | none ↦ record {
          actions = permit permitted.0 ∷ [];
          world = permitted.1;
          started = some clusters;
        }
        | some s ↦
            let rest = roll_back sub clusters (failure_of s) permitted.1 in
            record { actions = permit permitted.0 ∷ rest.0; world = rest.1; started = none }
      ]

  unfoldable pub reserve_step : Subscription S → List String → W → Scheduled
  reserve_step sub clusters w =
      let reserved = fwk.run_reserve_plugins_reserve sub clusters w in
      let rest : Scheduled = elim (failing reserved.0) [
        | some s ↦
            let undone = roll_back sub clusters (failure_of s) reserved.1 in
            record { actions = undone.0; world = undone.1; started = none }
        | none ↦ permit_step sub clusters reserved.1
      ] in
      record rest { actions = reserve reserved.0 ∷ rest.actions }

  -- The synchronous part for a subscription that is found. `algorithm` is Schedule.
  unfoldable pub schedule_subscription :
      (Subscription S → W → Outcome × W)
      → (ScheduleError → Message)
      → Subscription S
      → W
      → Scheduled
  schedule_subscription algorithm error_message sub w =
      let answer = algorithm sub w in
      elim answer.0 [
        | scheduled r ↦ reserve_step sub r.suggested_clusters answer.1
        | refused e ↦ record {
          actions = record_scheduling_failure sub (error_message e);
          world = answer.1;
          started = none;
        }
      ]

  -- scheduleOne for the key that the queue returns, `none` when the queue is shut down; a key whose
  -- subscription is not found by `get` is left. The key is marked as done on every return.
  unfoldable pub schedule_one :
      (Subscription S → W → Outcome × W)
      → (ScheduleError → Message)
      → (String → Result (Subscription S))
      → Option String
      → W
      → Scheduled
  schedule_one algorithm error_message get none w = record {
    actions = [];
    world = w;
    started = none;
  }
  schedule_one algorithm error_message get (some k) w =
      let rest : Scheduled = elim (get k) [
        | err e ↦ record { actions = []; world = w; started = none }
        | ok sub ↦ schedule_subscription algorithm error_message sub w
      ] in
      record rest { actions = rest.actions ++ done k ∷ [] }
