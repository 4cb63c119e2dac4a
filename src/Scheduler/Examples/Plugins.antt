-- ===== src/Scheduler/Examples/Plugins.antt =====
-- The plugins' loops of pkg/scheduler/framework at the test data.
use clusternet.Prelude.{
  ◌≡◌, ◌⊎◌, refl, String, true, false, some, List, [], ◌∷◌, All, arith, Option,
}
use clusternet.Prelude.Int.{ℤ, pos, ◌≤ℤ◌}
use clusternet.Scheduler.Status.{
  Status, code_of, is_success, new_status, success, skip, is_unschedulable,
}
use clusternet.Scheduler.Merge.{merge, precedence}
use clusternet.Scheduler.Merge.Precedence.{merge_highest}
use clusternet.Scheduler.Filter.{run_filter_plugins, failing}
use clusternet.Scheduler.Filter.Verdict.{all_pass, is_success-run_filter_plugins}
use clusternet.Scheduler.Framework.{run_bind_plugins}
use clusternet.Scheduler.Framework.Bind.{Skip, Binds, after_binds, run_bind_plugins_cases}
use clusternet.Scheduler.Waiting.{
  new_waiting_subscription, handle_all, allowed, Event, WaitingSubscription, handle, allow, send,
  get, add, receive,
}
use clusternet.Scheduler.Waiting.Signals.{allows}
use clusternet.Scheduler.Permit.{
  State, run_permit_plugins, wait_on_permit, round_of, permit_end, judge_signal,
}
use clusternet.Scheduler.Permit.Handshake.{permit_needs_allow}
use clusternet.Scheduler.Score.{
  run_score_plugins, weight_of, score_error, score_error_at, normalize_all, normalize_one,
  weigh_all, apply_weight, score_list, is_valid_score,
}
use clusternet.Scheduler.Score.Weights.{KeepsNames, HasWeight, Columns, run_score_plugins-Columns}
use clusternet.Scheduler.Plugins.{ReservePlugin}
use clusternet.Scheduler.Api.{Subscription}
use clusternet.Scheduler.Examples.{
  World, web, near, far, tainted, name_of, refusal, no_taints, by_name, skipper, binder, gate,
  small_framework,
}

abbrev statuses : List (String × Status)
statuses = ("A", new_status success []) ∷ ("B", refusal) ∷ []

abbrev swapped : List (String × Status)
swapped = ("B", refusal) ∷ ("A", new_status success []) ∷ []

merge_highest_example :
    All
      (λ (p : String × Status). precedence p.1.code ≤ℤ precedence (code_of (merge statuses)))
      statuses
merge_highest_example = merge_highest statuses

is_success-run_filter_plugins_example :
    is_success (merge (run_filter_plugins false [] web tainted (no_taints ∷ [])))
    ≡ all_pass false [] web tainted (no_taints ∷ [])
is_success-run_filter_plugins_example =
    is_success-run_filter_plugins false [] web tainted (no_taints ∷ [])

run_bind_plugins_cases_example :
    Skip web ("near" ∷ []) (skipper ∷ binder ∷ []) []
      × (code_of (run_bind_plugins web ("near" ∷ []) (skipper ∷ binder ∷ []) []).0 ≡ skip)
      × ((run_bind_plugins web ("near" ∷ []) (skipper ∷ binder ∷ []) []).1
          ≡ after_binds web ("near" ∷ []) (skipper ∷ binder ∷ []) [])
    ⊎ Binds web
        ("near" ∷ [])
        (skipper ∷ binder ∷ [])
        []
        (run_bind_plugins web ("near" ∷ []) (skipper ∷ binder ∷ []) [])
run_bind_plugins_cases_example = run_bind_plugins_cases web ("near" ∷ []) (skipper ∷ binder ∷ []) []

abbrev two_waits : List (String × ℤ)
two_waits = ("A", pos 5) ∷ ("B", pos 7) ∷ []

abbrev both_allow : List Event
both_allow = allowed "B" ∷ allowed "A" ∷ []

abbrev refused_first : WaitingSubscription
refused_first = record { uid = "1"; pending_plugins = []; signal = some refusal }

abbrev initial : State World
initial = record { world = []; waiting = [] }

permit_needs_allow_example : allows "Gate" (allowed "Gate" ∷ []) ≡ true
unfolding run_permit_plugins wait_on_permit handle_all new_waiting_subscription code_of round_of
    new_status is_unschedulable permit_end get add receive handle allow send judge_signal
permit_needs_allow_example =
    permit_needs_allow web ("near" ∷ []) (gate ∷ []) initial (allowed "Gate" ∷ []) refl refl "Gate"
      refl

by_name_keeps : KeepsNames by_name
by_name_keeps normalize h scores = absurd (ground arith)

by_name_weight : HasWeight small_framework.score_plugin_weight by_name
unfolding weight_of
by_name_weight = (ground arith, ground arith)

run_score_plugins-Columns_example :
    Columns name_of small_framework.score_plugin_weight [] web
      (near ∷ far ∷ [])
      (by_name ∷ [])
      (run_score_plugins name_of small_framework.score_plugin_weight [] web
        (near ∷ far ∷ [])
        (by_name ∷ [])).0
unfolding run_score_plugins score_error score_error_at failing normalize_all normalize_one weigh_all
    apply_weight score_list is_valid_score
run_score_plugins-Columns_example =
    run_score_plugins-Columns name_of small_framework.score_plugin_weight [] web (near ∷ far ∷ [])
      (by_name ∷ []) (by_name_keeps, tt) (by_name_weight, tt) refl

abbrev waiting_web : State World
waiting_web = record { world = []; waiting = ("1", new_waiting_subscription "1" two_waits) ∷ [] }

abbrev call_reserve : ReservePlugin World (Subscription String) → World → Option Status × World
call_reserve pl w = pl.reserve web ("near" ∷ []) w

abbrev report_reserve : ReservePlugin World (Subscription String) → Status → Status
report_reserve pl s = s
