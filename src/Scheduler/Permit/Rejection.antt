-- ===== src/Scheduler/Permit/Rejection.antt =====
-- WaitOnPermit of pkg/scheduler/framework/runtime/framework.go after a rejection.
use clusternet.Prelude.{◌≡◌, refl, String, none, some, List, [], ◌∷◌, Message}
use clusternet.Scheduler.Status.{
  unschedulable, new_status, with_failed_plugin, is_unschedulable, code_of,
}
use clusternet.Scheduler.Filter.{failing}
use clusternet.Scheduler.Api.{Subscription}
use clusternet.Scheduler.Waiting.{
  WaitingSubscription, Event, rejected, handle, handle_all, reject, send, receive, get,
  remove_waiting,
}
use clusternet.Scheduler.Waiting.Signals.{signal-handle_all}
use clusternet.Scheduler.Permit.{State, judge_signal, wait_on_permit}

first_signal :
    (w : WaitingSubscription) (plugin_name : String) (msg : Message) (events : List Event)
    → w.signal ≡ none
    → (handle_all (rejected plugin_name msg ∷ events) w).signal
      ≡ some (with_failed_plugin plugin_name (new_status unschedulable (msg ∷ [])))
unfolding handle_all handle reject send
first_signal w plugin_name msg events fresh =
    signal-handle_all events (reject plugin_name msg w) (rw (reject, send, fresh) refl)

judge_signal-rejected :
    (plugin_name : String) (msg : Message)
    → let status = with_failed_plugin plugin_name (new_status unschedulable (msg ∷ [])) in
      judge_signal status ≡ some status
unfolding judge_signal failing with_failed_plugin new_status is_unschedulable code_of
judge_signal-rejected plugin_name msg = refl

-- If the first thing that happens to a waiting subscription is a Reject, WaitOnPermit returns an
-- Unschedulable status with the message and the plugin of that call, whatever is called after it, and
-- the subscription waits no longer.
pub wait_on_permit-rejected :
    {W S : Type 0} (sub : Subscription S) (st : State W) (w : WaitingSubscription)
    (plugin_name : String) (msg : Message) (events : List Event)
    → get sub.uid st.waiting ≡ some w
    → w.signal ≡ none
    → wait_on_permit sub (rejected plugin_name msg ∷ events) st
      ≡ some (
        some (with_failed_plugin plugin_name (new_status unschedulable (msg ∷ []))),
        record st { waiting = remove_waiting sub.uid st.waiting },
      )
unfolding wait_on_permit receive
wait_on_permit-rejected sub st w plugin_name msg events found fresh =
    rw
      (
        wait_on_permit,
        found,
        receive,
        first_signal w plugin_name msg events fresh,
        judge_signal-rejected plugin_name msg,
      )
      refl
