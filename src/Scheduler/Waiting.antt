-- ===== src/Scheduler/Waiting.antt =====
-- pkg/scheduler/framework/runtime/waiting_susbcriptions_map.go: a subscription that waits in the
-- permit phase. The mutex makes each method one step. The channel `s` of capacity one is
-- `signal`; a timer that fires calls Reject, and so is a call of it like any other.
pub mod Signals
use clusternet.Prelude.{
  ℕ, String, Bool, Option, none, some, List, [], ◌∷◌, map, Message, find, put, remove, text,
}
use clusternet.Prelude.Int.{ℤ}
use clusternet.Scheduler.Status.{Status, success, unschedulable, new_status, with_failed_plugin}

-- The pending plugins, with the wait time of each and whether its timer still runs.
pub record Timer : Type 0 where
  pub wait_time : ℤ
  pub running : Bool

pub record WaitingSubscription : Type 0 where
  pub uid : String
  pub pending_plugins : List (String × Timer)
  pub signal : Option Status

-- A non-blocking send.
unfoldable pub send : Status → WaitingSubscription → WaitingSubscription
send status w = elim w.signal [ none ↦ record w { signal = some status } | some _ ↦ w ]

abbrev start_timers : List (String × ℤ) → List (String × Timer)
start_timers [] = []
start_timers ((k, v) ∷ m) = (k, record { wait_time = v; running = Bool.true }) ∷ start_timers m

abbrev stop_timers : List (String × Timer) → List (String × Timer)
stop_timers [] = []
stop_timers ((k, t) ∷ m) = (k, record t { running = Bool.false }) ∷ stop_timers m

unfoldable pub new_waiting_subscription : String → List (String × ℤ) → WaitingSubscription
new_waiting_subscription uid plugins_max_wait_time = record {
  uid = uid;
  pending_plugins = start_timers plugins_max_wait_time;
  signal = none;
}

-- GetPendingPlugins.
unfoldable pub get_pending_plugins : WaitingSubscription → List String
get_pending_plugins w = map (λ (p : String × Timer). p.0) w.pending_plugins

unfoldable pub allow : String → WaitingSubscription → WaitingSubscription
allow plugin_name w =
    let w' = record w { pending_plugins = remove plugin_name w.pending_plugins } in
    elim w'.pending_plugins [ [] ↦ send (new_status success []) w' | _ ∷ _ ↦ w' ]

unfoldable pub reject : String → Message → WaitingSubscription → WaitingSubscription
reject plugin_name msg w =
    send (with_failed_plugin plugin_name (new_status unschedulable (msg ∷ [])))
      (record w { pending_plugins = stop_timers w.pending_plugins })

-- `<-w.s`, for a signal that is there.
unfoldable pub receive : WaitingSubscription → Option (Status × WaitingSubscription)
receive w = elim w.signal [ none ↦ none | some status ↦ some (status, record w { signal = none }) ]

-- waitingSubscriptionsMap, by UID.
abbrev pub WaitingMap : Type 0
WaitingMap = List (String × WaitingSubscription)

unfoldable pub add : WaitingSubscription → WaitingMap → WaitingMap
add w m = put w.uid w m

unfoldable pub remove_waiting : String → WaitingMap → WaitingMap
remove_waiting uid m = remove uid m

unfoldable pub get : String → WaitingMap → Option WaitingSubscription
get uid m = find uid m

-- iterate, with a callback that leaves what it was called for as it wants it.
unfoldable pub iterate : (WaitingSubscription → WaitingSubscription) → WaitingMap → WaitingMap
iterate callback [] = []
iterate callback ((uid, w) ∷ m) = (uid, callback w) ∷ iterate callback m

-- RejectWaitingSubscription.
unfoldable pub reject_waiting_subscription : String → WaitingMap → WaitingMap
reject_waiting_subscription uid m = elim (get uid m) [
  | none ↦ m
  | some w ↦ put uid (reject "" (text "removed") w) m
]

-- What other goroutines do to a waiting subscription.
pub data Event : Type 0 where
  allowed : String → Event
  rejected : String → Message → Event

unfoldable pub handle : Event → WaitingSubscription → WaitingSubscription
handle (allowed p) w = allow p w
handle (rejected p msg) w = reject p msg w

unfoldable pub handle_all : List Event → WaitingSubscription → WaitingSubscription
handle_all [] w = w
handle_all (e ∷ es) w = handle_all es (handle e w)
