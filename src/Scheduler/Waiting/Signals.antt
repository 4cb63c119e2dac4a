-- ===== src/Scheduler/Waiting/Signals.antt =====
-- Which signal a waiting subscription gets
-- (pkg/scheduler/framework/runtime/waiting_susbcriptions_map.go).
use text.Mathlib.TextEquality.{eq_iff}
use clusternet.Prelude.{
  String, ◌≡◌, refl, ◌∙◌, ◌⊎◌, inl, inr, Bool, true, false, none, some, List, [], ◌∷◌, map, arith,
  remove, contains, ◌||◌, same_text, All, is_key, is_key-remove,
}
use clusternet.Prelude.Int.{ℤ}
use clusternet.Scheduler.Status.{Status, success, new_status, with_failed_plugin}
use clusternet.Scheduler.Waiting.{
  Timer, WaitingSubscription, send, allow, reject, Event, allowed, rejected, handle, handle_all,
  new_waiting_subscription, stop_timers, start_timers,
}

-- Some event of the list is a call of Allow for the plugin.
abbrev pub allows : String → List Event → Bool
allows k [] = false
allows k (allowed p ∷ es) = same_text p k || allows k es
allows k (rejected p msg ∷ es) = allows k es

is_key-stop : (k : String) (m : List (String × Timer)) → is_key k (stop_timers m) ≡ is_key k m
is_key-stop k [] = refl
is_key-stop k ((i, t) ∷ m) = rw (is_key-stop k m)

is_key-start : (k : String) (m : List (String × ℤ)) → is_key k (start_timers m) ≡ is_key k m
is_key-start k [] = refl
is_key-start k ((i, t) ∷ m) = rw (is_key-start k m)

pending-send :
    (s : Status) (w : WaitingSubscription) → (send s w).pending_plugins ≡ w.pending_plugins
unfolding send
pending-send s w = ground arith

pending-allow :
    (p : String) (w : WaitingSubscription)
    → (allow p w).pending_plugins ≡ remove p w.pending_plugins
unfolding allow send
pending-allow p w = ground arith

-- A plugin that no event allows stays pending.
stays_pending :
    (k : String) (es : List Event) (w : WaitingSubscription)
    → allows k es ≡ false
    → is_key k (handle_all es w).pending_plugins ≡ is_key k w.pending_plugins
unfolding handle_all handle reject
stays_pending k [] w h = refl
stays_pending k (allowed p ∷ es) w h =
    ground (
      arith,
      stays_pending k es (allow p w),
      pending-allow p w,
      is_key-remove k p w.pending_plugins,
    )
stays_pending k (rejected p msg ∷ es) w h =
    stays_pending k es (reject p msg w) h ∙ rw (pending-send _ _) (is_key-stop k w.pending_plugins)

-- A signal of success is there only while no plugin is pending.
abbrev IsSound : WaitingSubscription → Type 0
IsSound w = (s : Status) → w.signal ≡ some s → s.code ≡ success → w.pending_plugins ≡ []

handle-IsSound : (e : Event) (w : WaitingSubscription) → IsSound w → IsSound (handle e w)
unfolding handle allow reject send with_failed_plugin new_status
handle-IsSound (allowed p) w h s e c = ground (arith, h s)
handle-IsSound (rejected p msg) w h s e c = ground (arith, h s)

handle_all-IsSound :
    (es : List Event) (w : WaitingSubscription) → IsSound w → IsSound (handle_all es w)
unfolding handle_all
handle_all-IsSound [] w h = h
handle_all-IsSound (e ∷ es) w h = handle_all-IsSound es (handle e w) (handle-IsSound e w h)

-- A waiting subscription gets the signal Success only if every plugin that it waits for has
-- allowed it, in whatever order other goroutines call Allow and Reject.
pub success_needs_allow :
    (uid : String) (waits : List (String × ℤ)) (es : List Event) (k : String) {s : Status}
    → (handle_all es (new_waiting_subscription uid waits)).signal ≡ some s
    → s.code ≡ success
    → is_key k waits ≡ true
    → allows k es ≡ true
unfolding new_waiting_subscription
success_needs_allow uid waits es k {s} e c h =
    let start = new_waiting_subscription uid waits in
    let fresh : IsSound start = λ t none_yet _. cc in
    ground (
      arith,
      handle_all-IsSound es start fresh s e c,
      stays_pending k es start,
      is_key-start k waits,
    )

signal-handle :
    (e : Event) (w : WaitingSubscription) {s : Status}
    → w.signal ≡ some s
    → (handle e w).signal ≡ some s
unfolding handle allow reject send
signal-handle (allowed p) w h = ground arith
signal-handle (rejected p msg) w h = ground arith

-- The first signal stays: no later call of Allow or Reject changes it before it is received.
pub signal-handle_all :
    (es : List Event) (w : WaitingSubscription) {s : Status}
    → w.signal ≡ some s
    → (handle_all es w).signal ≡ some s
unfolding handle_all
signal-handle_all [] w h = h
signal-handle_all (e ∷ es) w h = signal-handle_all es (handle e w) (signal-handle e w h)

remove_all : List String → List (String × Timer) → List (String × Timer)
remove_all [] m = m
remove_all (p ∷ ps) m = remove_all ps (remove p m)

remove_all-nil : (ps : List String) → remove_all ps [] ≡ []
unfolding remove_all
remove_all-nil [] = refl
remove_all-nil (p ∷ ps) = remove_all-nil ps

remove_all-cons :
    (ps : List String) (k : String) (t : Timer) (m : List (String × Timer))
    → contains k ps ≡ true
    → remove_all ps ((k, t) ∷ m) ≡ remove_all ps m
unfolding remove_all
remove_all-cons [] k t m h = cc
remove_all-cons (p ∷ ps) k t m h =
    ground (arith, eq_iff p k, eq_iff k p, remove_all-cons ps k t (remove p m))

remove_all-covered :
    (ps : List String) (m : List (String × Timer))
    → All (λ (q : String × Timer). contains q.0 ps ≡ true) m
    → remove_all ps m ≡ []
remove_all-covered ps [] h = remove_all-nil ps
remove_all-covered ps ((k, t) ∷ m) h = remove_all-cons ps k t m h.0 ∙ remove_all-covered ps m h.1

allow_cases :
    (p : String) (w : WaitingSubscription)
    → w.signal ≡ none
    → ((allow p w).signal ≡ some (new_status success [])) ⊎ ((allow p w).signal ≡ none)
unfolding allow send
allow_cases p w h = ground arith

allow_last :
    (p : String) (w : WaitingSubscription)
    → w.signal ≡ none
    → remove p w.pending_plugins ≡ []
    → (allow p w).signal ≡ some (new_status success [])
unfolding allow send
allow_last p w h e = ground arith

allow_all-signal :
    (p : String) (ps : List String) (w : WaitingSubscription)
    → w.signal ≡ none
    → remove_all (p ∷ ps) w.pending_plugins ≡ []
    → (handle_all (map allowed (p ∷ ps)) w).signal ≡ some (new_status success [])
unfolding handle_all handle remove_all
allow_all-signal p [] w h e = allow_last p w h e
allow_all-signal p (q ∷ ps) w h e = elim (allow_cases p w h) [
  | inl done ↦ signal-handle_all (map allowed (q ∷ ps)) (allow p w) done
  | inr open_still ↦ allow_all-signal q ps (allow p w) open_still (rw (pending-allow p w) e)
]

-- If plugins are allowed, all pending ones among them, and none rejects, the signal is Success.
pub handle_all-success :
    (p : String) (ps : List String) (w : WaitingSubscription)
    → w.signal ≡ none
    → All (λ (q : String × Timer). contains q.0 (p ∷ ps) ≡ true) w.pending_plugins
    → (handle_all (map allowed (p ∷ ps)) w).signal ≡ some (new_status success [])
handle_all-success p ps w h covered =
    allow_all-signal p ps w h (remove_all-covered (p ∷ ps) w.pending_plugins covered)
