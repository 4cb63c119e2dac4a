-- ===== src/Scheduler/Permit/Handshake.antt =====
-- What RunPermitPlugins and WaitOnPermit (pkg/scheduler/framework/runtime/framework.go) promise
-- together.
use text.Mathlib.TextPositions.{eq_refl}
use clusternet.Prelude.{
  String, Option-cases, inl, inr, ◌≡◌, ◌≢◌, ◌&&◌, refl, Bool, true, false, ◌||◌, Option, none, some,
  List, [], ◌∷◌, put, arith, same_text, find-put, is_key-put, is_key,
}
use clusternet.Prelude.Int.{ℤ}
use clusternet.Scheduler.Status.{
  Status, Code, success, wait, same_code, code_of, is_unschedulable, with_failed_plugin, as_status,
}
use clusternet.Scheduler.Api.{Subscription}
use clusternet.Scheduler.Plugins.{PermitPlugin}
use clusternet.Scheduler.Filter.{failing}
use clusternet.Scheduler.Waiting.{
  WaitingMap, WaitingSubscription, new_waiting_subscription, add, get, receive, Event, handle_all,
}
use clusternet.Scheduler.Waiting.Signals.{allows, success_needs_allow}
use clusternet.Scheduler.Permit.{
  State, cap_timeout, Round, pass, ask, refuse, round_of, permit_end, permit_loop,
  run_permit_plugins, judge_signal, wait_on_permit,
}

-- What a round says of the answer that it is made from.
abbrev Agrees : Option Status → Round → Type 0
Agrees o pass = same_code (code_of o) wait ≡ false
Agrees o ask = code_of o ≡ wait
Agrees o (refuse s) = s.code ≢ wait

round_of-Agrees : (name : String) (o : Option Status) → Agrees o (round_of name o)
unfolding round_of code_of is_unschedulable with_failed_plugin as_status
round_of-Agrees name none = refl
round_of-Agrees name (some s) = ground arith

get-add : (w : WaitingSubscription) (m : WaitingMap) → get w.uid (add w m) ≡ some w
unfolding get add
get-add w m = simp (find-put, eq_refl)

-- A call that returns nil has received a signal of success.
wait_on_permit-success :
    {W S : Type 0} (sub : Subscription S) (events : List Event) (st : State W)
    (w : WaitingSubscription) {final : State W}
    → get sub.uid st.waiting ≡ some w
    → wait_on_permit sub events st ≡ some (none, final)
    → (s : Status) × ((handle_all events w).signal ≡ some s) × (s.code ≡ success)
unfolding wait_on_permit receive judge_signal failing
wait_on_permit-success sub events st w found done =
    elim (Option-cases (handle_all events w).signal) [
      | inl e ↦ absurd (ground arith)
      | inr (s, e) ↦ (s, e, ground arith)
    ]

module _ {W S : Type 0} (sub : Subscription S) (clusters : List String) where
  -- The plugin `k` is called and answers Wait.
  abbrev pub asks_to_wait : String → List (PermitPlugin W (Subscription S)) → W → Bool
  asks_to_wait k [] w = false
  asks_to_wait k (pl ∷ pls) w =
      let (status, timeout, w') = pl.permit sub clusters w in
      (same_code (code_of status) wait && same_text pl.name k) || asks_to_wait k pls w'

  -- What is true of a run that ends with the status Wait, started with some wait times: it adds a
  -- waiting subscription whose pending plugins are those and the ones that ask to wait.
  abbrev Waits :
      List (PermitPlugin W (Subscription S))
      → List (String × ℤ)
      → State W
      → Option Status × State W
      → Type 0
  Waits pls times st r =
      code_of r.0 ≡ wait
      → (all_times : List (String × ℤ)) × (r.1.waiting
          ≡ add (new_waiting_subscription sub.uid all_times) st.waiting)
        × ((k : String)
            → (is_key k times || asks_to_wait k pls st.world) ≡ true
            → is_key k all_times ≡ true)

  permit_loop-Waits :
      (pls : List (PermitPlugin W (Subscription S))) (times : List (String × ℤ)) (code : Code)
      (st : State W)
      → Waits pls times st (permit_loop sub clusters pls times code st)
  unfolding permit_loop permit_end code_of
  permit_loop-Waits [] times wait st e = (times, refl, λ k h. ground arith)
  permit_loop-Waits [] times code st e = cc
  permit_loop-Waits (pl ∷ pls) times code st e =
      resume (round_of pl.name (pl.permit sub clusters st.world).0)
        (round_of-Agrees pl.name (pl.permit sub clusters st.world).0) (permit_loop-Waits pls) e
    where
      next : State W
      next = record st { world = (pl.permit sub clusters st.world).2 }

      longer : List (String × ℤ)
      longer = put pl.name (cap_timeout (pl.permit sub clusters st.world).1) times

      resume :
          (r : Round)
          → Agrees (pl.permit sub clusters st.world).0 r
          → ((t : List (String × ℤ)) (c : Code) (st' : State W)
              → Waits pls t st' (permit_loop sub clusters pls t c st'))
          → Waits (pl ∷ pls) times st (elim r [
            | pass ↦ permit_loop sub clusters pls times code next
            | ask ↦ permit_loop sub clusters pls longer wait next
            | refuse s ↦ (some s, next)
          ])
      resume pass a ih q =
          let (all_times, added, keys) = ih times code next q in
          (all_times, added, λ k h. keys k (ground arith))
      resume ask a ih q =
          let (all_times, added, keys) = ih longer wait next q in
          (
            all_times,
            added,
            λ k h. keys k (
                ground (
                  arith,
                  is_key-put k pl.name (cap_timeout (pl.permit sub clusters st.world).1) times,
                )),
          )
      resume (refuse s) a ih q = absurd (a q)

  -- If RunPermitPlugins ends with Wait, WaitOnPermit returns nil only when each plugin that asked to
  -- wait has called Allow among the events before the signal.
  pub permit_needs_allow :
      (pls : List (PermitPlugin W (Subscription S))) (st : State W) (events : List Event)
      {final : State W}
      → code_of (run_permit_plugins sub clusters pls st).0 ≡ wait
      → wait_on_permit sub events (run_permit_plugins sub clusters pls st).1 ≡ some (none, final)
      → (k : String) → asks_to_wait k pls st.world ≡ true
      → allows k events ≡ true
  unfolding run_permit_plugins new_waiting_subscription
  permit_needs_allow pls st events waited done k asked =
      let (all_times, added, keys) = permit_loop-Waits pls [] success st waited in
      let start = new_waiting_subscription sub.uid all_times in
      let (s, signalled, good) =
        wait_on_permit-success sub events (run_permit_plugins sub clusters pls st).1 start
          (rw added (get-add start st.waiting)) done in
      success_needs_allow sub.uid all_times events k signalled good (keys k asked)
