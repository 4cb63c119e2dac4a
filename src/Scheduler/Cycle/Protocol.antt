-- ===== src/Scheduler/Cycle/Protocol.antt =====
-- The order of the actions of a scheduling cycle of pkg/scheduler/scheduler.go, as a state machine.
use mathlib.Core.Path.{subst}
use text.Mathlib.TextPositions.{eq_refl}
use clusternet.Prelude.{
  sym, ℕ, ◌≡◌, refl, String, true, false, Option, none, some, List, [], ◌∷◌, ◌++◌, if◌then◌else◌,
  Message, arith, about, same_text,
}
use clusternet.Scheduler.Api.{Subscription}
use clusternet.Scheduler.Status.{failure_of, Status, is_success, code_of}
use clusternet.Scheduler.Filter.{failing}
use clusternet.Scheduler.Schedule.{Outcome, ScheduleError, scheduled, refused}
use clusternet.Scheduler.Filter.Verdict.{failing-success, failing-failure}
use clusternet.Scheduler.Cycle.{
  Framework, Action, truncate_message, reserve, permit, await, pre_bind, bind, unreserve, post_bind,
  warn, announce, add_rate_limited, is_permitted, bind_error, record_scheduling_failure, roll_back,
  bind_step, pre_bind_step, binding_cycle, permit_step, reserve_step, schedule_subscription,
}

-- Where a cycle is. Bound and Requeued are its ends.
pub data Phase : Type 0 where
  idle reserved permitted permit_waited prepared placed announced finished : Phase
  broken undone warned requeued stuck : Phase

-- The phase after an action, `stuck` where the protocol does not allow it. `key` is that of the subscription.
abbrev pub advance : String → Phase → Action → Phase
advance key idle (reserve s) = if is_success s then reserved else broken
advance key idle (warn m) = warned
advance key reserved (permit s) = if is_permitted s then permitted else broken
advance key permitted (await s) = if is_success s then permit_waited else broken
advance key permit_waited (pre_bind s) = if is_success s then prepared else broken
advance key prepared (bind s) = if is_success s then placed else broken
advance key placed announce = announced
advance key announced post_bind = finished
advance key broken unreserve = undone
advance key undone (warn m) = warned
advance key warned (add_rate_limited k) = if same_text k key then requeued else stuck
advance key _ _ = stuck

abbrev pub run : String → Phase → List Action → Phase
run key p [] = p
run key p (a ∷ rest) = run key (advance key p a) rest

-- The subscription is bound, or everything is undone and it is in the queue again.
pub data IsSettled : Phase → Type 0 where
  bound : IsSettled finished
  again : IsSettled requeued

bind_error-none : (o : Option Status) → bind_error o ≡ none → is_success o ≡ true
unfolding bind_error failing is_success code_of
bind_error-none none h = refl
bind_error-none (some s) h = ground arith

bind_error-some : (o : Option Status) (m : Message) → bind_error o ≡ some m → is_success o ≡ false
unfolding bind_error failing is_success code_of
bind_error-some none m h = cc
bind_error-some (some s) m h = ground arith

is_permitted-none :
    (o : Option Status)
    → (if is_permitted o then none else failing o) ≡ none
    → is_permitted o ≡ true
unfolding is_permitted failing is_success code_of
is_permitted-none none h = refl
is_permitted-none (some s) h = ground arith

is_permitted-some :
    (o : Option Status) (s : Status)
    → (if is_permitted o then none else failing o) ≡ some s
    → is_permitted o ≡ false
unfolding is_permitted
is_permitted-some o s h = ground arith

after :
    (key : String) (p q : Phase) (a : Action) (rest : List Action)
    → advance key p a ≡ q
    → IsSettled (run key q rest)
    → IsSettled (run key p (a ∷ rest))
after key p q a rest e h = subst (λ x. IsSettled (run key x rest)) (sym e) h

-- A warning and the subscription's own key in the queue end a cycle.
warned_first :
    (key : String) (m : List ℕ) → IsSettled (run key idle (warn m ∷ add_rate_limited key ∷ []))
warned_first key m = rw (eq_refl key) again

requeues :
    (key : String) (m : List ℕ)
    → IsSettled (run key broken (unreserve ∷ warn m ∷ add_rate_limited key ∷ []))
requeues key m = rw (eq_refl key) again

module _ {W S : Type 0} (key : Subscription S → String) (render : Message → List ℕ)
    (fwk : Framework W S) (sub : Subscription S) where
  abbrev cycle : List String → W → List Action
  cycle clusters w = (binding_cycle key render fwk sub clusters w).0

  -- The actions, with those of the binding cycle where one is started, in any later world.
  abbrev pub Settles : Phase → List Action → Option (List String) → Type 0
  Settles p actions none = IsSettled (run (key sub) p actions)
  Settles p actions (some clusters) =
      (w : W) → IsSettled (run (key sub) p (actions ++ cycle clusters w))

  after-Settles :
      (p q : Phase) (a : Action) (rest : List Action) (o : Option (List String))
      → advance (key sub) p a ≡ q
      → Settles q rest o
      → Settles p (a ∷ rest) o
  after-Settles p q a rest none e h = after (key sub) p q a rest e h
  after-Settles p q a rest (some clusters) e h =
      λ w. after (key sub) p q a (rest ++ cycle clusters w) e (h w)

  roll_back-IsSettled :
      (clusters : List String) (e : Message) (w : W)
      → IsSettled (run (key sub) broken (roll_back key render fwk sub clusters e w).0)
  unfolding roll_back record_scheduling_failure
  roll_back-IsSettled clusters e w = requeues (key sub) (truncate_message (render e))

  bind_step-IsSettled :
      (clusters : List String) (w : W)
      → IsSettled (run (key sub) prepared (bind_step key render fwk sub clusters w).0)
  unfolding bind_step
  bind_step-IsSettled clusters w = go (bind_error answer.0) refl
    where
      answer : Option Status × W
      answer = fwk.run_bind_plugins sub clusters w

      go :
          (o : Option Message)
          → bind_error answer.0 ≡ o
          → IsSettled (run (key sub) prepared (bind_step key render fwk sub clusters w).0)
      go none e =
          rw (bind_step, e)
            (after (key sub) prepared placed (bind answer.0) (announce ∷ post_bind ∷ [])
              (rw (bind_error-none answer.0 e) refl) bound)
      go (some m) e =
          let rejected = about "binding rejected: %w" "" m in
          rw (bind_step, e)
            (after (key sub) prepared broken (bind answer.0)
              (roll_back key render fwk sub clusters rejected answer.1).0
              (rw (bind_error-some answer.0 m e) refl)
              (roll_back-IsSettled clusters rejected answer.1))

  pre_bind_step-IsSettled :
      (clusters : List String) (w : W)
      → IsSettled (run (key sub) permit_waited (pre_bind_step key render fwk sub clusters w).0)
  unfolding pre_bind_step
  pre_bind_step-IsSettled clusters w = go (failing answer.0) refl
    where
      answer : Option Status × W
      answer = fwk.run_pre_bind_plugins sub clusters w

      go :
          (o : Option Status)
          → failing answer.0 ≡ o
          → IsSettled (run (key sub) permit_waited (pre_bind_step key render fwk sub clusters w).0)
      go none e =
          rw (pre_bind_step, e)
            (after (key sub) permit_waited prepared (pre_bind answer.0)
              (bind_step key render fwk sub clusters answer.1).0
              (rw (failing-success answer.0 e) refl) (bind_step-IsSettled clusters answer.1))
      go (some s) e =
          rw (pre_bind_step, e)
            (after (key sub) permit_waited broken (pre_bind answer.0)
              (roll_back key render fwk sub clusters (failure_of s) answer.1).0
              (rw (failing-failure answer.0 s e) refl)
              (roll_back-IsSettled clusters (failure_of s) answer.1))

  binding_cycle-IsSettled :
      (clusters : List String) (w : W)
      → IsSettled (run (key sub) permitted (binding_cycle key render fwk sub clusters w).0)
  unfolding binding_cycle
  binding_cycle-IsSettled clusters w = go (failing answer.0) refl
    where
      answer : Option Status × W
      answer = fwk.wait_on_permit sub w

      go :
          (o : Option Status)
          → failing answer.0 ≡ o
          → IsSettled (run (key sub) permitted (binding_cycle key render fwk sub clusters w).0)
      go none e =
          rw (binding_cycle, e)
            (after (key sub) permitted permit_waited (await answer.0)
              (pre_bind_step key render fwk sub clusters answer.1).0
              (rw (failing-success answer.0 e) refl) (pre_bind_step-IsSettled clusters answer.1))
      go (some s) e =
          rw (binding_cycle, e)
            (after (key sub) permitted broken (await answer.0)
              (roll_back key render fwk sub clusters (failure_of s) answer.1).0
              (rw (failing-failure answer.0 s e) refl)
              (roll_back-IsSettled clusters (failure_of s) answer.1))

  permit_step-Settles :
      (clusters : List String) (w : W)
      → let s = permit_step key render fwk sub clusters w in Settles reserved s.actions s.started
  unfolding permit_step
  permit_step-Settles clusters w =
      go (if is_permitted answer.0 then none else failing answer.0) refl
    where
      answer : Option Status × W
      answer = fwk.run_permit_plugins sub clusters w

      go :
          (o : Option Status)
          → (if is_permitted answer.0 then none else failing answer.0) ≡ o
          → let s = permit_step key render fwk sub clusters w in
            Settles reserved s.actions s.started
      go none e =
          rw (permit_step, e)
            (after-Settles reserved permitted (permit answer.0) [] (some clusters)
              (rw (is_permitted-none answer.0 e) refl) (λ w'. binding_cycle-IsSettled clusters w'))
      go (some s) e =
          rw (permit_step, e)
            (after-Settles reserved broken (permit answer.0)
              (roll_back key render fwk sub clusters (failure_of s) answer.1).0 none
              (rw (is_permitted-some answer.0 s e) refl)
              (roll_back-IsSettled clusters (failure_of s) answer.1))

  reserve_step-Settles :
      (clusters : List String) (w : W)
      → let s = reserve_step key render fwk sub clusters w in Settles idle s.actions s.started
  unfolding reserve_step
  reserve_step-Settles clusters w = go (failing answer.0) refl
    where
      answer : Option Status × W
      answer = fwk.run_reserve_plugins_reserve sub clusters w

      go :
          (o : Option Status)
          → failing answer.0 ≡ o
          → let s = reserve_step key render fwk sub clusters w in Settles idle s.actions s.started
      go none e =
          let next = permit_step key render fwk sub clusters answer.1 in
          rw (reserve_step, e)
            (after-Settles idle reserved (reserve answer.0) next.actions next.started
              (rw (failing-success answer.0 e) refl) (permit_step-Settles clusters answer.1))
      go (some s) e =
          rw (reserve_step, e)
            (after-Settles idle broken (reserve answer.0)
              (roll_back key render fwk sub clusters (failure_of s) answer.1).0 none
              (rw (failing-failure answer.0 s e) refl)
              (roll_back-IsSettled clusters (failure_of s) answer.1))

  -- Whatever the plugins answer, a cycle for a subscription follows the protocol of the phases. It
  -- ends with the subscription bound after Reserve, Permit, WaitOnPermit, PreBind and Bind, each with
  -- a status that lets it go on, in this order, and then PostBind; or with a warning and the
  -- subscription's key in the queue again, and when Reserve was called, Unreserve was called once before
  -- that. The binding cycle may start in any world.
  pub schedule_subscription-Settles :
      (algorithm : Subscription S → W → Outcome × W) (error_message : ScheduleError → Message)
      (w : W)
      → let s = schedule_subscription key render fwk algorithm error_message sub w in
        Settles idle s.actions s.started
  unfolding schedule_subscription record_scheduling_failure
  schedule_subscription-Settles algorithm error_message w = go (algorithm sub w).0 refl
    where
      go :
          (o : Outcome)
          → (algorithm sub w).0 ≡ o
          → let s = schedule_subscription key render fwk algorithm error_message sub w in
            Settles idle s.actions s.started
      go (scheduled r) e =
          rw (schedule_subscription, e)
            (reserve_step-Settles r.suggested_clusters (algorithm sub w).1)
      go (refused x) e =
          rw (schedule_subscription, e)
            (warned_first (key sub) (truncate_message (render (error_message x))))
