-- ===== src/Registration/Requests/Writes.antt =====
-- UpdateCRRStatus of pkg/controllers/clusters/clusterregistrationrequest under conflicts.
use clusternet.Prelude.{
  ℕ, zero, suc, String, Option, none, some, ◌≡◌, refl, sym, ◌∙◌, ap, ok, Message, pair_of,
}
use clusternet.Hub.Api.{Answer, found, failed}
use clusternet.Registration.{Request, RequestStatus}
use mathlib.Core.Path.{subst}
use clusternet.Registration.Requests.{
  Refusal, conflict, refusal, Retry, checked_status, try_update_status, update_crr_status,
  refusal_message,
}

-- Running a closure until it returns nil or an error other than a conflict, `suc n` times at most.
unfoldable pub retried : {S : Type 0} → ℕ → (S → Option Refusal × S) → S → Option Refusal × S
retried zero f s = f s
retried (suc n) f s =
    let rest = retried n f (f s).1 in
    elim (f s).0 [ none ↦ f s | some (refusal m) ↦ f s | some (conflict m) ↦ rest ]

-- RetryOnConflict runs its closure at least once, and again after a conflict, up to some number of
-- times.
abbrev pub IsRetrying : {S : Type 0} → Retry S → Type 0
IsRetrying {S} retry = (f : S → Option Refusal × S) (s : S) → (n : ℕ) × (retry f s ≡ retried n f s)

last_of :
    {S : Type 0} (f : S → Option Refusal × S) (s : S) (p rest : Option Refusal × S)
    → f s ≡ p
    → (s' : S) × (rest ≡ f s')
    → (s' : S) × ((elim p.0 as (λ _. Option Refusal × S) [
      | none ↦ p
      | some r ↦ elim r as (λ _. Option Refusal × S) [ refusal m ↦ p | conflict m ↦ rest ]
    ])
        ≡ f s')
last_of f s (none, t) rest e ih = (s, sym e)
last_of f s (some (refusal m), t) rest e ih = (s, sym e)
last_of f s (some (conflict m), t) rest e ih = ih

retried_last :
    {S : Type 0} (n : ℕ) (f : S → Option Refusal × S) (s : S) → (s' : S) × (retried n f s ≡ f s')
unfolding retried
retried_last zero f s = (s, refl)
retried_last (suc n) f s = last_of f s (f s) (retried n f (f s).1) refl (retried_last n f (f s).1)

module _ {W : Type 0} (update_status : Request → W → Option Refusal × W)
    (get : W → String → Answer Request) where
  -- A request was written with this status, and that was the last call.
  abbrev pub IsWritten : RequestStatus → W → Type 0
  IsWritten status w' =
      (crr : Request) × (u : W) × (update_status (record crr { status = status }) u ≡ (none, w'))

  tried_update :
      (status : RequestStatus) (st : Request × W)
      → (try_update_status update_status get status st).0 ≡ none
      → IsWritten status (try_update_status update_status get status st).1.1
  unfolding try_update_status
  tried_update status (crr, w) = go (update_status (record crr { status = status }) w).0 refl
    where
      Goal : Type 0
      Goal =
          (try_update_status update_status get status (crr, w)).0 ≡ none
          → IsWritten status (try_update_status update_status get status (crr, w)).1.1

      again :
          (e : Refusal) (a : Answer Request)
          → (update_status (record crr { status = status }) w).0 ≡ some e
          → get (update_status (record crr { status = status }) w).1 crr.meta.name ≡ a
          → Goal
      again e (found updated) d c = rw (try_update_status, d, c) (λ h. cc)
      again e (failed f) d c = rw (try_update_status, d, c) (λ h. cc)

      go : (o : Option Refusal) → (update_status (record crr { status = status }) w).0 ≡ o → Goal
      go none e = rw (try_update_status, e) (λ h. (crr, w, pair_of (update_status _ w) e))
      go (some r) e = again r (get _ crr.meta.name) e refl

  tried :
      (status : RequestStatus) (st : Request × W) (p : Option Refusal × (Request × W)) (w' : W)
      → p ≡ try_update_status update_status get status st
      → p.0 ≡ none
      → p.1.1 ≡ w'
      → IsWritten status w'
  tried status st p w' e a b =
      subst (IsWritten status) (ap (λ q. q.1.1) (sym e) ∙ b)
        (tried_update status st (ap (λ q. q.0) (sym e) ∙ a))

  answered :
      (p : Option Refusal × (Request × W)) (w' : W)
      → ◌≡◌ {A = Option Message × W}
          (elim p.0 as (λ _. Option Message × W) [
            | none ↦ (none, p.1.1)
            | some e ↦ (some (refusal_message e), p.1.1)
          ])
          (none, w')
      → (p.0 ≡ none) × (p.1.1 ≡ w')
  answered (none, st) w' h = (refl, ap (λ q. q.1) h)
  answered (some e, st) w' h = cc

  -- When UpdateCRRStatus reports no error, its last call wrote the checked status.
  pub update_crr_status-IsWritten :
      (retry : Retry (Request × W)) (crr : Request) (status checked : RequestStatus) (w w' : W)
      → IsRetrying retry
      → checked_status status ≡ ok checked
      → update_crr_status update_status get retry crr status w ≡ (none, w')
      → IsWritten checked w'
  unfolding update_crr_status
  update_crr_status-IsWritten retry crr status checked w w' retrying c =
      rw (update_crr_status, c)
        λ h.
          let tries = retrying (try_update_status update_status get checked) (crr, w) in
          let last = retried_last tries.0 (try_update_status update_status get checked) (crr, w) in
          let answer =
            answered (retry (try_update_status update_status get checked) (crr, w)) w' h in
          tried checked last.0 (retry (try_update_status update_status get checked) (crr, w)) w'
            (tries.1 ∙ last.1) answer.0 answer.1
