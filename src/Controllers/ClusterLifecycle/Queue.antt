-- ===== src/Controllers/ClusterLifecycle/Queue.antt =====
-- The cluster lifecycle controller over time: keys that come back, and clusters that fall silent.
use clusternet.Prelude.{
  ℕ, ◌<◌, String, Bool, true, false, Option, none, some, [], ◌∷◌, ◌≡◌, ◌⊎◌, inl, inr, refl, Result,
  ok, err, sym, Message, arith,
}
use mathlib.Core.Path.{subst, ap}
use clusternet.Hub.Api.{Failure, Answer, found, failure_message}
use clusternet.Hub.Bases.{message_of}
use clusternet.Prelude.Int.{ℤ, pos, negsuc, ltb_ℤ, ◌+ℤ◌, ◌≤ℤ◌}
use clusternet.Controllers.ClusterLifecycle.{
  Condition, ClusterStatus, Cluster, get_cluster_monitor_grace_period, get_cluster_condition,
  probe_timestamp, generate_cluster_ready_condition, same_condition, with_condition,
  update_cluster_condition, sync_handler, add_rate_limited, forget, add_after,
  process_next_work_item,
}

-- Nobody is said to be well.
abbrev pub IsUnwell : ClusterStatus → Type 0
IsUnwell status = (status.readyz ≡ false) × (status.livez ≡ false) × (status.healthz ≡ false)

-- A condition that says that the cluster is Unknown since `now`.
abbrev pub SaysUnknown : ℕ → Condition → Type 0
SaysUnknown now c =
    (c.condition_type ≡ "Ready") × (c.status ≡ "Unknown") × (c.last_transition_time ≡ now)

past : (a b c : ℕ) (g : ℤ) → a < b → pos b +ℤ g ≤ℤ pos c → ltb_ℤ (pos a +ℤ g) (pos c) ≡ true
unfolding ◌+ℤ◌
past a b c (pos n) h k = ground arith
past a b c (negsuc n) h k = ground arith

generate-SaysUnknown :
    (now : ℕ) (cluster : Cluster)
    → ltb_ℤ
        (pos (probe_timestamp cluster) +ℤ get_cluster_monitor_grace_period cluster.status)
        (pos now)
      ≡ true
    → (c : Condition) × (generate_cluster_ready_condition now cluster ≡ some c) × SaysUnknown now c
unfolding generate_cluster_ready_condition
generate-SaysUnknown now cluster h = go cluster.status.last_observed_time refl
  where
    go :
        (o : Option ℕ)
        → cluster.status.last_observed_time ≡ o
        → (c : Condition) × (generate_cluster_ready_condition now cluster ≡ some c)
          × SaysUnknown now c
    go none e = rw (generate_cluster_ready_condition, h, e) (_, refl, (refl, refl, refl))
    go (some t) e = rw (generate_cluster_ready_condition, h, e) (_, refl, (refl, refl, refl))

with_condition-IsUnwell :
    (cluster : Cluster) (c : Condition)
    → c.status ≡ "Unknown"
    → IsUnwell (with_condition cluster c).status
unfolding with_condition
with_condition-IsUnwell cluster c e = rw e (refl, refl, refl)

module _ {W : Type 0} (update_status : Cluster → W → Option Failure × W)
    (split : String → Result (String × String)) (get : W → String → String → Answer Cluster) where
  -- The key of a cluster that is listed, and whose grace period is positive in int64, comes back to
  -- the queue, at once or after the grace period.
  pub process_next_work_item-requeues :
      (now : ℕ) (key ns name : String) (cluster : Cluster) (w : W)
      → split key ≡ ok (ns, name)
      → get w ns name ≡ found cluster
      → ltb_ℤ (pos 0) (get_cluster_monitor_grace_period cluster.status) ≡ true
      → let calls = (process_next_work_item (sync_handler update_status split get now) key w).0 in
        (calls ≡ add_rate_limited key ∷ [])
        ⊎ (calls
            ≡ forget key ∷ add_after key (get_cluster_monitor_grace_period cluster.status) ∷ [])
  unfolding process_next_work_item sync_handler
  process_next_work_item-requeues now key ns name cluster w e d h =
      go (update_cluster_condition update_status now cluster w).0 refl
    where
      Goal : Type 0
      Goal =
          ((process_next_work_item (sync_handler update_status split get now) key w).0
            ≡ add_rate_limited key ∷ [])
          ⊎ ((process_next_work_item (sync_handler update_status split get now) key w).0
              ≡ forget key ∷ add_after key (get_cluster_monitor_grace_period cluster.status) ∷ [])

      go :
          (o : Option Message) → (update_cluster_condition update_status now cluster w).0 ≡ o → Goal
      go (some m) c = rw (process_next_work_item, sync_handler, e, d, c) (inl refl)
      go none c = rw (process_next_work_item, sync_handler, e, d, c, h) (inr refl)

  handled_after :
      (now : ℕ) (key ns name : String) (cluster : Cluster) (w : W) (g : ℤ)
      → split key ≡ ok (ns, name)
      → get w ns name ≡ found cluster
      → (sync_handler update_status split get now key w).0 ≡ ok g
      → get_cluster_monitor_grace_period cluster.status ≡ g
  unfolding sync_handler
  handled_after now key ns name cluster w g e d =
      go (update_cluster_condition update_status now cluster w).0 refl
    where
      go :
          (o : Option Message)
          → (update_cluster_condition update_status now cluster w).0 ≡ o
          → (sync_handler update_status split get now key w).0 ≡ ok g
          → get_cluster_monitor_grace_period cluster.status ≡ g
      go (some m) c = rw (sync_handler, e, d, c) (λ h. cc)
      go none c = rw (sync_handler, e, d, c) (λ h. cc h)

  -- The condition is in the status; or the status with the condition, and nobody well, is written
  -- without an error; or the handler returns the error of this write.
  abbrev pub Records : Cluster → Condition → W → Result ℤ × W → Type 0
  Records cluster c w p =
      (same_condition (get_cluster_condition cluster.status "Ready") c ≡ true)
      ⊎ (IsUnwell (with_condition cluster c).status
          × ((with_condition cluster c).status.conditions ≡ c ∷ [])
          × ((update_status (with_condition cluster c) w ≡ (none, p.1))
              ⊎ ((f : Failure) × (update_status (with_condition cluster c) w ≡ (some f, p.1))
                  × (p.0 ≡ err (failure_message f)))))

  handled_with :
      (now : ℕ) (key ns name : String) (cluster : Cluster) (w w' : W) (answer : Option Message)
      → split key ≡ ok (ns, name)
      → get w ns name ≡ found cluster
      → update_cluster_condition update_status now cluster w ≡ (answer, w')
      → sync_handler update_status split get now key w ≡ elim answer as (λ _. Result ℤ × W) [
        | none ↦ (ok (get_cluster_monitor_grace_period cluster.status), w')
        | some e ↦ (err e, w')
      ]
  unfolding sync_handler
  handled_with now key ns name cluster w w' answer e d c =
      rw (sync_handler, e, d)
        (ap
          (λ p. elim p.0 as (λ _. Result ℤ × W) [
            | none ↦ (ok (get_cluster_monitor_grace_period cluster.status), p.1)
            | some e ↦ (err e, p.1)
          ])
          c)

  condition_written :
      (now : ℕ) (cluster : Cluster) (c : Condition) (w w' : W) (o : Option Failure)
      → generate_cluster_ready_condition now cluster ≡ some c
      → same_condition (get_cluster_condition cluster.status "Ready") c ≡ false
      → update_status (with_condition cluster c) w ≡ (o, w')
      → update_cluster_condition update_status now cluster w ≡ (message_of o, w')
  unfolding update_cluster_condition
  condition_written now cluster c w w' o made b u =
      rw (update_cluster_condition, made, b) (ap (λ p. (message_of p.0, p.1)) u)

  handled-Records :
      (now : ℕ) (key ns name : String) (cluster : Cluster) (c : Condition) (w : W)
      → split key ≡ ok (ns, name)
      → get w ns name ≡ found cluster
      → generate_cluster_ready_condition now cluster ≡ some c
      → c.status ≡ "Unknown"
      → Records cluster c w (sync_handler update_status split get now key w)
  unfolding with_condition
  handled-Records now key ns name cluster c w e d made unknown =
      go (same_condition (get_cluster_condition cluster.status "Ready") c) refl
    where
      Goal : Type 0
      Goal = Records cluster c w (sync_handler update_status split get now key w)

      unwell : IsUnwell (with_condition cluster c).status
      unwell = with_condition-IsUnwell cluster c unknown

      writes :
          (p : Option Failure × W)
          → same_condition (get_cluster_condition cluster.status "Ready") c ≡ false
          → update_status (with_condition cluster c) w ≡ p
          → Goal
      writes (o, w') b u =
          let done =
            handled_with now key ns name cluster w w' (message_of o) e d
              (condition_written now cluster c w w' o made b u) in
          subst (Records cluster c w) (sym done) (of o u)
        where
          of :
              (o : Option Failure)
              → update_status (with_condition cluster c) w ≡ (o, w')
              → Records cluster c w (elim (message_of o) as (λ _. Result ℤ × W) [
                | none ↦ (ok (get_cluster_monitor_grace_period cluster.status), w')
                | some e ↦ (err e, w')
              ])
          of none u = inr (unwell, refl, inl u)
          of (some f) u = inr (unwell, refl, inr (f, u, refl))

      go : (b : Bool) → same_condition (get_cluster_condition cluster.status "Ready") c ≡ b → Goal
      go true b = inl b
      go false b = writes (update_status (with_condition cluster c) w) b refl

  -- A cluster that was handled without an error after its last report, and is handled again after
  -- the int64 duration that this returned, without another report, has the condition Unknown of
  -- this time in its status, or it is written with it and with nobody said to be well, or the error
  -- of this write is returned.
  pub sync_handler-SaysUnknown :
      (t0 t1 : ℕ) (g : ℤ) (key ns name : String) (cluster : Cluster) (w w1 : W)
      → split key ≡ ok (ns, name)
      → get w ns name ≡ found cluster
      → get w1 ns name ≡ found cluster
      → probe_timestamp cluster < t0
      → (sync_handler update_status split get t0 key w).0 ≡ ok g
      → pos t0 +ℤ g ≤ℤ pos t1
      → (c : Condition) × SaysUnknown t1 c
        × Records cluster c w1 (sync_handler update_status split get t1 key w1)
  sync_handler-SaysUnknown t0 t1 g key ns name cluster w w1 e d d1 silent first later =
      let same = handled_after t0 key ns name cluster w g e d first in
      let made =
        generate-SaysUnknown t1 cluster
          (rw same (past (probe_timestamp cluster) t0 t1 g silent later)) in
      (made.0, made.2, handled-Records t1 key ns name cluster made.0 w1 e d1 made.1 made.2.1)
