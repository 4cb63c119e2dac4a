-- ===== src/Registration/Reports/Writes.antt =====
-- What pkg/agent/status_manager.go has written when its wait ends.
use clusternet.Prelude.{
  String, Bool, true, false, Option, none, some, List, [], ◌∷◌, ◌≡◌, refl, sym, Result, ok, err,
  Message,
}
use clusternet.Hub.Api.{cluster_id_label}
use clusternet.Utils.Resources.{Trying, Backoff}
use clusternet.Utils.Resources.Attempts.{IsTrying, backoff_last}
use clusternet.Registration.Requests.{conflict, refusal}
use mathlib.Core.Path.{subst}
use clusternet.Registration.Reports.{
  Reported, Written, accepted, refused, Parent, Managing, read_again, try_report, report,
  update_cluster_status,
}

module _ {W S : Type 0} (parent : Parent W S) where
  -- A status that was collected was written to a cluster, and the answer is the cluster that is kept.
  abbrev pub IsReport : Reported S → W → Type 0
  IsReport kept w' =
      (cluster : Reported S) × (s : S) × (u : W) × ((parent.collected u).0 ≡ some s)
      × ((parent.update_status (record cluster { status = some s }) (parent.collected u).1).0
          ≡ accepted kept)
      × ((parent.update_status (record cluster { status = some s }) (parent.collected u).1).1 ≡ w')

  read_again-fails :
      (cluster : Reported S) (m : Message) (w : W) → (read_again parent cluster m w).0 ≡ false
  unfolding read_again
  read_again-fails cluster m w = go (parent.get cluster.name w).0 refl
    where
      go :
          (r : Result (Reported S))
          → (parent.get cluster.name w).0 ≡ r
          → (read_again parent cluster m w).0 ≡ false
      go (err e) d = rw (read_again, d) refl
      go (ok c) d = rw (read_again, d) refl

  try_report-IsReport :
      (st : Trying (Managing W S))
      → (try_report parent st).0 ≡ true
      → IsReport (try_report parent st).1.world.0 (try_report parent st).1.world.1
  unfolding try_report
  try_report-IsReport st = go (parent.collected st.world.1).0 refl
    where
      Goal : Type 0
      Goal =
          (try_report parent st).0 ≡ true
          → IsReport (try_report parent st).1.world.0 (try_report parent st).1.world.1

      wrote :
          (s : S) (r : Written S)
          → (parent.collected st.world.1).0 ≡ some s
          → (parent.update_status
              (record st.world.0 { status = some s })
              (parent.collected st.world.1).1).0
            ≡ r
          → Goal
      wrote s (refused (refusal m)) c d = rw (try_report, c, d) (λ h. cc)
      wrote s (refused (conflict m)) c d =
          rw
            (
              try_report,
              c,
              d,
              read_again-fails (record st.world.0 { status = some s }) m
                  (parent.update_status (record st.world.0 { status = some s })
                    (parent.collected st.world.1).1).1,
            )
            (λ h. cc)
      wrote s (accepted kept) c d =
          rw (try_report, c, d) (λ h. (st.world.0, s, st.world.1, c, d, refl))

      go : (o : Option S) → (parent.collected st.world.1).0 ≡ o → Goal
      go none c = rw (try_report, c) (λ h. cc)
      go (some s) c = wrote s _ c refl

  -- The manager keeps the cluster that a report answered with.
  abbrev pub IsKept : Bool × (Option (Reported S) × W) → Type 0
  IsKept p = (kept : Reported S) × (p.1.0 ≡ some kept) × IsReport kept p.1.1

  report-IsKept :
      (backoff : Backoff (Managing W S)) (cluster : Reported S) (w : W)
      → IsTrying backoff
      → (report parent backoff cluster w).0 ≡ true
      → IsKept (report parent backoff cluster w)
  unfolding report
  report-IsKept backoff cluster w trying h =
      let start : Trying (Managing W S) = record { world = (cluster, w); last_error = none } in
      let last = backoff_last backoff trying (try_report parent) start in
      (
        (backoff (try_report parent) start).1.world.0,
        refl,
        subst (λ (p : Bool × Trying (Managing W S)). p.0 ≡ true → IsReport p.1.world.0 p.1.world.1)
            (sym last.1) (try_report-IsReport last.0) h,
      )

  -- If the wait makes an attempt, a report of the status that ends well has written a status that
  -- was collected, and the manager keeps the cluster that the parent answered with.
  pub update_cluster_status-IsKept :
      (backoff : Backoff (Managing W S)) (id : String) (managed : Option (Reported S)) (w : W)
      → IsTrying backoff
      → (update_cluster_status parent backoff id managed w).0 ≡ true
      → IsKept (update_cluster_status parent backoff id managed w)
  unfolding update_cluster_status
  update_cluster_status-IsKept backoff id (some cluster) w trying h =
      report-IsKept backoff cluster w trying h
  update_cluster_status-IsKept backoff id none w trying h =
      go (parent.list ((cluster_id_label, id) ∷ []) w).0 refl h
    where
      go :
          (r : Result (List (Reported S)))
          → (parent.list ((cluster_id_label, id) ∷ []) w).0 ≡ r
          → (update_cluster_status parent backoff id none w).0 ≡ true
          → IsKept (update_cluster_status parent backoff id none w)
      go (err e) d = rw (update_cluster_status, d) (λ h. cc)
      go (ok []) d = rw (update_cluster_status, d) (λ h. cc)
      go (ok (cluster ∷ more)) d =
          rw (update_cluster_status, d) (report-IsKept backoff cluster _ trying)
