-- ===== src/Registration/Requests.antt =====
-- pkg/controllers/clusters/clusterregistrationrequest: the requests are taken off the work queue, and
-- their status is written, again after a conflict. The lister and the client are parameters.
pub mod Writes
use clusternet.Prelude.{
  ℕ, zero, suc, String, Bool, true, false, Option, none, some, List, [], ◌∷◌, ◌≡◌, Result, ok, err,
  Message, text,
}
use clusternet.Hub.Api.{Failure, not_found, other, Answer, found, failed}
use clusternet.Registration.{
  Meta, RequestSpec, RequestStatus, Request, ApprovedResult, request_denied, request_approved,
  request_failed,
}

-- An error of UpdateStatus: IsConflict, or another one.
pub data Refusal : Type 0 where
  conflict : Message → Refusal
  refusal : Message → Refusal

abbrev pub refusal_message : Refusal → Message
refusal_message (conflict m) = m
refusal_message (refusal m) = m

-- RetryOnConflict on a closure that keeps a state `S`.
abbrev pub Retry : Type 0 → Type 0
Retry S = (S → Option Refusal × S) → S → Option Refusal × S

-- What UpdateCRRStatus writes.
unfoldable pub cleared : RequestStatus → RequestStatus
cleared status = record status {
  dedicated_token = none;
  managed_cluster_name = "";
  dedicated_namespace = "";
  ca_certificate = none;
}

unfoldable pub checked_status : RequestStatus → Result RequestStatus
checked_status status = elim status.result [
  | none ↦ ok status
  | some request_approved ↦ ok status
  | some request_denied ↦ elim status.error_message [
    | none ↦ err (text "for non approved requests, must set an error message")
    | some m ↦ ok (cleared status)
  ]
  | some request_failed ↦ elim status.error_message [
    | none ↦ err (text "for non approved requests, must set an error message")
    | some m ↦ ok (cleared status)
  ]
]

module _ {W : Type 0} (update_status : Request → W → Option Refusal × W)
    (get : W → String → Answer Request) where
  -- The closure of UpdateCRRStatus. Its state is the request that it writes next.
  unfoldable pub try_update_status : RequestStatus → Request × W → Option Refusal × (Request × W)
  try_update_status status (crr, w) =
      let written = record crr { status = status } in
      let (answer, w') = update_status written w in
      elim answer [
        | none ↦ (none, (written, w'))
        | some e ↦ elim (get w' crr.meta.name) [
          | found updated ↦ (some e, (updated, w'))
          | failed f ↦ (some e, (written, w'))
        ]
      ]

  unfoldable pub update_crr_status :
      Retry (Request × W) → Request → RequestStatus → W → Option Message × W
  update_crr_status retry crr status w = elim (checked_status status) [
    | err e ↦ (some e, w)
    | ok status' ↦
        let (answer, st) = retry (try_update_status status') (crr, w) in
        elim answer [ none ↦ (none, st.1) | some e ↦ (some (refusal_message e), st.1) ]
  ]

module _ {W : Type 0} (split : String → Result (String × String))
    (get : W → String → Answer Request) (handler : Request → W → Option Message × W) where
  -- The controller's syncHandler. The kind and the version that it fills in are left out.
  unfoldable pub sync_request : String → W → Option Message × W
  sync_request key w = elim (split key) [
    | err e ↦ (none, w)
    | ok (ns, name) ↦ elim (get w name) [
      | failed not_found ↦ (none, w)
      | failed (other m) ↦ (some m, w)
      | found crr ↦ handler crr w
    ]
  ]
