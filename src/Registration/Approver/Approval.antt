-- ===== src/Registration/Approver/Approval.antt =====
-- What an approved request stands for in pkg/hub/approver.
use clusternet.Prelude.{
  String, Bool, true, false, Option, none, some, List, [], ◌∷◌, ◌≡◌, refl, sym, ap, ◌∙◌,
  same_text_iff, Result, ok, err, Message, text, try_value, try_none, ok_inj,
}
use clusternet.Utils.Resources.{Trying}
use clusternet.Utils.Resources.Attempts.{IsTrying, backoff_last}
use clusternet.Registration.{
  Namespace, ServiceAccount, Secret, ManagedCluster, Request, name_prefix,
}
use clusternet.Registration.Requests.{update_crr_status, checked_status}
use clusternet.Registration.Requests.Writes.{IsRetrying, IsWritten, update_crr_status-IsWritten}
use mathlib.Core.Path.{subst}
use mathlib.Core.Option.{some-injective}
use clusternet.Registration.Approver.Made.{
  IsNamespace, IsCluster, IsAccount, create_namespace-IsNamespace, create_managed_cluster-IsCluster,
  create_service_account-IsAccount,
}
use clusternet.Registration.Approver.Grants.{
  BindsClusterRoles, BindsRoles, binding-BindsClusterRoles, binding-BindsRoles,
}
use clusternet.Registration.Approver.{
  Hub, trim_prefix, approved_status, binding_cluster_roles_if_needed, binding_role_if_needed,
  try_credentials, get_credentials_for_child_cluster, finish, handle_cluster_registration_requests,
}

module _ {W A : Type 0} where
  tried_value :
      (r : Result A × W) (k : A → W → Option Message × W) (w' : W)
      → try_value r k ≡ (none, w')
      → (a : A) × (w : W) × (r ≡ (ok a, w)) × (k a w ≡ (none, w'))
  tried_value (err e, w) k w' h = cc
  tried_value (ok a, w) k w' h = (a, w, refl, h)

tried_none :
    {W : Type 0} (r : Option Message × W) (k : W → Option Message × W) (w' : W)
    → try_none r k ≡ (none, w')
    → (w : W) × (r ≡ (none, w)) × (k w ≡ (none, w'))
tried_none (some e, w) k w' h = cc
tried_none (none, w) k w' h = (w, refl, h)

module _ {W : Type 0} (hub : Hub W) where
  -- The secret is the first one of the service account, as they were read.
  abbrev pub IsCredential : String → String → Secret → Type 0
  IsCredential name namespace s =
      (u : W) × (u' : W) × (account : ServiceAccount) × (secret_name : String) × (more : List
        String)
      × ((hub.get_service_account namespace name u).0 ≡ ok account)
      × (account.secrets ≡ secret_name ∷ more)
      × ((hub.get_secret namespace secret_name u').0 ≡ ok s)

  -- The roles of a service account were bound, and the request was written as approved, with the
  -- service account's credentials.
  abbrev pub IsGranted : Request → Namespace → ManagedCluster → ServiceAccount → W → W → Type 0
  IsGranted crr ns mc sa w w' =
      (s : Secret) × (w1 : W) × (w2 : W) × BindsClusterRoles hub sa.meta.name sa.meta.namespace
        crr.spec.cluster_id w w1
      × BindsRoles hub sa.meta.name sa.meta.namespace w1 w2
      × IsCredential sa.meta.name sa.meta.namespace s
      × IsWritten hub.update_status hub.get_request (approved_status ns.meta.name mc.meta.name s) w'

  -- A namespace, a ManagedCluster and a service account in it were listed or made, in this order.
  abbrev pub IsApproved : Request → W → W → Type 0
  IsApproved crr w w' =
      (ns : Namespace) × (mc : ManagedCluster) × (sa : ServiceAccount) × (w1 : W) × (w2 : W)
      × (w3 : W) × IsNamespace hub crr.spec.cluster_id crr.spec.cluster_name ns w w1
      × IsCluster hub ns.meta.name crr.spec mc w1 w2
      × IsAccount hub ns.meta.name crr.spec.cluster_name crr.spec.cluster_id sa w2 w3
      × IsGranted crr ns mc sa w3 w'

  -- What a try leaves: the secret when it ends the wait, an error when it does not.
  abbrev Holds : String → String → Bool × Trying (Option Secret × W) → Type 0
  Holds name namespace p =
      (p.0 ≡ true → (s : Secret) × (p.1.world.0 ≡ some s) × IsCredential name namespace s)
      × (p.0 ≡ false → (e : Message) × (p.1.last_error ≡ some e))

  abbrev Leaves : String → String → Trying (Option Secret × W) → Type 0
  Leaves name namespace st = Holds name namespace (try_credentials hub name namespace st)

  secret_read :
      (name namespace : String) (st : Trying (Option Secret × W)) (sa : ServiceAccount)
      (secret_name : String) (more : List String) (r : Result Secret)
      → (hub.get_service_account namespace name st.world.1).0 ≡ ok sa
      → sa.secrets ≡ secret_name ∷ more
      → (hub.get_secret namespace secret_name
          (hub.get_service_account namespace name st.world.1).1).0
        ≡ r
      → Leaves name namespace st
  unfolding try_credentials
  secret_read name namespace st sa secret_name more (err e) a b c =
      rw (try_credentials, a, b, c) ((λ h. cc), (λ h. (e, refl)))
  secret_read name namespace st sa secret_name more (ok s) a b c =
      rw (try_credentials, a, b, c)
        ((λ h. (s, refl, (_, _, sa, secret_name, more, a, b, c))), (λ h. cc))

  leaves : (name namespace : String) (st : Trying (Option Secret × W)) → Leaves name namespace st
  unfolding try_credentials
  leaves name namespace st = go (hub.get_service_account namespace name st.world.1).0 refl
    where
      secrets :
          (sa : ServiceAccount) (names : List String)
          → (hub.get_service_account namespace name st.world.1).0 ≡ ok sa
          → sa.secrets ≡ names
          → Leaves name namespace st
      secrets sa [] a b = rw (try_credentials, a, b) ((λ h. cc), (λ h. (_, refl)))
      secrets sa (n ∷ more) a b = secret_read name namespace st sa n more _ a b refl

      go :
          (r : Result ServiceAccount)
          → (hub.get_service_account namespace name st.world.1).0 ≡ r
          → Leaves name namespace st
      go (err e) a = rw (try_credentials, a) ((λ h. cc), (λ h. (e, refl)))
      go (ok sa) a = secrets sa sa.secrets a refl

  unread :
      (st : Trying (Option Secret × W)) {e : Message} {C : Type 0} {s : Secret} {w' : W}
      → st.last_error ≡ some e
      → ◌≡◌ {A = Result (Option Secret) × W}
          (elim st.last_error as (λ _. Result (Option Secret) × W) [
            | some e ↦ (err e, st.world.1)
            | none ↦ (ok none, st.world.1)
          ])
          (ok (some s), w')
      → C
  unread st d = rw d (λ h. cc)

  read_of :
      (name namespace : String) (p : Bool × Trying (Option Secret × W)) (s : Secret) (w' : W)
      → Holds name namespace p
      → ◌≡◌ {A = Result (Option Secret) × W}
          (elim p.0 as (λ _. Result (Option Secret) × W) [
            | true ↦ (ok p.1.world.0, p.1.world.1)
            | false ↦ elim p.1.last_error as (λ _. Result (Option Secret) × W) [
              | some e ↦ (err e, p.1.world.1)
              | none ↦ (ok none, p.1.world.1)
            ]
          ])
          (ok (some s), w')
      → IsCredential name namespace s
  read_of name namespace (true, st) s w' left h =
      let kept = left.0 refl in
      let e : some kept.0 ≡ some s = sym kept.1 ∙ ok_inj (ap (λ q. q.0) h) in
      subst (IsCredential name namespace) (some-injective _ _ e) kept.2
  read_of name namespace (false, st) s w' left h = let kept = left.1 refl in unread st kept.1 h

  credentials-IsCredential :
      (name namespace : String) (s : Secret) (w w' : W)
      → IsTrying hub.credentials_backoff
      → get_credentials_for_child_cluster hub name namespace w ≡ (ok (some s), w')
      → IsCredential name namespace s
  unfolding get_credentials_for_child_cluster
  credentials-IsCredential name namespace s w w' trying h =
      let start : Trying (Option Secret × W) = record { world = (none, w); last_error = none } in
      let last =
        backoff_last hub.credentials_backoff trying (try_credentials hub name namespace) start in
      read_of name namespace (hub.credentials_backoff (try_credentials hub name namespace) start) s
        w' (subst (Holds name namespace) (sym last.1) (leaves name namespace last.0)) h

  credentials_sent :
      (crr : Request) (ns : Namespace) (mc : ManagedCluster) (sa : ServiceAccount)
      (w w1 w2 w3 w' : W) (secret : Option Secret)
      → IsTrying hub.credentials_backoff
      → IsRetrying hub.retry
      → binding_cluster_roles_if_needed hub sa.meta.name sa.meta.namespace crr.spec.cluster_id w
        ≡ (none, w1)
      → binding_role_if_needed hub sa.meta.name sa.meta.namespace w1 ≡ (none, w2)
      → get_credentials_for_child_cluster hub sa.meta.name sa.meta.namespace w2 ≡ (ok secret, w3)
      → ◌≡◌ {A = Option Message × W}
          (elim secret as (λ _. Option Message × W) [
            | none ↦ (some (text "nil pointer dereference"), w3)
            | some s ↦
                update_crr_status hub.update_status hub.get_request hub.retry crr
                  (approved_status ns.meta.name mc.meta.name s)
                  w3
          ])
          (none, w')
      → IsGranted crr ns mc sa w w'
  unfolding checked_status approved_status
  credentials_sent crr ns mc sa w w1 w2 w3 w' none trying retrying a b c = λ h. cc
  credentials_sent crr ns mc sa w w1 w2 w3 w' (some s) trying retrying a b c = λ h. (
    s,
    w1,
    w2,
    binding-BindsClusterRoles hub sa.meta.name sa.meta.namespace crr.spec.cluster_id w w1 a,
    binding-BindsRoles hub sa.meta.name sa.meta.namespace w1 w2 b,
    credentials-IsCredential sa.meta.name sa.meta.namespace s w2 w3 trying c,
    update_crr_status-IsWritten hub.update_status hub.get_request hub.retry crr
        (approved_status ns.meta.name mc.meta.name s) (approved_status ns.meta.name mc.meta.name s)
        w3 w' retrying refl h,
  )

  finish-IsGranted :
      (crr : Request) (ns : Namespace) (mc : ManagedCluster) (sa : ServiceAccount) (w w' : W)
      → IsTrying hub.credentials_backoff
      → IsRetrying hub.retry
      → finish hub crr ns mc sa w ≡ (none, w')
      → IsGranted crr ns mc sa w w'
  unfolding finish
  finish-IsGranted crr ns mc sa w w' trying retrying h =
      let bound =
        tried_none
          (binding_cluster_roles_if_needed hub sa.meta.name sa.meta.namespace crr.spec.cluster_id w)
          _ w' h in
      let bound' = tried_none _ _ w' bound.2 in
      let read = tried_value _ _ w' bound'.2 in
      credentials_sent crr ns mc sa w bound.0 bound'.0 read.1 w' read.0 trying retrying bound.1
        bound'.1 read.2 read.3

  -- A request without a result, whose name is the prefix and its cluster ID, and that is handled
  -- without an error, is approved: a namespace, a ManagedCluster and a service account are the
  -- first ones that are listed for the cluster ID, or are made, the latter two in the namespace;
  -- what is made has the labels or the specification of the cluster; each default role and cluster
  -- role is ensured, and a binding of it to the service account; and the last write is the approved
  -- status with the names and the first secret of the service account. The waits make an attempt,
  -- and try again after a conflict.
  pub handle-IsApproved :
      (crr : Request) (w w' : W)
      → IsTrying hub.credentials_backoff
      → IsRetrying hub.retry
      → trim_prefix crr.meta.name name_prefix ≡ crr.spec.cluster_id
      → crr.status.result ≡ none
      → handle_cluster_registration_requests hub crr w ≡ (none, w')
      → IsApproved crr w w'
  unfolding handle_cluster_registration_requests
  handle-IsApproved crr w w' trying retrying named fresh =
      rw
        (
          handle_cluster_registration_requests,
          (same_text_iff (trim_prefix crr.meta.name name_prefix) crr.spec.cluster_id).1 named,
          fresh,
        )
        λ h.
          let made = tried_value _ _ w' h in
          let made' = tried_value _ _ w' made.3 in
          let made'' = tried_value _ _ w' made'.3 in
          (
            made.0,
            made'.0,
            made''.0,
            made.1,
            made'.1,
            made''.1,
            create_namespace-IsNamespace hub crr.spec.cluster_id crr.spec.cluster_name made.0 w
                made.1 made.2,
            create_managed_cluster-IsCluster hub made.0.meta.name crr.spec made'.0 made.1 made'.1
                made'.2,
            create_service_account-IsAccount hub made.0.meta.name crr.spec.cluster_name
                crr.spec.cluster_id made''.0 made'.1 made''.1 made''.2,
            finish-IsGranted crr made.0 made'.0 made''.0 made''.1 w' trying retrying made''.3,
          )
