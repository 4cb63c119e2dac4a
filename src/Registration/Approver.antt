-- ===== src/Registration/Approver.antt =====
-- pkg/hub/approver/approver.go: a request to register is approved. The lists are those of the listers,
-- which are nil when they are empty. Roles are made at the same time in the source, one role each.
pub mod Objects
pub mod Approval
pub mod Made
pub mod Grants
pub mod Labels
use Prim.Native.String.{len, slice}
use package.text.Mathlib.Text.{starts_with}
use clusternet.Prelude.{
  String, Bool, true, false, Option, none, some, List, [], ◌∷◌, same_text, find, Result, ok, err,
  Message, text, about, named, join, if◌then◌else◌, try_none, try_value,
}
use clusternet.Hub.Api.{
  Answer, aggregate, created_by_label, cluster_id_label, cluster_name_label, put_all, label,
}
use clusternet.Utils.Resources.{Trying, Backoff}
use clusternet.Registration.{
  Meta, Namespace, ServiceAccount, Secret, ManagedCluster, RequestSpec, RequestStatus, Request,
  request_denied, request_approved, name_prefix, clusternet_agent_name, labelled, token_key, ca_key,
}
use clusternet.Registration.Rbac.{
  Role, Binding, Client, ensure_cluster_role, ensure_cluster_role_binding, ensure_role,
  ensure_role_binding,
}
use clusternet.Registration.Requests.{Refusal, Retry, update_crr_status}
use clusternet.Registration.Approver.Objects.{
  id_selector, new_namespace, new_managed_cluster, new_service_account, default_cluster_roles,
  cluster_role_binding, default_roles, role_binding,
}

pub record Hub (W : Type 0) : Type 0 where
  pub list_namespaces : List (String × String) → W → Result (List Namespace)
  pub list_managed_clusters : List (String × String) → W → Result (List ManagedCluster)
  pub list_service_accounts : List (String × String) → W → Result (List ServiceAccount)
  pub create_namespace : Namespace → W → Result Namespace × W
  pub create_managed_cluster : String → ManagedCluster → W → Result ManagedCluster × W
  pub create_service_account : String → ServiceAccount → W → Result ServiceAccount × W
  pub cluster_roles : Client W Role
  pub cluster_role_bindings : Client W Binding
  pub roles : Client W Role
  pub role_bindings : Client W Binding
  -- Reads that are tried again while others write, so the time that passes is in the state.
  pub get_service_account : String → String → W → Result ServiceAccount × W
  pub get_secret : String → String → W → Result Secret × W
  pub update_status : Request → W → Option Refusal × W
  pub get_request : W → String → Answer Request
  pub backoff : Backoff W
  pub credentials_backoff : Backoff (Option Secret × W)
  pub retry : Retry (Request × W)
  pub socket_connection : Bool

-- `strings.TrimPrefix(s, prefix)`.
unfoldable pub trim_prefix : String → String → String
trim_prefix s prefix = if starts_with s prefix then slice s (len prefix) (len s) else s

unfoldable pub each_of :
    {W O : Type 0} → (O → W → Option Message × W) → List O → W → List Message × W
each_of f [] w = ([], w)
each_of f (o ∷ os) w =
    let (answer, w') = f o w in
    let (errors, w'') = each_of f os w' in
    (elim answer [ none ↦ errors | some e ↦ e ∷ errors ], w'')

unfoldable pub denied_status : Request → RequestStatus
denied_status crr = record {
  result = some request_denied;
  error_message = some (
      about "ClusterRegistrationRequest %q has got illegal update on spec.clusterID from %q to %q"
        crr.meta.name
        (join (text (trim_prefix crr.meta.name name_prefix)) (text crr.spec.cluster_id)));
  dedicated_namespace = "";
  managed_cluster_name = "";
  dedicated_token = none;
  ca_certificate = none;
}

unfoldable pub approved_status : String → String → Secret → RequestStatus
approved_status namespace cluster secret = record {
  result = some request_approved;
  error_message = none;
  dedicated_namespace = namespace;
  managed_cluster_name = cluster;
  dedicated_token = find token_key secret.data_;
  ca_certificate = find ca_key secret.data_;
}

module _ {W : Type 0} (hub : Hub W) where
  unfoldable pub create_namespace_if_needed : String → String → W → Result Namespace × W
  create_namespace_if_needed id name w = elim (hub.list_namespaces (id_selector id) w) [
    | err e ↦ (err e, w)
    | ok (ns ∷ more) ↦ (ok ns, w)
    | ok [] ↦ hub.create_namespace (new_namespace id name) w
  ]

  unfoldable pub create_managed_cluster_if_needed :
      String → RequestSpec → W → Result ManagedCluster × W
  create_managed_cluster_if_needed namespace spec w =
      elim (hub.list_managed_clusters (id_selector spec.cluster_id) w) [
        | err e ↦ (err e, w)
        | ok (mc ∷ more) ↦ (ok mc, w)
        | ok [] ↦ hub.create_managed_cluster namespace (new_managed_cluster spec) w
      ]

  unfoldable pub create_service_account_if_needed :
      String → String → String → W → Result ServiceAccount × W
  create_service_account_if_needed namespace name id w =
      elim (hub.list_service_accounts (id_selector id) w) [
        | err e ↦ (err e, w)
        | ok (sa ∷ more) ↦ (ok sa, w)
        | ok [] ↦ hub.create_service_account namespace (new_service_account id name) w
      ]

  unfoldable pub binding_cluster_roles_if_needed : String → String → String → W → Option Message × W
  binding_cluster_roles_if_needed account namespace id w =
      let roles = default_cluster_roles hub.socket_connection id in
      let (errors, w') = each_of (ensure_cluster_role hub.backoff hub.cluster_roles) roles w in
      elim errors [
        | e ∷ es ↦ (aggregate (e ∷ es), w')
        | [] ↦
            let (errors', w'') =
              each_of
                (λ r.
                  ensure_cluster_role_binding hub.backoff hub.cluster_role_bindings
                    (cluster_role_binding account namespace id r))
                roles w' in
            (aggregate errors', w'')
      ]

  unfoldable pub binding_role_if_needed : String → String → W → Option Message × W
  binding_role_if_needed account namespace w =
      let (errors, w') = each_of (ensure_role hub.backoff hub.roles) (default_roles namespace) w in
      elim errors [
        | e ∷ es ↦ (aggregate (e ∷ es), w')
        | [] ↦
            let (errors', w'') =
              each_of
                (λ r.
                  ensure_role_binding hub.backoff hub.role_bindings
                    (role_binding account namespace r))
                (default_roles namespace) w' in
            (aggregate errors', w'')
      ]

  -- The closure of getCredentialsForChildCluster. It keeps the secret that it read.
  unfoldable pub try_credentials :
      String → String → Trying (Option Secret × W) → Bool × Trying (Option Secret × W)
  try_credentials name namespace st =
      let (account, w') = hub.get_service_account namespace name st.world.1 in
      elim account [
        | err e ↦ (false, record { world = (st.world.0, w'); last_error = some e })
        | ok sa ↦ elim sa.secrets [
          | [] ↦ (
            false,
            record {
              world = (st.world.0, w');
              last_error =
                  some (named "waiting for secret got populated in ServiceAccount %s/%s" name);
            },
          )
          | secret_name ∷ more ↦
              let (secret, w'') = hub.get_secret namespace secret_name w' in
              elim secret [
                | err e ↦ (false, record { world = (none, w''); last_error = some e })
                | ok s ↦ (true, record { world = (some s, w''); last_error = none })
              ]
        ]
      ]

  -- The secret is nil when the wait returned nil without one, and nil has no data.
  unfoldable pub get_credentials_for_child_cluster :
      String → String → W → Result (Option Secret) × W
  get_credentials_for_child_cluster name namespace w =
      let (done, st) =
        hub.credentials_backoff (try_credentials name namespace)
          (record { world = (none, w); last_error = none }) in
      elim done [
        | true ↦ (ok st.world.0, st.world.1)
        | false ↦ elim st.last_error [ some e ↦ (err e, st.world.1) | none ↦ (ok none, st.world.1) ]
      ]

  -- The steps from the binding of the roles.
  unfoldable pub finish :
      Request → Namespace → ManagedCluster → ServiceAccount → W → Option Message × W
  finish crr ns mc sa w =
      try_none
        (binding_cluster_roles_if_needed sa.meta.name sa.meta.namespace crr.spec.cluster_id w)
        λ w1. try_none (binding_role_if_needed sa.meta.name sa.meta.namespace w1) λ w2.
          try_value (get_credentials_for_child_cluster sa.meta.name sa.meta.namespace w2)
            λ secret w3. elim secret [
              | none ↦ (some (text "nil pointer dereference"), w3)
              | some s ↦
                  update_crr_status hub.update_status hub.get_request hub.retry crr
                    (approved_status ns.meta.name mc.meta.name s) w3
            ]

  -- A nil secret stops the handler, which is an error here.
  unfoldable pub handle_cluster_registration_requests : Request → W → Option Message × W
  handle_cluster_registration_requests crr w =
      if same_text (trim_prefix crr.meta.name name_prefix) crr.spec.cluster_id
      then elim crr.status.result [
        | some r ↦ (none, w)
        | none ↦
            try_value (create_namespace_if_needed crr.spec.cluster_id crr.spec.cluster_name w)
              λ ns w1.
                try_value (create_managed_cluster_if_needed ns.meta.name crr.spec w1) λ mc w2.
                  try_value
                    (create_service_account_if_needed ns.meta.name crr.spec.cluster_name
                      crr.spec.cluster_id w2)
                    λ sa w3. finish crr ns mc sa w3
      ]
      else (
        none,
        (update_crr_status hub.update_status hub.get_request hub.retry crr (denied_status crr) w).1,
      )
