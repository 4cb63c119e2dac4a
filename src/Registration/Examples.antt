-- ===== src/Registration/Examples.antt =====
-- The hub and the roles at single objects: a cluster whose request is approved.
pub mod Agents
use package.text.Mathlib.TextPositions.{eq_refl}
use clusternet.Prelude.{
  Bool, false, List, ◌⊎◌, Message, contains, ℕ, String, true, Option, none, some, [], ◌∷◌, ◌≡◌, inl,
  inr, refl, Result, ok, err, text, same_text, if◌then◌else◌,
}
use clusternet.Hub.Api.{found, failed, not_found, put_all}
use clusternet.Utils.Resources.{Trouble, already_exists, trouble, Backoff}
use clusternet.Utils.Resources.Attempts.{IsTrying, attempts}
use clusternet.Registration.{
  ServiceAccount, Secret, Request, request_approved, labelled, auto_update_annotation,
  api_server_url_key,
}
use clusternet.Registration.Rbac.{
  Role, Client, ensure, try_ensure, ensure_cluster_role, ensure_cluster_role_binding, ensure_role,
  ensure_role_binding,
}
use clusternet.Registration.Rbac.Ensured.{IsEnsured, IsStore, ensure-IsEnsured}
use clusternet.Registration.Requests.{checked_status, try_update_status, update_crr_status}
use clusternet.Registration.Requests.Writes.{retried}
use clusternet.Registration.Approver.{
  Hub, trim_prefix, handle_cluster_registration_requests, create_namespace_if_needed,
  create_managed_cluster_if_needed, create_service_account_if_needed, finish,
  binding_cluster_roles_if_needed, each_of, binding_role_if_needed,
  get_credentials_for_child_cluster, try_credentials, approved_status,
}
use clusternet.Registration.Approver.Approval.{IsApproved, handle-IsApproved}
use clusternet.Registration.Approver.Objects.{
  id_selector, new_managed_cluster, new_namespace, new_service_account, default_cluster_roles,
  default_roles, cluster_role_binding, role_binding,
}
use clusternet.Registration.Approver.Labels.{Selects, new_managed_cluster-IsSelected}
use clusternet.Registration.Agent.Names.{
  Options, generate_cluster_registration_request_name, no_status, new_cluster_registration_request,
  parse_cluster_labels,
}
use clusternet.Registration.Agent.Labels.{
  new_request-IsApproved, print_labels, parse_cluster_labels-print,
}
use clusternet.Registration.Agent.{
  Agent, State, register_self_cluster, bootstrap_credentials, is_approved, granted,
}
use clusternet.Registration.Agent.Ends.{Ends, Approves, now, IsRegistered}
use clusternet.Registration.Agent.Registers.{register_self_cluster-Ends}
use clusternet.Registration.Reports.{Parent, accepted, update_cluster_status, report, try_report}
use clusternet.Registration.Reports.Writes.{IsKept, update_cluster_status-IsKept}

abbrev pub once : {W : Type 0} → Backoff W
once c st = attempts 1 c st

pub once-IsTrying : {W : Type 0} → IsTrying (once {W = W})
once-IsTrying c st = (0, refl)

-- A cluster with at most one role, which may be updated.
abbrev viewer : Role
viewer = record {
  meta = record (labelled []) {
    name = "viewer";
    annotations = (auto_update_annotation, "true") ∷ [];
  };
  rules = [];
}

abbrev create_role : Role → Option Role → Option Trouble × Option Role
create_role r none = (none, some r)
create_role r (some old) = (some already_exists, some old)

abbrev get_role : Option Role → String → String → Result Role
get_role none ns name = err (text "not found")
get_role (some r) ns name = ok r

abbrev one_role : Client (Option Role) Role
one_role = record { create = create_role; get = get_role; update = λ r w. (none, some r) }

one_role-IsStore : IsStore one_role (λ r. r.meta)
one_role-IsStore = (created, λ o w h. refl)
  where
    created :
        (o : Role) (w : Option Role)
        → (create_role o w).0 ≡ none
        → get_role (create_role o w).1 o.meta.namespace o.meta.name ≡ ok o
    created o none h = refl
    created o (some r) h = cc

ensure-IsEnsured_example : IsEnsured one_role (λ (r : Role). r.meta) viewer (some viewer)
unfolding ensure attempts try_ensure
ensure-IsEnsured_example =
    ensure-IsEnsured one_role (λ r. r.meta) once "failed to ensure Role %s: %v" viewer
      (some (record viewer { rules = [] })) (some viewer) one_role-IsStore once-IsTrying refl

-- A parent without objects of the cluster.
abbrev silent : {O : Type 0} → Client Unit O
silent {O} = record {
  create = λ o w. (none, tt);
  get = λ w ns name. err (text "not found");
  update = λ o w. (none, tt);
}

abbrev account : ServiceAccount
account = record {
  meta = record (labelled []) { name = "clusternet-x1"; namespace = "clusternet-ns1" };
  secrets = "clusternet-x1-token" ∷ [];
}

abbrev token : Secret
token = record { meta = labelled []; data_ = ("token", "t") ∷ ("ca.crt", "c") ∷ [] }

abbrev hub : Hub Unit
hub = record {
  list_namespaces = λ s w. ok [];
  list_managed_clusters = λ s w. ok [];
  list_service_accounts = λ s w. ok [];
  create_namespace =
      λ ns w. (ok (record { meta = record ns.meta { name = "clusternet-ns1" } }), tt);
  create_managed_cluster = λ ns mc w. (ok mc, tt);
  create_service_account = λ ns sa w. (ok account, tt);
  cluster_roles = silent;
  cluster_role_bindings = silent;
  roles = silent;
  role_bindings = silent;
  get_service_account = λ ns name w. (ok account, tt);
  get_secret = λ ns name w. (ok token, tt);
  update_status = λ crr w. (none, tt);
  get_request = λ w name. failed not_found;
  backoff = once;
  credentials_backoff = once;
  retry = λ f s. f s;
  socket_connection = true;
}

abbrev pub options : Options
options = record {
  cluster_name_prefix = "clusternet-cluster";
  cluster_type = "EdgeCluster";
  cluster_sync_mode = "Dual";
  cluster_labels = "a=b,c=d";
  parent_url = "https://parent";
  bootstrap_token = "bootstrap";
}

abbrev pub near : Request
near = record {
  meta = record (labelled []) { name = "clusternet-u1" };
  spec = record {
    cluster_id = "u1";
    cluster_type = "EdgeCluster";
    cluster_name = "near";
    sync_mode = "Dual";
    cluster_labels = ("a", "b") ∷ [];
  };
  status = no_status;
}

handle-IsApproved_example : IsApproved hub near tt tt
unfolding trim_prefix handle_cluster_registration_requests retried attempts
    create_namespace_if_needed create_managed_cluster_if_needed create_service_account_if_needed
    finish binding_cluster_roles_if_needed each_of default_cluster_roles ensure_cluster_role ensure
    try_ensure ensure_cluster_role_binding binding_role_if_needed default_roles ensure_role
    ensure_role_binding get_credentials_for_child_cluster try_credentials cluster_role_binding
    new_managed_cluster new_namespace new_service_account role_binding approved_status
    checked_status try_update_status update_crr_status
handle-IsApproved_example =
    handle-IsApproved hub near tt tt once-IsTrying (λ f s. (0, refl)) refl refl refl

new_managed_cluster-IsSelected_example :
    Selects (id_selector "u1") (new_managed_cluster near.spec).meta.labels
    × Selects (id_selector "u1") (new_namespace "u1" "near").meta.labels
    × Selects (id_selector "u1") (new_service_account "u1" "near").meta.labels
new_managed_cluster-IsSelected_example = new_managed_cluster-IsSelected near.spec refl refl

new_request-IsApproved_example :
    IsApproved hub (new_cluster_registration_request options "u1" "near") tt tt
unfolding new_cluster_registration_request generate_cluster_registration_request_name trim_prefix
    handle_cluster_registration_requests retried attempts create_namespace_if_needed
    create_managed_cluster_if_needed create_service_account_if_needed finish
    binding_cluster_roles_if_needed each_of default_cluster_roles ensure_cluster_role ensure
    try_ensure ensure_cluster_role_binding binding_role_if_needed default_roles ensure_role
    ensure_role_binding get_credentials_for_child_cluster try_credentials cluster_role_binding
    new_managed_cluster new_namespace new_service_account role_binding approved_status
    checked_status try_update_status update_crr_status
new_request-IsApproved_example =
    new_request-IsApproved hub options "u1" "near" tt tt once-IsTrying (λ f s. (0, refl)) refl

parse_cluster_labels-print_example :
    parse_cluster_labels (print_labels ("a", "b") (("c", "d") ∷ []))
    ≡ put_all (("a", "b") ∷ ("c", "d") ∷ []) []
parse_cluster_labels-print_example =
    parse_cluster_labels-print ("a", "b") (("c", "d") ∷ [])
      (
        ((refl, tt), (refl, tt), (refl, tt), (refl, tt)),
        (((refl, tt), (refl, tt), (refl, tt), (refl, tt)), tt),
      )
