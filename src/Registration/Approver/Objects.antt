-- ===== src/Registration/Approver/Objects.antt =====
-- The objects that pkg/hub/approver/approver.go makes for a child cluster.
use Prim.Native.String.{◌++◌ as append_text}
use clusternet.Prelude.{String, Bool, List, [], ◌∷◌, ◌++◌, if◌then◌else◌}
use clusternet.Hub.Api.{created_by_label, cluster_id_label, cluster_name_label, put_all}
use clusternet.Registration.{
  Namespace, ServiceAccount, ManagedCluster, RequestSpec, name_prefix, clusternet_agent_name,
  clusternet_hub_name, auto_update_annotation, cluster_bootstrapping_label, rbac_defaults, labelled,
}
use clusternet.Registration.Rbac.{PolicyRule, Role, Subject, Binding}

-- The labels of the selector that the objects of a cluster are listed with.
abbrev pub id_selector : String → List (String × String)
id_selector id = (created_by_label, clusternet_agent_name) ∷ (cluster_id_label, id) ∷ []

abbrev pub cluster_labels : String → String → List (String × String)
cluster_labels id name =
    (created_by_label, clusternet_agent_name)
    ∷ (cluster_id_label, id)
    ∷ (cluster_name_label, name)
    ∷ []

unfoldable pub new_namespace : String → String → Namespace
new_namespace id name = record {
  meta = record (labelled (cluster_labels id name)) { generate_name = name_prefix };
}

unfoldable pub new_service_account : String → String → ServiceAccount
new_service_account id name = record {
  meta = record (labelled (cluster_labels id name)) { generate_name = name_prefix };
  secrets = [];
}

-- The labels of the request are put over those of the hub.
unfoldable pub new_managed_cluster : RequestSpec → ManagedCluster
new_managed_cluster spec = record {
  meta =
      record (labelled
        (put_all spec.cluster_labels (cluster_labels spec.cluster_id spec.cluster_name))) {
          name = spec.cluster_name;
        };
  cluster_id = spec.cluster_id;
  cluster_type = spec.cluster_type;
  sync_mode = spec.sync_mode;
}

abbrev pub auto_update : List (String × String)
auto_update = (auto_update_annotation, "true") ∷ []

abbrev pub hub_labels : List (String × String)
hub_labels =
    (cluster_bootstrapping_label, rbac_defaults) ∷ (created_by_label, clusternet_hub_name) ∷ []

unfoldable pub default_roles : String → List Role
default_roles namespace =
    record {
      meta = record (labelled hub_labels) {
        name = "clusternet-managedcluster-role";
        namespace = namespace;
        annotations = auto_update;
      };
      rules =
          record {
            api_groups = "*" ∷ [];
            resources = "*" ∷ [];
            resource_names = [];
            verbs = "*" ∷ [];
          }
          ∷ [];
    }
    ∷ []

abbrev pub base_rules : List PolicyRule
base_rules =
    record {
      api_groups = "clusters.clusternet.io" ∷ [];
      resources = "clusterregistrationrequests" ∷ [];
      resource_names = [];
      verbs = "create" ∷ "get" ∷ [];
    }
    ∷ record {
      api_groups = "" ∷ [];
      resources = "secrets" ∷ [];
      resource_names = [];
      verbs = "get" ∷ [];
    }
    ∷ []

abbrev pub socket_rule : String → PolicyRule
socket_rule id = record {
  api_groups = "proxies.clusternet.io" ∷ [];
  resources = "sockets" ∷ [];
  resource_names = id ∷ [];
  verbs = "*" ∷ [];
}

unfoldable pub default_cluster_roles : Bool → String → List Role
default_cluster_roles socket_connection id =
    record {
      meta = record (labelled (hub_labels ++ ((cluster_id_label, id) ∷ []))) {
        name = append_text name_prefix id;
        annotations = auto_update;
      };
      rules = if socket_connection then base_rules ++ (socket_rule id ∷ []) else base_rules;
    }
    ∷ []

abbrev pub account_subject : String → String → Subject
account_subject account namespace = record {
  kind = "ServiceAccount";
  name = account;
  namespace = namespace;
}

unfoldable pub cluster_role_binding : String → String → String → Role → Binding
cluster_role_binding account namespace id role = record {
  meta = record (labelled (hub_labels ++ ((cluster_id_label, id) ∷ []))) {
    name = role.meta.name;
    annotations = auto_update;
  };
  subjects = account_subject account namespace ∷ [];
  role_ref = record {
    api_group = "rbac.authorization.k8s.io";
    kind = "ClusterRole";
    name = role.meta.name;
  };
}

unfoldable pub role_binding : String → String → Role → Binding
role_binding account namespace role = record {
  meta = record (labelled hub_labels) {
    name = role.meta.name;
    namespace = role.meta.namespace;
    annotations = auto_update;
  };
  subjects = account_subject account namespace ∷ [];
  role_ref = record {
    api_group = "rbac.authorization.k8s.io";
    kind = "Role";
    name = role.meta.name;
  };
}
