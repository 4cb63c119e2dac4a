-- ===== src/Registration.antt =====
-- pkg/hub/approver, pkg/controllers/clusters/clusterregistrationrequest, pkg/agent and
-- pkg/utils/rbac.go: a child cluster registers itself with the parent. The objects of the parent
-- cluster, as far as these parts read or write them.
pub mod Rbac
pub mod Requests
pub mod Approver
pub mod Agent
pub mod Reports
mod Examples
use clusternet.Prelude.{String, Option, none, some, List, Message, []}

pub record Meta : Type 0 where
  pub name : String
  pub generate_name : String
  pub namespace : String
  pub labels : List (String × String)
  pub annotations : List (String × String)
  pub finalizers : List String

-- A namespace, or a service account with the names of its secrets.
pub record Namespace : Type 0 where
  pub meta : Meta

pub record ServiceAccount : Type 0 where
  pub meta : Meta
  pub secrets : List String

-- The data of a secret. Bytes are texts; a missing key reads as "".
pub record Secret : Type 0 where
  pub meta : Meta
  pub data_ : List (String × String)

pub record ManagedCluster : Type 0 where
  pub meta : Meta
  pub cluster_id : String
  pub cluster_type : String
  pub sync_mode : String

pub record RequestSpec : Type 0 where
  pub cluster_id : String
  pub cluster_type : String
  pub cluster_name : String
  pub sync_mode : String
  pub cluster_labels : List (String × String)

pub data ApprovedResult : Type 0 where
  request_denied request_approved request_failed : ApprovedResult

pub record RequestStatus : Type 0 where
  pub result : Option ApprovedResult
  pub error_message : Option Message
  pub dedicated_namespace : String
  pub managed_cluster_name : String
  pub dedicated_token : Option String
  pub ca_certificate : Option String

-- A ClusterRegistrationRequest.
pub record Request : Type 0 where
  pub meta : Meta
  pub spec : RequestSpec
  pub status : RequestStatus

abbrev pub name_prefix : String
name_prefix = "clusternet-"

abbrev pub clusternet_agent_name : String
clusternet_agent_name = "clusternet-agent"

abbrev pub clusternet_hub_name : String
clusternet_hub_name = "clusternet-hub"

abbrev pub auto_update_annotation : String
auto_update_annotation = "clusternet.io/autoupdate"

abbrev pub cluster_bootstrapping_label : String
cluster_bootstrapping_label = "clusters.clusternet.io/bootstrapping"

abbrev pub rbac_defaults : String
rbac_defaults = "rbac-defaults"

abbrev pub token_key : String
token_key = "token"

abbrev pub ca_key : String
ca_key = "ca.crt"

abbrev pub api_server_url_key : String
api_server_url_key = "apiserver-advertise-url"

-- The metadata of an object that is created with these labels.
abbrev pub labelled : List (String × String) → Meta
labelled labels = record {
  name = "";
  generate_name = "";
  namespace = "";
  labels = labels;
  annotations = [];
  finalizers = [];
}
