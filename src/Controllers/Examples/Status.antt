-- ===== src/Controllers/Examples/Status.antt =====
-- The status of a cluster with two nodes, whose API server has the range of its services as an argument.
use clusternet.Prelude.{
  String, true, false, none, List, [], ◌∷◌, ◌≡◌, inl, inr, refl, Result, ok, length, same_text,
  if◌then◌else◌, arith,
}
use clusternet.Controllers.ClusterStatus.{
  Node, Collector, CollectedStatus, get_node_statistics, get_node_condition,
  collecting_cluster_status, get_condition, get_node_resource, discover_cluster_cidr,
  discover_service_cidr,
}
use clusternet.Controllers.ClusterStatus.Network.{
  Pod, find_cluster_ip_range, find_pod_ip_range, find_pod_command_parameter, find_pod,
  containers_value, get_para_value, value_of, find_pod_ip_range_from_node_spec,
}
use clusternet.Controllers.ClusterStatus.Totals.{total, total-get_node_statistics}
use clusternet.Registration.Agent.Names.{split_at}
use clusternet.Controllers.ClusterStatus.Ranges.{collecting-service_range}

abbrev node_with : List (String × String) → Node
node_with conditions = record {
  conditions = conditions;
  pod_cidr = "10.244.0.0/24";
  capacity = record { cpu = 8; memory = 32; gpu = none };
  allocatable = record { cpu = 7; memory = 30; gpu = none };
}

abbrev nodes : List Node
nodes = node_with (("Ready", "True") ∷ []) ∷ node_with [] ∷ []

total-get_node_statistics_example : total (get_node_statistics nodes) ≡ length nodes
unfolding get_node_condition
total-get_node_statistics_example =
    total-get_node_statistics nodes (inr ("True", refl, refl), (inl refl, tt)) (ground arith)

abbrev api_server : Pod
api_server = record {
  containers = record { command = []; args_ = "--service-cluster-ip-range=9" ∷ [] } ∷ [];
}

abbrev pods : String → String → Result (List Pod)
pods key value = if same_text value "kube-apiserver" then ok (api_server ∷ []) else ok []

abbrev collector : Collector
collector = record {
  version = ok ("v1.22.0", "linux/amd64");
  nodes = ok nodes;
  pods = pods;
  answers = λ path. true;
  api_server_url = "https://child";
  app_pusher_enabled = true;
  use_socket = false;
  heartbeat_frequency = 180000000000;
}

abbrev collected : CollectedStatus
collected = record {
  kubernetes_version = "v1.22.0";
  platform = "linux/amd64";
  api_server_url = "https://child";
  healthz = true;
  livez = true;
  readyz = true;
  app_pusher = true;
  use_socket = false;
  cluster_cidr = "9";
  service_cidr = "10.244.0.0/24";
  node_statistics = get_node_statistics nodes;
  capacity = (get_node_resource nodes).0;
  allocatable = (get_node_resource nodes).1;
  heartbeat_frequency_seconds = 180;
  conditions = get_condition 5 true true ∷ [];
}

collecting-service_range_example : collected.cluster_cidr ≡ "9"
unfolding collecting_cluster_status discover_cluster_cidr discover_service_cidr
    find_cluster_ip_range find_pod_ip_range find_pod_command_parameter find_pod containers_value
    get_para_value value_of split_at find_pod_ip_range_from_node_spec
collecting-service_range_example =
    collecting-service_range 5 collector "9" collected ([], [], [], [], [], refl, tt, tt) (refl, tt)
      refl refl
