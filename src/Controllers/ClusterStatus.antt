-- ===== src/Controllers/ClusterStatus.antt =====
-- pkg/controllers/clusters/clusterstatus/clusterstatus_controller.go: the agent collects the status of
-- its cluster. Quantities of resources are natural numbers, counts the bits of an int32. A panic of
-- the source is `none`.
pub mod Network
pub mod Ranges
pub mod Totals
use clusternet.Prelude.{
  ℕ, ◌+◌, ◌/◌, ◌%◌, ◌^◌, String, Bool, true, false, ◌&&◌, Option, none, some, List, [], ◌∷◌,
  same_text, Result, ok, err, ◌==◌, if◌then◌else◌,
}
use clusternet.Controllers.ClusterLifecycle.{Condition, second}
use clusternet.Controllers.ClusterStatus.Network.{Pod, find_cluster_ip_range, find_pod_ip_range}

-- Amounts of processors, memory and graphics processors.
pub record Resources : Type 0 where
  pub cpu : ℕ
  pub memory : ℕ
  pub gpu : Option ℕ

pub record Node : Type 0 where
  pub conditions : List (String × String)
  pub pod_cidr : String
  pub capacity : Resources
  pub allocatable : Resources

pub record NodeStatistics : Type 0 where
  pub ready_nodes : ℕ
  pub not_ready_nodes : ℕ
  pub unknown_nodes : ℕ
  pub lost_nodes : ℕ

-- The status of the first condition of a type.
unfoldable pub get_node_condition : List (String × String) → String → Option String
get_node_condition [] t = none
get_node_condition ((type_, status) ∷ conditions) t =
    let rest = get_node_condition conditions t in if same_text type_ t then some status else rest

unfoldable pub count_node : Node → NodeStatistics → NodeStatistics
count_node node s = elim (get_node_condition node.conditions "Ready") [
  | none ↦ record s { lost_nodes = (s.lost_nodes + 1) % 2 ^ 32 }
  | some status ↦
      if same_text status "True"
      then record s { ready_nodes = (s.ready_nodes + 1) % 2 ^ 32 }
      else if same_text status "False"
      then record s { not_ready_nodes = (s.not_ready_nodes + 1) % 2 ^ 32 }
      else if same_text status "Unknown"
      then record s { unknown_nodes = (s.unknown_nodes + 1) % 2 ^ 32 }
      else s
]

unfoldable pub count_nodes : List Node → NodeStatistics → NodeStatistics
count_nodes [] s = s
count_nodes (node ∷ nodes) s = count_nodes nodes (count_node node s)

unfoldable pub get_node_statistics : List Node → NodeStatistics
get_node_statistics nodes =
    count_nodes nodes
      (record { ready_nodes = 0; not_ready_nodes = 0; unknown_nodes = 0; lost_nodes = 0 })

-- The sums while the nodes are walked.
pub record Sums : Type 0 where
  pub capacity_cpu : ℕ
  pub capacity_mem : ℕ
  pub capacity_gpu : ℕ
  pub allocatable_cpu : ℕ
  pub allocatable_mem : ℕ
  pub allocatable_gpu : ℕ

abbrev pub amount : Option ℕ → ℕ
amount none = 0
amount (some n) = n

unfoldable pub add_node : Node → Sums → Sums
add_node node s = record {
  capacity_cpu = s.capacity_cpu + node.capacity.cpu;
  capacity_mem = s.capacity_mem + node.capacity.memory;
  allocatable_cpu = s.allocatable_cpu + node.allocatable.cpu;
  allocatable_mem = s.allocatable_mem + node.allocatable.memory;
  capacity_gpu = elim node.capacity.gpu [ none ↦ s.capacity_gpu | some g ↦ s.capacity_gpu + g ];
  allocatable_gpu = elim node.capacity.gpu [
    | none ↦ s.allocatable_gpu
    | some g ↦ s.allocatable_gpu + amount node.allocatable.gpu
  ];
}

unfoldable pub add_nodes : List Node → Sums → Sums
add_nodes [] s = s
add_nodes (node ∷ nodes) s = add_nodes nodes (add_node node s)

abbrev pub no_sums : Sums
no_sums = record {
  capacity_cpu = 0;
  capacity_mem = 0;
  capacity_gpu = 0;
  allocatable_cpu = 0;
  allocatable_mem = 0;
  allocatable_gpu = 0;
}

-- The capacity and the allocatable resources.
unfoldable pub get_node_resource : List Node → Resources × Resources
get_node_resource nodes =
    let s = add_nodes nodes no_sums in
    (
      record {
        cpu = s.capacity_cpu;
        memory = s.capacity_mem;
        gpu = if s.capacity_gpu == 0 then none else some s.capacity_gpu;
      },
      record {
        cpu = s.allocatable_cpu;
        memory = s.allocatable_mem;
        gpu = if s.capacity_gpu == 0 then none else some s.allocatable_gpu;
      },
    )

pub record CollectedStatus : Type 0 where
  pub kubernetes_version : String
  pub platform : String
  pub api_server_url : String
  pub healthz : Bool
  pub livez : Bool
  pub readyz : Bool
  pub app_pusher : Bool
  pub use_socket : Bool
  pub cluster_cidr : String
  pub service_cidr : String
  pub node_statistics : NodeStatistics
  pub capacity : Resources
  pub allocatable : Resources
  pub heartbeat_frequency_seconds : ℕ
  pub conditions : List Condition

unfoldable pub get_condition : ℕ → (livez readyz : Bool) → Condition
get_condition now livez readyz =
    if livez && readyz
    then record {
      condition_type = "Ready";
      status = "True";
      last_transition_time = now;
      reason = "ManagedClusterReady";
      message = "managed cluster is ready.";
    }
    else record {
      condition_type = "Ready";
      status = "False";
      last_transition_time = now;
      reason = "ManagedClusterNotReady";
      message = "managed cluster is not ready.";
    }

-- The controller: what it asks its cluster for, and its options.
pub record Collector : Type 0 where
  pub version : Result (String × String)
  pub nodes : Result (List Node)
  pub pods : String → String → Result (List Pod)
  -- Whether the API server answers 200 on a path.
  pub answers : String → Bool
  pub api_server_url : String
  pub app_pusher_enabled : Bool
  pub use_socket : Bool
  -- A duration in nanoseconds.
  pub heartbeat_frequency : ℕ

abbrev pub pod_cidrs : List Node → List String
pod_cidrs [] = []
pod_cidrs (node ∷ nodes) = node.pod_cidr ∷ pod_cidrs nodes

abbrev pub listed : Result (List Node) → List Node
listed (err e) = []
listed (ok nodes) = nodes

unfoldable pub discover_service_cidr : Collector → Option (Result String)
discover_service_cidr c = find_pod_ip_range (pod_cidrs (listed c.nodes)) c.pods

unfoldable pub discover_cluster_cidr : Collector → Option (Result String)
discover_cluster_cidr c = find_cluster_ip_range c.pods

-- The value, which is "" with an error.
abbrev pub or_empty : Result String → String
or_empty (err e) = ""
or_empty (ok s) = s

-- The status that is kept. Without a version the source reads a field of nil, and panics.
unfoldable pub collecting_cluster_status : ℕ → Collector → Option CollectedStatus
collecting_cluster_status now c = elim (discover_cluster_cidr c) [
  | none ↦ none
  | some cluster_cidr ↦ elim (discover_service_cidr c) [
    | none ↦ none
    | some service_cidr ↦ elim c.version [
      | err e ↦ none
      | ok (git_version, platform) ↦ some (record {
        kubernetes_version = git_version;
        platform = platform;
        api_server_url = c.api_server_url;
        healthz = c.answers "/healthz";
        livez = c.answers "/livez";
        readyz = c.answers "/readyz";
        app_pusher = c.app_pusher_enabled;
        use_socket = c.use_socket;
        cluster_cidr = or_empty cluster_cidr;
        service_cidr = or_empty service_cidr;
        node_statistics = get_node_statistics (listed c.nodes);
        capacity = (get_node_resource (listed c.nodes)).0;
        allocatable = (get_node_resource (listed c.nodes)).1;
        heartbeat_frequency_seconds = c.heartbeat_frequency / second;
        conditions = get_condition now (c.answers "/livez") (c.answers "/readyz") ∷ [];
      })
    ]
  ]
]
