-- ===== src/Controllers/ClusterStatus/Totals.antt =====
-- The counts and the sums over the nodes of a cluster, of pkg/controllers/clusters/clusterstatus.
use clusternet.Prelude.{
  ℕ, ◌+◌, ◌≤◌, ◌<◌, ◌^◌, String, true, ◌||◌, none, some, List, [], ◌∷◌, ◌≡◌, ◌⊎◌, inl, inr,
  same_text, length, arith,
}
use clusternet.Controllers.ClusterStatus.{
  Node, NodeStatistics, get_node_condition, count_node, count_nodes, get_node_statistics, Sums,
  amount, add_node, add_nodes, no_sums, get_node_resource,
}

abbrev pub total : NodeStatistics → ℕ
total s = s.ready_nodes + s.not_ready_nodes + s.unknown_nodes + s.lost_nodes

-- The status of the node's condition Ready, if it has one, is one that the API defines.
abbrev pub IsKnown : Node → Type 0
IsKnown node =
    (get_node_condition node.conditions "Ready" ≡ none)
    ⊎ ((status : String) × (get_node_condition node.conditions "Ready" ≡ some status)
        × ((same_text status "True" || same_text status "False" || same_text status "Unknown")
            ≡ true))

abbrev pub AreKnown : List Node → Type 0
AreKnown [] = Unit
AreKnown (node ∷ nodes) = IsKnown node × AreKnown nodes

total-count_node :
    (node : Node) (s : NodeStatistics)
    → IsKnown node
    → total s + 1 < 2 ^ 32
    → total (count_node node s) ≡ total s + 1
unfolding count_node
total-count_node node s (inl e) h = rw (count_node, e) (omega arith)
total-count_node node s (inr (status, e, k)) h = rw (count_node, e) (ground (arith, k, h))

total-count_nodes :
    (nodes : List Node) (s : NodeStatistics)
    → AreKnown nodes
    → total s + length nodes < 2 ^ 32
    → total (count_nodes nodes s) ≡ total s + length nodes
unfolding count_nodes
total-count_nodes [] s k h = omega arith
total-count_nodes (node ∷ nodes) s (k, ks) h =
    let one = total-count_node node s k (omega (arith, h)) in
    let rest = total-count_nodes nodes (count_node node s) ks (omega (arith, h, one)) in
    omega (arith, one, rest)

-- The four counts of nodes add up to the number of nodes, if there are less than 2 ^ 31 and each
-- condition Ready of a node is True, False or Unknown.
pub total-get_node_statistics :
    (nodes : List Node)
    → AreKnown nodes
    → length nodes < 2 ^ 31
    → total (get_node_statistics nodes) ≡ length nodes
unfolding get_node_statistics
total-get_node_statistics nodes k h =
    let start : NodeStatistics = record {
      ready_nodes = 0;
      not_ready_nodes = 0;
      unknown_nodes = 0;
      lost_nodes = 0;
    } in
    let counted = total-count_nodes nodes start k (omega (arith, h)) in omega (arith, counted)

-- No node lets more be allocated than it has.
abbrev pub IsSound : Node → Type 0
IsSound node =
    (node.allocatable.cpu ≤ node.capacity.cpu)
    × (node.allocatable.memory ≤ node.capacity.memory)
    × (amount node.allocatable.gpu ≤ amount node.capacity.gpu)

abbrev pub AreSound : List Node → Type 0
AreSound [] = Unit
AreSound (node ∷ nodes) = IsSound node × AreSound nodes

abbrev Bounded : Sums → Type 0
Bounded s =
    (s.allocatable_cpu ≤ s.capacity_cpu)
    × (s.allocatable_mem ≤ s.capacity_mem)
    × (s.allocatable_gpu ≤ s.capacity_gpu)

add_node-Bounded : (node : Node) (s : Sums) → IsSound node → Bounded s → Bounded (add_node node s)
unfolding add_node
add_node-Bounded node s k b = (omega arith, omega arith, ground arith)

add_nodes-Bounded :
    (nodes : List Node) (s : Sums) → AreSound nodes → Bounded s → Bounded (add_nodes nodes s)
unfolding add_nodes
add_nodes-Bounded [] s k b = b
add_nodes-Bounded (node ∷ nodes) s (k, ks) b =
    add_nodes-Bounded nodes (add_node node s) ks (add_node-Bounded node s k b)

-- The cluster reports no more allocatable resources than its capacity, when its nodes do.
pub get_node_resource-bounds :
    (nodes : List Node)
    → AreSound nodes
    → let total_of = get_node_resource nodes in
      (total_of.1.cpu ≤ total_of.0.cpu)
      × (total_of.1.memory ≤ total_of.0.memory)
      × (amount total_of.1.gpu ≤ amount total_of.0.gpu)
unfolding get_node_resource
get_node_resource-bounds nodes k =
    let b = add_nodes-Bounded nodes no_sums k (omega arith, omega arith, omega arith) in
    (b.0, b.1, ground (arith, b))
