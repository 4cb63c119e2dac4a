-- ===== src/Controllers/ClusterStatus/Network.antt =====
-- pkg/controllers/clusters/clusterstatus/network.go: the address ranges of a cluster, read from the
-- commands of its pods. `none` is the panic on a parameter without a value.
use Prim.Native.String.{len, find as find_text}
use package.text.Mathlib.Text.{starts_with}
use clusternet.Prelude.{
  String, Bool, Option, none, some, List, [], ◌∷◌, same_text, leb, Result, ok, err, text,
  if◌then◌else◌,
}
use clusternet.Registration.Agent.Names.{split_at}

pub record Container : Type 0 where
  pub command : List String
  pub args_ : List String

pub record Pod : Type 0 where
  pub containers : List Container

-- `strings.Split(arg, "=")[1]`.
unfoldable pub value_of : String → Option String
value_of arg = elim (split_at b'=' arg) [
  | [] ↦ none
  | key ∷ rest ↦ elim rest [ [] ↦ none | value ∷ more ↦ some value ]
]

-- The value of the first part that begins with the parameter, if there is such a part.
unfoldable pub value_in : List String → String → Option (Option String)
value_in [] parameter = none
value_in (part ∷ parts) parameter =
    let rest = value_in parts parameter in
    if starts_with part parameter then some (value_of part) else rest

unfoldable pub has_space : String → Bool
has_space arg = leb (find_text arg " ") (len arg)

unfoldable pub get_para_value : List String → String → Option String
get_para_value [] parameter = some ""
get_para_value (arg ∷ lists) parameter =
    let rest = get_para_value lists parameter in
    if starts_with arg parameter
    then value_of arg
    else if has_space arg
    then elim (value_in (split_at b' ' arg) parameter) [ some v ↦ v | none ↦ rest ]
    else rest

-- A value that is not "", or what comes after it.
abbrev pub or_else : Option String → Option String → Option String
or_else none next = none
or_else (some v) next = if same_text v "" then next else some v

unfoldable pub containers_value : List Container → String → Option String
containers_value [] parameter = some ""
containers_value (container ∷ containers) parameter =
    let rest = containers_value containers parameter in
    or_else (get_para_value container.command parameter)
      (or_else (get_para_value container.args_ parameter) rest)

-- `list` lists the pods with a label.
module _ (list : String → String → Result (List Pod)) where
  unfoldable pub find_pod : String → String → Option Pod
  find_pod key value = elim (list key value) [
    | err e ↦ none
    | ok pods ↦ elim pods [ [] ↦ none | pod ∷ more ↦ some pod ]
  ]

  unfoldable pub find_pod_command_parameter : String → String → Option String
  find_pod_command_parameter value parameter = elim (find_pod "component" value) [
    | some pod ↦ containers_value pod.containers parameter
    | none ↦ elim (find_pod "app.kubernetes.io/component" value) [
      | some pod ↦ containers_value pod.containers parameter
      | none ↦ some ""
    ]
  ]

-- The first range that is not "".
unfoldable pub find_pod_ip_range_from_node_spec : List String → String
find_pod_ip_range_from_node_spec [] = ""
find_pod_ip_range_from_node_spec (cidr ∷ cidrs) =
    let rest = find_pod_ip_range_from_node_spec cidrs in if same_text cidr "" then rest else cidr

abbrev pub found_or : String → Option String → Option (Result String)
found_or message none = none
found_or message (some v) = some (if same_text v "" then err (text message) else ok v)

unfoldable pub find_cluster_ip_range :
    (String → String → Result (List Pod)) → Option (Result String)
find_cluster_ip_range list =
    found_or "can't get ClusterIPRange"
      (find_pod_command_parameter list "kube-apiserver" "--service-cluster-ip-range")

-- The ranges of the nodes are those of the lister, none when it fails.
unfoldable pub find_pod_ip_range :
    List String → (String → String → Result (List Pod)) → Option (Result String)
find_pod_ip_range cidrs list = found_or "can't get PodIPRange" (
    or_else (find_pod_command_parameter list "kube-controller-manager" "--cluster-cidr") (
      or_else (find_pod_command_parameter list "kube-proxy" "--cluster-cidr")
        (some (find_pod_ip_range_from_node_spec cidrs))))
