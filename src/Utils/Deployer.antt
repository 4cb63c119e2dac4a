-- ===== src/Utils/Deployer.antt =====
-- pkg/utils/deployer.go: who deploys, whether a cluster is lost, and the values that override those of
-- a HelmRelease. Listers, JSON and formatted names are parameters.
pub mod Range
use clusternet.Prelude.{
  ℕ, zero, suc, ◌+◌, ◌<◌, ◌≤◌, String, Bool, true, false, not, ◌&&◌, ◌||◌, Option, none, some, List,
  [], ◌∷◌, ◌≡◌, ◌≢◌, ◌↔◌, refl, length, get_elem?, ltb, same_text, Result, ok, err, Message, text,
  named, arith, if◌then◌else◌,
}
use clusternet.Hub.Api.{Failure, Answer, found, failed, failure_message, cluster_id_label}
use clusternet.Hub.Descriptions.{Description}

-- A ManagedCluster, as far as it is read here. Conditions are types and statuses.
pub record Member : Type 0 where
  pub sync_mode : String
  pub app_pusher : Bool
  pub conditions : List (String × String)

-- `list` lists the clusters of a namespace that have the label with the cluster's ID, or all for "".
module _ (list : String → String → Answer (List Member)) where
  unfoldable pub deployable_by_hub : String → String → Result Bool
  deployable_by_hub cluster_id dedicated_namespace =
      if same_text cluster_id ""
      then err (named "empty clusterID from label %s" cluster_id_label)
      else if same_text dedicated_namespace ""
      then err (text "namespace is empty")
      else elim (list dedicated_namespace cluster_id) [
        | failed f ↦ err (failure_message f)
        | found [] ↦ err (
            named "failed to find a ManagedCluster declaration in namespace %s" dedicated_namespace)
        | found (m ∷ ms) ↦
            ok (if same_text m.sync_mode "Pull" || not m.app_pusher then false else true)
      ]

  unfoldable pub ready_is_unknown : List (String × String) → Bool
  ready_is_unknown [] = false
  ready_is_unknown ((t, status) ∷ conditions) =
      let rest = ready_is_unknown conditions in
      if same_text t "Ready" then same_text status "Unknown" else rest

  unfoldable pub is_cluster_lost : String → String → Bool
  is_cluster_lost cluster_id namespace = elim (list namespace cluster_id) [
    | failed f ↦ false
    | found [] ↦ true
    | found (m ∷ ms) ↦ ready_is_unknown m.conditions
  ]

unfoldable pub deployable_by_agent : String → Bool → Bool
deployable_by_agent sync_mode app_pusher_enabled =
    if same_text sync_mode "Push"
    then false
    else if same_text sync_mode "Pull"
    then true
    else if same_text sync_mode "Dual"
    then not app_pusher_enabled
    else false

pub record ControllerRef : Type 0 where
  pub kind : String
  pub name : String
  pub uid : String

pub record HelmRelease : Type 0 where
  pub namespace : String
  pub name : String
  pub deleting : Bool
  -- `GetControllerOf`.
  pub controller : Option ControllerRef

-- What GetOverrides returns; `out_of_range` is a panic.
pub data Overrides (V : Type 0) : Type 0 where
  no_overrides : Overrides V
  values : V → Overrides V
  override_error : Message → Overrides V
  out_of_range : Overrides V

-- `get` reads a cached Description with its UID.
module _ (get : String → String → Answer (Description × String)) where
  unfoldable pub resolve_controller_ref : String → ControllerRef → Option Description
  resolve_controller_ref namespace ref = elim (same_text ref.kind "Description") [
    | false ↦ none
    | true ↦ elim (get namespace ref.name) [
      | failed f ↦ none
      | found (desc, uid) ↦ elim (same_text uid ref.uid) [ true ↦ some desc | false ↦ none ]
    ]
  ]

  module _ {V : Type 0} (generate_helm_release_name : String → String × String → String)
      (is_blank : String → Bool) (unmarshal : String → Result V) where
    -- The index of the first chart that has the name of the release.
    unfoldable pub index_of : String → String → List (String × String) → Option ℕ
    index_of desc_name release [] = none
    index_of desc_name release (chart ∷ charts) =
        let rest = index_of desc_name release charts in
        elim (same_text (generate_helm_release_name desc_name chart) release) [
          | true ↦ some 0
          | false ↦ elim rest [ none ↦ none | some i ↦ some (suc i) ]
        ]

    -- The values at an index of `Spec.Raw`.
    unfoldable pub read_values : String → List String → ℕ → Overrides V
    read_values desc_name raw index =
        if ltb (length raw) index
        then override_error
            (named "unequal lengths of Spec.Raw and Spec.Charts in Description %s" desc_name)
        else elim (get_elem? raw index) [
          | none ↦ out_of_range
          | some document ↦ elim (is_blank document) [
            | true ↦ no_overrides
            | false ↦ elim (unmarshal document) [ err e ↦ override_error e | ok v ↦ values v ]
          ]
        ]

    unfoldable pub get_overrides : HelmRelease → Overrides V
    get_overrides hr = elim hr.deleting [
      | true ↦ no_overrides
      | false ↦ elim hr.controller [
        | none ↦ no_overrides
        | some ref ↦ elim (resolve_controller_ref hr.namespace ref) [
          | none ↦ no_overrides
          | some desc ↦ elim (index_of desc.name hr.name desc.charts) [
            | none ↦ no_overrides
            | some index ↦ read_values desc.name desc.raw index
          ]
        ]
      ]
    ]
