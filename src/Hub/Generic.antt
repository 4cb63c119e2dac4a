-- ===== src/Hub/Generic.antt =====
-- pkg/hub/deployer/generic/generic.go: Descriptions of plain resources are deployed from the hub. The
-- clients of a cluster, with which resources are applied and deleted, are parameters, with the error of
-- making them; `name_of` is the kind, the namespace and the name of a resource in one text.
pub mod Prune
use clusternet.Prelude.{
  String, Bool, true, false, Option, none, some, List, [], ◌∷◌, ◌++◌, contains, same_text, Result,
  ok, err, Message, if◌then◌else◌,
}
use clusternet.Utils.Slice.{contains_string, remove_string}
use clusternet.Hub.Api.{Failure, Answer, app_finalizer, cluster_id_label, label, aggregate}
use clusternet.Hub.Bases.{message_of}
use clusternet.Hub.Descriptions.{Description}
use clusternet.Utils.Resources.{
  ResourceApi, Backoff, delete_resource_with_retry, offload_description, apply_description,
}
use clusternet.Utils.Deployer.{Member, deployable_by_hub, is_cluster_lost}

module _ {W R : Type 0} (api : ResourceApi W R) (backoff : Backoff W) where
  module _ (name_of : R → String) where
    -- The names of the resources that are desired, and the errors of those that cannot be read.
    unfoldable pub desired_resources : List String → List String × List Message
    desired_resources [] = ([], [])
    desired_resources (object ∷ objects) =
        let (names, errs) = desired_resources objects in
        elim (api.unmarshal object) [
          | err e ↦ (names, e ∷ errs)
          | ok resource ↦ (name_of resource ∷ names, errs)
        ]

    -- The current resources that are not desired.
    unfoldable pub resources_to_be_deleted : List String → List String → List R × List Message
    resources_to_be_deleted desired [] = ([], [])
    resources_to_be_deleted desired (object ∷ objects) =
        let (resources, errs) = resources_to_be_deleted desired objects in
        elim (api.unmarshal object) [
          | err e ↦ (resources, e ∷ errs)
          | ok resource ↦ elim (contains_string desired (name_of resource)) [
            | true ↦ (resources, errs)
            | false ↦ (resource ∷ resources, errs)
          ]
        ]

    unfoldable pub prune_each : List R → W → List Message × W
    prune_each [] w = ([], w)
    prune_each (resource ∷ resources) w =
        let (answer, w') = delete_resource_with_retry api backoff resource w in
        let (errs, w'') = prune_each resources w' in
        (elim answer [ none ↦ errs | some e ↦ e ∷ errs ], w'')

    unfoldable pub prune_feeds_in_description :
        (client_error : Option Message)
        → (desired_deployer : String) → (current desired : List String) → W
        → Option Message × W
    prune_feeds_in_description client_error desired_deployer current desired w =
        elim (same_text desired_deployer "Helm") [
          | true ↦ (none, w)
          | false ↦ elim client_error [
            | some e ↦ (some e, w)
            | none ↦
                let (names, errs) = desired_resources desired in
                let (resources, errs') = resources_to_be_deleted names current in
                let (errs'', w') = prune_each resources w in
                (aggregate (errs ++ (errs' ++ errs'')), w')
          ]
        ]

  -- `list` lists the clusters of a namespace; `update` writes the finalizers of the Description, and
  -- `update_status` its phase.
  unfoldable pub handle_description :
      (list : String → String → Answer (List Member))
      → (client_error : Option Message) → (update : Description → W → Option Failure × W)
      → (update_status : String → Option Message → W → Option Message × W) → (owner : String)
      → Description
      → W
      → Option Message × W
  handle_description list client_error update update_status owner desc w =
      let cluster_id = label cluster_id_label desc.labels in
      let without : List String → Description =
        λ finalizers. record desc { finalizers = finalizers } in
      let write : List String → W → Option Message × W = λ finalizers v.
        let (answer, v') = update (without finalizers) v in (message_of answer, v') in
      let deploy : Option Message × W = elim client_error [
        | some e ↦ (some e, w)
        | none ↦ elim desc.deleting [
          | true ↦ offload_description api backoff write desc.finalizers desc.raw w
          | false ↦ apply_description api backoff false none update_status owner desc.raw w
        ]
      ] in
      elim (same_text desc.deployer "Generic") [
        | false ↦ (none, w)
        | true ↦ elim (deployable_by_hub list cluster_id desc.namespace) [
          | err e ↦ (some e, w)
          | ok false ↦ (none, w)
          | ok true ↦ elim desc.deleting [
            | true ↦ elim (is_cluster_lost list cluster_id desc.namespace) [
              | true ↦ write (remove_string desc.finalizers app_finalizer) w
              | false ↦ deploy
            ]
            | false ↦ deploy
          ]
        ]
      ]
