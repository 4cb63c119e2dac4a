-- ===== src/Hub/Descriptions/Handling.antt =====
-- pkg/hub/deployer/deployer.go: handleBase, and resyncBase, which Manifests and HelmCharts cause.
use clusternet.Prelude.{
  String, true, false, Option, none, some, List, [], ◌∷◌, ◌++◌, Message, named,
}
use clusternet.Utils.Slice.{remove_string}
use clusternet.Hub.Api.{Answer, found, failed, Base, app_finalizer, aggregate, failure_message}
use clusternet.Hub.Feeds.{FeedApi, add_labels_to_referred_feeds}
use clusternet.Hub.Bases.{message_of}
use clusternet.Hub.Descriptions.{
  Description, DescriptionApi, delete_description, populate_descriptions,
}

module _ {W : Type 0} (api : DescriptionApi W) (feeds : FeedApi W) where
  -- The loop of handleBase over the Descriptions of a Base that is being deleted.
  unfoldable pub delete_all_descriptions : List Description → W → List Message × W
  delete_all_descriptions [] w = ([], w)
  delete_all_descriptions (d ∷ ds) w = elim d.deleting [
    | true ↦ delete_all_descriptions ds w
    | false ↦
        let (e, w') = delete_description api (api.key d.namespace d.name) w in
        let (errs, w'') = delete_all_descriptions ds w' in
        (elim e [ none ↦ errs | some m ↦ m ∷ errs ], w'')
  ]

  unfoldable pub handle_base : Base → W → Option Message × W
  handle_base base w = elim base.deleting [
    | false ↦
        let (labelled, w') = add_labels_to_referred_feeds feeds base w in
        elim labelled [ some e ↦ (some e, w') | none ↦ populate_descriptions api feeds base w' ]
    | true ↦ elim (api.list_descriptions w base) [
      | failed f ↦ (some (failure_message f), w)
      | found (d ∷ ds) ↦ (
        some (named "waiting for Descriptions belongs to Base %s getting deleted" base.name),
        (delete_all_descriptions (d ∷ ds) w).1,
      )
      | found [] ↦
          let (answer, w') =
            api.update_base
              (record base { finalizers = remove_string base.finalizers app_finalizer }) w in
          (message_of answer, w')
    ]
  ]

  module _ (bases_of : W → String → Answer (List Base)) where
    -- Bases that are populated at the same time are populated here in order.
    unfoldable pub resync_each : List String → W → List Message → Option Message × W
    resync_each [] w errs = (aggregate errs, w)
    resync_each (uid ∷ uids) w errs = elim (bases_of w uid) [
      | failed f ↦ (some (failure_message f), w)
      | found [] ↦ resync_each uids w errs
      | found (b ∷ bs) ↦
          let (answer, w') = populate_descriptions api feeds b w in
          resync_each uids w' (errs ++ elim answer [ none ↦ [] | some e ↦ e ∷ [] ])
    ]

    unfoldable pub resync_base : List String → W → Option Message × W
    resync_base uids w = resync_each uids w []
