-- ===== src/Hub/Feeds.antt =====
-- pkg/hub/deployer/deployer.go: the labels on HelmCharts and Manifests that say who refers to them.
-- Both kinds of object are read by listers and patched through the client, which are parameters.
-- Patches that run at the same time are done here in order.
pub mod Keeps
use clusternet.Prelude.{
  String, Bool, true, false, Option, none, some, List, [], ◌∷◌, ◌++◌, Message, if◌then◌else◌,
  same_text,
}
use clusternet.Hub.Api.{
  Feed, Failure, Answer, found, failed, Base, label, aggregate, failure_message,
  subscription_uid_label,
}

-- A HelmChart or a Manifest, as far as it is read here.
pub record Referent : Type 0 where
  pub uid : String
  pub namespace : String
  pub name : String
  pub deleting : Bool
  pub labels : List (String × String)
  pub finalizers : List String
  -- The phase of a HelmChart, and the template of a Manifest, or the spec of a HelmChart.
  pub phase : String
  pub raw : String

-- Labels to set, or to remove for `none`.
abbrev pub Patch : Type 0
Patch = List (String × Option String)

pub record FeedApi (W : Type 0) : Type 0 where
  -- The objects that have the label `uid=kind`.
  pub list_charts : W → String → String → Answer (List Referent)
  pub list_manifests : W → String → String → Answer (List Referent)
  -- HelmCharts(namespace).Get(name), and utils.ListManifestsBySelector.
  pub get_chart : W → String → String → Answer Referent
  pub manifests_of : W → Feed → Answer (List Referent)
  pub patch_chart : Referent → Patch → W → Option Failure × W
  pub patch_manifest : Referent → Patch → W → Option Failure × W

module _ {W : Type 0} where
  -- The goroutines for one kind of object, with the errors that they send.
  unfoldable pub patch_each :
      (Referent → Patch → W → Option Failure × W) → List Referent → Patch → W → List Message × W
  patch_each patch [] labels w = ([], w)
  patch_each patch (r ∷ rs) labels w = elim r.deleting [
    | true ↦ patch_each patch rs labels w
    | false ↦
        let (answer, w') = patch r labels w in
        let (errors, w'') = patch_each patch rs labels w' in
        (elim answer [ none ↦ errors | some f ↦ failure_message f ∷ errors ], w'')
  ]

  module _ (api : FeedApi W) where
    unfoldable pub patch_all : List Referent → List Referent → Patch → W → Option Message × W
    patch_all charts manifests labels w =
        let (errors, w') = patch_each api.patch_chart charts labels w in
        let (errors', w'') = patch_each api.patch_manifest manifests labels w' in
        (aggregate (errors ++ errors'), w'')

    unfoldable pub remove_labels_from_referred_feeds : String → String → W → Option Message × W
    remove_labels_from_referred_feeds uid kind w = elim (api.list_charts w uid kind) [
      | failed f ↦ (some (failure_message f), w)
      | found charts ↦ elim (api.list_manifests w uid kind) [
        | failed f ↦ (some (failure_message f), w)
        | found manifests ↦ patch_all charts manifests ((uid, none) ∷ []) w
      ]
    ]

    -- What the loop over the feeds of a Base collects.
    pub record Referred : Type 0 where
      pub charts : List Referent
      pub manifests : List Referent
      pub errors : List Message

    unfoldable pub collect_feeds : List Feed → W → Referred
    collect_feeds [] w = record { charts = []; manifests = []; errors = [] }
    collect_feeds (feed ∷ feeds) w =
        let rest = collect_feeds feeds w in
        elim (same_text feed.kind "HelmChart") [
          | true ↦ elim (api.get_chart w feed.namespace feed.name) [
            | found c ↦ record rest { charts = c ∷ rest.charts }
            | failed f ↦ record rest { errors = failure_message f ∷ rest.errors }
          ]
          | false ↦ elim (api.manifests_of w feed) [
            | found ms ↦ record rest { manifests = ms ++ rest.manifests }
            | failed f ↦ record rest { errors = failure_message f ∷ rest.errors }
          ]
        ]

    -- The label of the Base, and that of its Subscription where the Base has one.
    unfoldable pub labels_to_patch : Base → Patch
    labels_to_patch b =
        let sub = label subscription_uid_label b.labels in
        if same_text sub ""
        then (b.uid, some "Base") ∷ []
        else (b.uid, some "Base") ∷ (sub, some "Subscription") ∷ []

    unfoldable pub add_labels_to_referred_feeds : Base → W → Option Message × W
    add_labels_to_referred_feeds b w =
        let referred = collect_feeds b.feeds w in
        elim referred.errors [
          | e ∷ es ↦ (aggregate (e ∷ es), w)
          | [] ↦ patch_all referred.charts referred.manifests (labels_to_patch b) w
        ]
