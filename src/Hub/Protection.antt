-- ===== src/Hub/Protection.antt =====
-- pkg/hub/deployer/utils.go, and the parts of deployer.go that handle Manifests and HelmCharts: an
-- object that Subscriptions refer to is protected from deletion. The lister of Subscriptions, the
-- client, the search for charts and the function that resyncs Bases are parameters.
pub mod Safety
use Prim.Native.String.{len, find as find_text}
use clusternet.Prelude.{
  ℕ, String, Bool, true, false, not, ◌&&◌, ◌||◌, ◌==◌, leb, Option, none, some, List, [], ◌∷◌, ◌++◌,
  same_text, contains, Result, ok, err, Message, text, named, about, join_all, if◌then◌else◌, empty,
}
use clusternet.Utils.Slice.{contains_string, remove_string}
use clusternet.Hub.Api.{
  Feed, Failure, not_found, other, Answer, found, failed, Subscription, app_finalizer,
  feed_protection_finalizer, config_kind_label, config_name_label, config_namespace_label, label,
  aggregate, failure_message,
}
use clusternet.Hub.Feeds.{Referent}
use clusternet.Hub.Bases.{unless_gone}

-- `len(key) == 36`, and no "/" in it.
abbrev pub is_uid : String → Bool
is_uid key = (len key == 36) && not (leb (find_text key "/") (len key))

-- The keys of the labels that say that a Subscription refers to the object.
unfoldable pub sub_uids : List (String × String) → List String
sub_uids [] = []
sub_uids ((key, val) ∷ labels) =
    let rest = sub_uids labels in
    if is_uid key && same_text val "Subscription" then key ∷ rest else rest

-- A feed of a Subscription is the object with these labels.
abbrev pub refers : List (String × String) → Feed → Bool
refers feed_labels feed =
    same_text feed.kind (label config_kind_label feed_labels)
    && same_text feed.namespace (label config_namespace_label feed_labels)
    && same_text feed.name (label config_name_label feed_labels)

unfoldable pub has_reference : List (String × String) → List Feed → Bool
has_reference feed_labels [] = false
has_reference feed_labels (feed ∷ feeds) =
    refers feed_labels feed || has_reference feed_labels feeds

-- The loop of findAllMatchingSubscriptions over all Subscriptions.
unfoldable pub matching_from :
    List String → List (String × String) → List Subscription → List Subscription
matching_from uids feed_labels [] = []
matching_from uids feed_labels (sub ∷ subs) =
    let rest = matching_from uids feed_labels subs in
    if contains sub.uid uids && not sub.deleting && has_reference feed_labels sub.feeds
    then sub ∷ rest
    else rest

unfoldable pub find_all_matching_subscriptions :
    Answer (List Subscription) → List (String × String) → Answer (List Subscription)
find_all_matching_subscriptions (failed f) feed_labels = failed f
find_all_matching_subscriptions (found subscriptions) feed_labels =
    found (matching_from (sub_uids feed_labels) feed_labels subscriptions)

-- What is called for one kind of object that is protected.
pub record ProtectionApi (W : Type 0) : Type 0 where
  -- What the message calls the object: the label of its kind for a Manifest, and HelmChart.
  pub kind_of : Referent → String
  pub list_subscriptions : W → Answer (List Subscription)
  -- RemoveFeedFromSubscription, by the labels of the object.
  pub remove_feed : List (String × String) → Subscription → W → Option Message × W
  -- The patch of the annotation that says why the object is kept.
  pub annotate : Referent → Message → W → Option Failure × W
  -- The update of the object, by its client.
  pub update : Referent → W → Option Failure × W

-- What handleHelmChart calls for charts.
pub record ChartApi (W : Type 0) : Type 0 where
  -- The error of the credentials, where the chart names a secret for them.
  pub get_credentials : Referent → Option Message
  pub is_oci : Referent → Bool
  -- FindOCIChart, and FindChartInAuthRepoURL.
  pub find_oci : Referent → Bool × Option Message
  pub find_in_repository : Referent → Option Message
  pub update_chart_status : Referent → String → Message → W → Option Message × W

module _ {W : Type 0} (api : ProtectionApi W) where
  -- Calls that are made at the same time are made here in order.
  unfoldable pub remove_feed_each :
      List (String × String) → List Subscription → W → List Message × W
  remove_feed_each feed_labels [] w = ([], w)
  remove_feed_each feed_labels (sub ∷ subs) w =
      let (answer, w') = api.remove_feed feed_labels sub w in
      let (errors, w'') = remove_feed_each feed_labels subs w' in
      (elim answer [ none ↦ errors | some e ↦ e ∷ errors ], w'')

  unfoldable pub remove_feed_from_all_matching_subscriptions :
      List Subscription → List (String × String) → W → Option Message × W
  remove_feed_from_all_matching_subscriptions related feed_labels w =
      let (errors, w') = remove_feed_each feed_labels related w in (aggregate errors, w')

  -- The names of Subscriptions.
  abbrev pub sub_infos : List Subscription → List Message
  sub_infos [] = []
  sub_infos (sub ∷ subs) = text sub.name ∷ sub_infos subs

  -- protectManifestFeed and protectHelmChartFeed.
  unfoldable pub protect_feed : Referent → W → Option Message × W
  protect_feed object w =
      elim (find_all_matching_subscriptions (api.list_subscriptions w) object.labels) [
        | failed f ↦ (some (failure_message f), w)
        | found related ↦
            let is_protected = contains_string object.finalizers feed_protection_finalizer in
            elim (is_protected && (elim related as (λ _. Bool) [ [] ↦ false | _ ∷ _ ↦ true ])) [
              | true ↦
                  let msg =
                    about
                      "block deleting current %s until all Subscriptions (including %s) get deleted"
                      (api.kind_of object) (join_all (sub_infos related)) in
                  let (answer, w') = api.annotate object msg w in
                  (elim answer [ none ↦ some msg | some f ↦ some (failure_message f) ], w')
              | false ↦ remove_feed_from_all_matching_subscriptions related object.labels w
            ]
      ]

  -- The branch of handleManifest and of handleHelmChart for an object that is being deleted.
  unfoldable pub release : Referent → W → Option Message × W
  release object w =
      let (protected, w') = protect_feed object w in
      elim protected [
        | some e ↦ (some e, w')
        | none ↦
            let finalizers =
              remove_string (remove_string object.finalizers app_finalizer)
                feed_protection_finalizer in
            let (answer, w'') = api.update (record object { finalizers = finalizers }) w' in
            (unless_gone answer, w'')
      ]

  -- The UIDs of the Bases that refer to an object.
  unfoldable pub base_uids : List (String × String) → List String
  base_uids [] = []
  base_uids ((key, val) ∷ labels) =
      let rest = base_uids labels in if same_text val "Base" then key ∷ rest else rest

  module _ (resync_base : List String → W → Option Message × W) where
    unfoldable pub handle_manifest : Referent → W → Option Message × W
    handle_manifest manifest w = elim manifest.deleting [
      | true ↦ release manifest w
      | false ↦ resync_base (base_uids manifest.labels) w
    ]

    module _ (charts : ChartApi W) where
      -- The phase of a chart, and the reason for it.
      unfoldable pub chart_status : Referent → String × Message
      chart_status chart = elim (charts.is_oci chart) [
        | true ↦ elim (charts.find_oci chart).1 [
          | some e ↦ ("NotFound", e)
          | none ↦
              if (charts.find_oci chart).0
              then ("Found", empty)
              else ("NotFound", named "not found a version matched for chart %s" chart.name)
        ]
        | false ↦ elim (charts.find_in_repository chart) [
          | some e ↦ ("NotFound", e)
          | none ↦ ("Found", empty)
        ]
      ]

      unfoldable pub handle_helm_chart : Referent → W → Option Message × W
      handle_helm_chart chart w = elim chart.deleting [
        | true ↦ release chart w
        | false ↦ elim (charts.get_credentials chart) [
          | some e ↦ (some e, w)
          | none ↦
              let (phase, reason) = chart_status chart in
              let (answer, w') = charts.update_chart_status chart phase reason w in
              elim answer [ some e ↦ (some e, w') | none ↦ resync_base (base_uids chart.labels) w' ]
        ]
      ]
