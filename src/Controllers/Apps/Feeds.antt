-- ===== src/Controllers/Apps/Feeds.antt =====
-- pkg/controllers/apps/helmchart/helmchart.go and manifest/manifest.go: the objects that feeds select.
use clusternet.Prelude.{
  String, Bool, true, false, not, ◌&&◌, Option, List, [], ◌∷◌, ◌++◌, same_text, put, remove, Result,
  ok, err, Message, try_value, if◌then◌else◌,
}
use clusternet.Utils.Slice.{contains_string}
use clusternet.Utils.Feed.{has_feed, find_bases_from_uids, config_group_label, config_version_label}
use clusternet.Hub.Api.{
  Feed, Base, Answer, app_finalizer, feed_protection_finalizer, config_kind_label, config_uid_label,
  config_name_label, config_namespace_label, label,
}
use clusternet.Hub.Protection.{is_uid}
use clusternet.Controllers.Work.{typed, Object, Deleted, enqueue, deleted, updated, Store, of_key}

-- The keys of the labels that may be UIDs of Bases.
unfoldable pub prune_uids : List (String × String) → List String
prune_uids [] = []
prune_uids ((key, val) ∷ labels) =
    let rest = prune_uids labels in if is_uid key && same_text val "Base" then key ∷ rest else rest

-- The loop of pruneLabels over the Bases: the label of a Base that lost the feed goes, and that of its
-- Subscription.
unfoldable pub prune_each : Feed → List Base → List (String × String) → List (String × String)
prune_each feed [] labels = labels
prune_each feed (base ∷ bases) labels = prune_each feed bases (
    if has_feed feed base.feeds
    then labels
    else remove (label config_uid_label base.labels) (remove base.uid labels))

unfoldable pub prune_labels :
    (String → Answer (List Base)) → Feed → List (String × String) → List (String × String)
prune_labels bases_of feed labels =
    prune_each feed (find_bases_from_uids bases_of (prune_uids labels)) labels

abbrev pub chart_feed : {S : Type 0} → Object S → Feed
chart_feed chart = record {
  kind = "HelmChart";
  api_version = "";
  namespace = chart.namespace;
  name = chart.name;
  replicas = [];
}

abbrev pub manifest_feed : {S : Type 0} → Object S → Feed
manifest_feed manifest = record {
  kind = label config_kind_label manifest.labels;
  api_version = "";
  namespace = label config_namespace_label manifest.labels;
  name = label config_name_label manifest.labels;
  replicas = [];
}

-- The finalizers of an object that is not being deleted.
unfoldable pub with_finalizers : Bool → List String → List String
with_finalizers protected finalizers =
    let owned =
      if contains_string finalizers app_finalizer
      then finalizers
      else finalizers ++ (app_finalizer ∷ []) in
    if not (contains_string owned feed_protection_finalizer) && protected
    then owned ++ (feed_protection_finalizer ∷ [])
    else owned

-- The labels that describe a chart.
abbrev pub chart_labels : {S : Type 0} → Object S → List (String × String)
chart_labels chart = put config_namespace_label chart.namespace (
    put config_name_label chart.name (
      put config_kind_label "HelmChart" (
        put config_version_label "v1alpha1"
          (put config_group_label "apps.clusternet.io" chart.labels))))

module _ {S : Type 0} (key_of : Object S → Result String) (same_spec : S → S → Bool) where
  unfoldable pub add_helm_chart : Object S → List String
  add_helm_chart chart = enqueue key_of chart

  unfoldable pub update_helm_chart : Object S → Object S → List String
  update_helm_chart old new = updated key_of (λ o n. same_spec o.body n.body) old new

  unfoldable pub delete_helm_chart : Deleted (Object S) → List String
  delete_helm_chart d = deleted key_of d

  unfoldable pub add_manifest : Object S → List String
  add_manifest manifest = enqueue key_of manifest

  unfoldable pub update_manifest : Object S → Object S → List String
  update_manifest old new = updated key_of (λ o n. same_spec o.body n.body) old new

  unfoldable pub delete_manifest : Deleted (Object S) → List String
  delete_manifest d = deleted key_of d

-- `obsoleted` is FindObsoletedFeeds, and `key` makes a key of a namespace and a name.
module _ (obsoleted : List Feed → List Feed → List Feed)
    (same_feeds : List Feed → List Feed → Bool) where
  unfoldable pub chart_keys : (String → String → String) → List Feed → List String
  chart_keys key [] = []
  chart_keys key (feed ∷ feeds) =
      let rest = chart_keys key feeds in
      if same_text feed.kind "HelmChart" then key feed.namespace feed.name ∷ rest else rest

  -- A change of a Base, for the controller of charts.
  unfoldable pub update_base_charts : (String → String → String) → Base → Base → List String
  update_base_charts key old new =
      if new.deleting
      then []
      else if same_feeds old.feeds new.feeds
      then []
      else chart_keys key (obsoleted old.feeds new.feeds)

  -- `list` gives the keys of the manifests that a feed selects, or its error.
  unfoldable pub manifest_keys : (Feed → Result (List String)) → List Feed → List String
  manifest_keys list [] = []
  manifest_keys list (feed ∷ feeds) =
      let rest = manifest_keys list feeds in
      elim (same_text feed.kind "HelmChart") [
        | true ↦ rest
        | false ↦ elim (list feed) [ err e ↦ rest | ok keys ↦ keys ++ rest ]
      ]

  -- A change of a Base, for the controller of manifests, whose caches are synced or never will be.
  unfoldable pub update_base_manifests :
      (Feed → Result (List String)) → (synced : Bool) → Base → Base → List String
  update_base_manifests list synced old new =
      if new.deleting
      then []
      else if same_feeds old.feeds new.feeds
      then []
      else if synced
      then manifest_keys list (obsoleted old.feeds new.feeds)
      else []

module _ {W S : Type 0} (store : Store W S) (split : String → Result (String × String))
    (bases_of : W → String → Answer (List Base)) (same_object : Object S → Object S → Bool)
    (protected : Bool) (handler : Object S → W → Option Message × W) where
  unfoldable pub updated_chart : Object S → W → Object S
  updated_chart chart w = record chart {
    finalizers = with_finalizers protected chart.finalizers;
    labels = prune_labels (bases_of w) (chart_feed chart) (chart_labels chart);
  }

  unfoldable pub updated_manifest : Object S → W → Object S
  updated_manifest manifest w = record manifest {
    finalizers = with_finalizers protected manifest.finalizers;
    labels = prune_labels (bases_of w) (manifest_feed manifest) manifest.labels;
  }

  -- The object, written when it is to be changed. The cached one is copied first.
  unfoldable pub write_changed : Object S → Object S → W → Result (Object S) × W
  write_changed o o' w = elim o.deleting [
    | true ↦ (ok o, w)
    | false ↦ elim (same_object o o') [ true ↦ (ok o, w) | false ↦ store.update o' w ]
  ]

  unfoldable pub sync_helm_chart : String → W → Option Message × W
  sync_helm_chart key w =
      of_key store split
        (λ chart w0.
          try_value (write_changed chart (updated_chart chart w0) w0)
            λ chart1 w1. handler (typed "HelmChart" chart1) w1)
        key w

  unfoldable pub sync_manifest : String → W → Option Message × W
  sync_manifest key w =
      of_key store split
        (λ manifest w0.
          try_value (write_changed manifest (updated_manifest manifest w0) w0)
            λ manifest1 w1. handler (typed "Manifest" manifest1) w1)
        key w
