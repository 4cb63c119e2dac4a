-- ===== src/Hub/Helm.antt =====
-- pkg/hub/deployer/helm/helm.go: Descriptions of charts become HelmReleases. Listers, the client and
-- the part of pkg/utils that drives the Helm library are parameters.
pub mod Spares
use clusternet.Prelude.{
  String, Bool, true, false, ◌&&◌, Option, none, some, List, [], ◌∷◌, ◌++◌, same_text, Result, ok,
  err, Message, named, if◌then◌else◌,
}
use clusternet.Utils.Slice.{contains_string, remove_string}
use clusternet.Hub.Api.{
  Failure, not_found, other, Answer, found, failed, app_finalizer, cluster_id_label,
  cluster_name_label, created_by_label, config_kind_label, config_name_label,
  config_namespace_label, config_uid_label, subscription_uid_label, subscription_name_label,
  subscription_namespace_label, label, put_all, aggregate, failure_message,
}
use clusternet.Hub.Feeds.{Referent}
use clusternet.Hub.Bases.{message_of, unless_gone, remove_key}
use clusternet.Hub.Descriptions.{Description}
use clusternet.Utils.Deployer.{Member, deployable_by_hub, is_cluster_lost}

-- A HelmRelease; `spec` is its target namespace with the options of the chart.
pub record Release : Type 0 where
  pub namespace : String
  pub name : String
  pub deleting : Bool
  pub labels : List (String × String)
  pub finalizers : List String
  pub release_name : Option String
  pub spec : String

pub record HelmApi (W : Type 0) : Type 0 where
  pub key : String → String → String
  pub split : String → Result (String × String)
  pub generate_helm_release_name : String → String × String → String
  -- The releases with the labels of a kind, a name, a namespace and a UID.
  pub list_releases : W → String → String → String → String → Answer (List Release)
  pub get_release : W → String → String → Answer Release
  pub get_chart : W → String → String → Answer Referent
  pub create : Release → W → Option Failure × W
  pub update : Release → W → Option Failure × W
  pub delete : String → String → W → Option Failure × W
  -- The configuration of the cluster, and ReconcileHelmRelease.
  pub reconcile : Release → W → Option Message × W
  pub update_description : Description → W → Option Failure × W
  pub list_clusters : String → String → Answer (List Member)

abbrev pub same_release_name : Option String → Option String → Bool
same_release_name none none = true
same_release_name (some a) (some b) = same_text a b
same_release_name _ _ = false

module _ {W : Type 0} (api : HelmApi W) where
  unfoldable pub delete_helm_release : String → W → Option Message × W
  delete_helm_release namespaced_key w = elim (api.split namespaced_key) [
    | err e ↦ (some e, w)
    | ok (ns, name) ↦ let (answer, w') = api.delete ns name w in (unless_gone answer, w')
  ]

  unfoldable pub handle_helm_release : Release → W → Option Message × W
  handle_helm_release hr w =
      let cluster_id = label cluster_id_label hr.labels in
      let deploy : Option Message × W =
        elim (deployable_by_hub api.list_clusters cluster_id hr.namespace) [
          | err e ↦ (some e, w)
          | ok false ↦ (none, w)
          | ok true ↦ api.reconcile hr w
        ] in
      elim (hr.deleting && is_cluster_lost api.list_clusters cluster_id hr.namespace) [
        | true ↦
            let (answer, w') =
              api.update (record hr { finalizers = remove_string hr.finalizers app_finalizer }) w in
            (message_of answer, w')
        | false ↦ deploy
      ]

  -- The copy of a release in the cache that syncHelmRelease writes.
  unfoldable pub updated_release : Release → Release → Release
  updated_release cur hr = record cur {
    labels = put_all hr.labels cur.labels;
    release_name = hr.release_name;
    spec = hr.spec;
    finalizers =
        if contains_string cur.finalizers app_finalizer
        then cur.finalizers
        else cur.finalizers ++ app_finalizer ∷ [];
  }

  unfoldable pub sync_helm_release : Release → W → Option Message × W
  sync_helm_release wanted w = elim (api.get_release w wanted.namespace wanted.name) [
    | failed (other m) ↦ (some m, w)
    | failed not_found ↦ let (answer, w') = api.create wanted w in (message_of answer, w')
    | found cur ↦ elim cur.deleting [
      | true ↦ (some (named "HelmRelease %s is deleting, will resync later" cur.name), w)
      | false ↦
          let hr : Release = elim cur.release_name [
            | none ↦ record wanted { release_name = none }
            | some n ↦ wanted
          ] in
          elim (same_release_name cur.release_name hr.release_name && same_text cur.spec hr.spec) [
            | true ↦ handle_helm_release cur w
            | false ↦
                let (answer, w') = api.update (updated_release cur hr) w in (message_of answer, w')
          ]
    ]
  ]

  -- The release that a Description wants for a chart.
  unfoldable pub wanted_release :
      (uid : String) → Description → String × String → Referent → Release
  wanted_release uid desc chart_ref chart = record {
    namespace = desc.namespace;
    name = api.generate_helm_release_name desc.name chart_ref;
    deleting = false;
    labels =
        (created_by_label, "clusternet-hub")
        ∷ (config_kind_label, "Description")
        ∷ (config_name_label, desc.name)
        ∷ (config_namespace_label, desc.namespace)
        ∷ (config_uid_label, uid)
        ∷ (cluster_id_label, label cluster_id_label desc.labels)
        ∷ (cluster_name_label, label cluster_name_label desc.labels)
        ∷ (subscription_name_label, label subscription_name_label desc.labels)
        ∷ (subscription_namespace_label, label subscription_namespace_label desc.labels)
        ∷ (subscription_uid_label, label subscription_uid_label desc.labels)
        ∷ [];
    finalizers = app_finalizer ∷ [];
    release_name = some chart.name;
    spec = chart.raw;
  }

  -- What populateHelmRelease keeps in its loops.
  pub record Releasing : Type 0 where
    pub world : W
    pub hrs_to_be_deleted : List String
    pub all_errs : List Message

  unfoldable pub release_keys : List Release → List String
  release_keys [] = []
  release_keys (hr ∷ hrs) = api.key hr.namespace hr.name ∷ release_keys hrs

  -- The loop over the charts. A chart that cannot be read ends populateHelmRelease at once.
  unfoldable pub sync_charts :
      (uid : String) → Description → List (String × String) → Releasing → Releasing × Option Message
  sync_charts uid desc [] st = (st, none)
  sync_charts uid desc (ref ∷ refs) st = elim (api.get_chart st.world ref.0 ref.1) [
    | failed f ↦ (st, some (failure_message f))
    | found chart ↦
        let hr = wanted_release uid desc ref chart in
        let (answer, w') = sync_helm_release hr st.world in
        sync_charts uid desc refs (record {
          world = w';
          hrs_to_be_deleted = remove_key (api.key hr.namespace hr.name) st.hrs_to_be_deleted;
          all_errs = st.all_errs ++ elim answer [ none ↦ [] | some e ↦ e ∷ [] ];
        })
  ]

  unfoldable pub delete_releases : List String → W → List Message → W × List Message
  delete_releases [] w errs = (w, errs)
  delete_releases (k ∷ ks) w errs =
      let (e, w') = delete_helm_release k w in
      delete_releases ks w' (errs ++ elim e [ none ↦ [] | some m ↦ m ∷ [] ])

  -- `type_kind` is `desc.Kind`, the kind that the object itself carries.
  unfoldable pub populate_helm_release :
      (type_kind uid : String) → Description → W → Option Message × W
  populate_helm_release type_kind uid desc w =
      elim (api.list_releases w type_kind desc.name desc.namespace uid) [
        | failed f ↦ (some (failure_message f), w)
        | found existing ↦
            let synced =
              sync_charts uid desc desc.charts
                (record { world = w; hrs_to_be_deleted = release_keys existing; all_errs = [] }) in
            elim synced.1 [
              | some e ↦ (some e, synced.0.world)
              | none ↦
                  let left =
                    delete_releases synced.0.hrs_to_be_deleted synced.0.world synced.0.all_errs in
                  (aggregate left.1, left.0)
            ]
      ]

  unfoldable pub delete_all_releases : List Release → W → List Message × W
  delete_all_releases [] w = ([], w)
  delete_all_releases (hr ∷ hrs) w = elim hr.deleting [
    | true ↦ delete_all_releases hrs w
    | false ↦
        let (e, w') = delete_helm_release (api.key hr.namespace hr.name) w in
        let (errs, w'') = delete_all_releases hrs w' in
        (elim e [ none ↦ errs | some m ↦ m ∷ errs ], w'')
  ]

  -- handleDescription for a Description that Helm deploys.
  unfoldable pub handle_helm_description :
      (type_kind uid : String) → Description → W → Option Message × W
  handle_helm_description type_kind uid desc w =
      let release : Option Message × W =
        elim (api.list_releases w "Description" desc.name desc.namespace uid) [
          | failed f ↦ (some (failure_message f), w)
          | found (hr ∷ hrs) ↦ (
            some (
                named "waiting for HelmRelease belongs to Description %s getting deleted"
                  desc.name),
            (delete_all_releases (hr ∷ hrs) w).1,
          )
          | found [] ↦
              let (answer, w') =
                api.update_description
                  (record desc { finalizers = remove_string desc.finalizers app_finalizer }) w in
              (message_of answer, w')
        ] in
      elim (same_text desc.deployer "Helm") [
        | false ↦ (none, w)
        | true ↦ elim (api.list_clusters desc.namespace (label cluster_id_label desc.labels)) [
          | failed f ↦ (some (failure_message f), w)
          | found [] ↦ (
            some (
                named "failed to find a ManagedCluster declaration in namespace %s" desc.namespace),
            w,
          )
          | found (m ∷ ms) ↦ elim m.app_pusher [
            | false ↦ (none, w)
            | true ↦ elim desc.deleting [
              | true ↦ release
              | false ↦ populate_helm_release type_kind uid desc w
            ]
          ]
        ]
      ]

  -- handleSecret. `secret_name` is the name that it looks for, `update` removes the finalizer.
  unfoldable pub handle_secret :
      (list : W → String → Answer (List Release))
      → (update : List String → W → Option Failure × W) → (deleting : Bool)
      → (namespace name secret_name : String) → (finalizers : List String) → W
      → Option Message × W
  handle_secret list update deleting namespace name secret_name finalizers w =
      elim (deleting && same_text name secret_name) [
        | false ↦ (none, w)
        | true ↦ elim (list w namespace) [
          | failed f ↦ (some (failure_message f), w)
          | found (hr ∷ hrs) ↦
              (some (named "waiting all HelmReleases in namespace %s get cleanedup" namespace), w)
          | found [] ↦
              let (answer, w') = update (remove_string finalizers app_finalizer) w in
              (unless_gone answer, w')
        ]
      ]
