-- ===== src/Hub/Bases.antt =====
-- pkg/hub/deployer/deployer.go: handleSubscription and the Bases that it keeps. The listers of Bases
-- and Namespaces, the client and the functions on keys are parameters; events are left out.
pub mod Store
pub mod Keys
pub mod Rounds
pub mod Reconcile
pub mod Finalizer
use clusternet.Prelude.{
  String, Bool, true, false, not, Option, none, some, List, [], ◌∷◌, ◌++◌, contains, same_text, put,
  Result, ok, err, Message, text, named, about, if◌then◌else◌,
}
use clusternet.Utils.Slice.{contains_string, remove_string}
use clusternet.Hub.Api.{
  Feed, same_feeds, Failure, not_found, other, Answer, found, failed, Subscription, Base,
  app_finalizer, cluster_id_label, cluster_name_label, created_by_label, config_kind_label,
  config_name_label, config_namespace_label, config_uid_label, subscription_uid_label,
  subscription_name_label, subscription_namespace_label, label, put_all, aggregate, failure_message,
}
use clusternet.Hub.Feeds.{FeedApi, remove_labels_from_referred_feeds}

-- What the deployer calls for Bases. Listers read a cache, the client changes the world.
pub record BaseApi (W : Type 0) : Type 0 where
  -- `klog.KObj(..).String()` for a namespace and a name, and SplitMetaNamespaceKey.
  pub key : String → String → String
  pub split : String → Result (String × String)
  -- The cached Bases of a Subscription, by their labels, and one cached Base.
  pub list_bases : Subscription → Answer (List Base)
  pub get_base : String → String → Answer Base
  -- The labels of a cached Namespace, `none` for nil.
  pub get_namespace : String → Answer (Option (List (String × String)))
  pub create : Base → W → Option Failure × W
  pub update : Base → W → Option Failure × W
  pub delete : String → String → W → Option Failure × W
  pub update_subscription : Subscription → W → Option Failure × W

abbrev pub message_of : Option Failure → Option Message
message_of none = none
message_of (some f) = some (failure_message f)

-- `deleteBase` of a key that is no longer there is no error.
abbrev pub unless_gone : Option Failure → Option Message
unless_gone none = none
unless_gone (some not_found) = none
unless_gone (some (other m)) = some m

abbrev pub remove_key : String → List String → List String
remove_key k [] = []
remove_key k (j ∷ ks) = let rest = remove_key k ks in if same_text j k then rest else j ∷ rest

-- The Base that a Subscription wants in a namespace with these labels.
unfoldable pub wanted_base : Subscription → String → Option (List (String × String)) → Base
wanted_base sub namespace ns_labels = record {
  namespace = namespace;
  name = sub.name;
  uid = "";
  deleting = false;
  labels =
      let base_labels =
        (created_by_label, "clusternet-hub")
        ∷ (config_kind_label, "Subscription")
        ∷ (config_name_label, sub.name)
        ∷ (config_namespace_label, sub.namespace)
        ∷ (config_uid_label, sub.uid)
        ∷ (subscription_name_label, sub.name)
        ∷ (subscription_namespace_label, sub.namespace)
        ∷ (subscription_uid_label, sub.uid)
        ∷ [] in
      elim ns_labels [
        | none ↦ base_labels
        | some m ↦
            put cluster_name_label (label cluster_name_label m)
              (put cluster_id_label (label cluster_id_label m) base_labels)
      ];
  finalizers = app_finalizer ∷ [];
  feeds = sub.feeds;
}

-- The copy of a Base in the cache that syncBase writes.
unfoldable pub updated_base : Base → Base → Base
updated_base cur base = record cur {
  labels = put_all base.labels cur.labels;
  feeds = base.feeds;
  finalizers =
      if contains_string cur.finalizers app_finalizer
      then cur.finalizers
      else cur.finalizers ++ app_finalizer ∷ [];
}

module _ {W : Type 0} (api : BaseApi W) where
  unfoldable pub sync_base : Base → W → Option Message × W
  sync_base base w = elim (api.get_base base.namespace base.name) [
    | found cur ↦ elim cur.deleting [
      | true ↦ (some (named "Base %s is deleting, will resync later" cur.name), w)
      | false ↦ elim (same_feeds cur.feeds base.feeds) [
        | true ↦ (none, w)
        | false ↦ let (answer, w') = api.update (updated_base cur base) w in (message_of answer, w')
      ]
    ]
    | failed (other m) ↦ (some m, w)
    | failed not_found ↦ let (answer, w') = api.create base w in (message_of answer, w')
  ]

  -- What populateBases keeps in its loops.
  pub record Populating : Type 0 where
    pub world : W
    pub bases_to_be_deleted : List String
    pub all_errs : List Message

  unfoldable pub note_error : Option Message → List Message → List Message
  note_error none errs = errs
  note_error (some e) errs = errs ++ e ∷ []

  -- The end of a round, from the namespace of a cluster and its labels.
  unfoldable pub sync_in :
      Subscription → String → Option (List (String × String)) → Populating → Populating
  sync_in sub namespace ns_labels st =
      let base = wanted_base sub namespace ns_labels in
      let (e, w') = sync_base base st.world in
      record {
        world = w';
        bases_to_be_deleted = remove_key (api.key base.namespace base.name) st.bases_to_be_deleted;
        all_errs = note_error e st.all_errs;
      }

  -- The loop over the binding clusters. An error of the lister of Namespaces other than NotFound ends
  -- populateBases at once.
  unfoldable pub sync_clusters :
      Subscription → List String → Populating → Populating × Option Message
  sync_clusters sub [] st = (st, none)
  sync_clusters sub (c ∷ cs) st = elim (api.split c) [
    | err e ↦
        sync_clusters sub cs
          (record st { all_errs = st.all_errs ++ named "invalid resource key: %s" c ∷ [] })
    | ok (namespace, _) ↦ elim (api.get_namespace namespace) [
      | failed not_found ↦ sync_clusters sub cs st
      | failed (other m) ↦
          (st, some (named "failed to populate Bases for Subscription %s: %v" sub.name))
      | found ns_labels ↦ sync_clusters sub cs (sync_in sub namespace ns_labels st)
    ]
  ]

  module _ (feeds : FeedApi W) where
    unfoldable pub delete_base : String → W → Option Message × W
    delete_base namespaced_key w = elim (api.split namespaced_key) [
      | err e ↦ (some e, w)
      | ok (namespace, name) ↦ elim (api.get_base namespace name) [
        | failed f ↦ (some (failure_message f), w)
        | found base ↦
            let (unlabelled, w') = remove_labels_from_referred_feeds feeds base.uid "Base" w in
            elim unlabelled [
              | some e ↦ (some e, w')
              | none ↦ let (answer, w'') = api.delete namespace name w' in (unless_gone answer, w'')
            ]
      ]
    ]

    -- The loop that deletes what is left, in the order in which the set is read.
    unfoldable pub delete_bases : List String → W → List Message → W × List Message
    delete_bases [] w errs = (w, errs)
    delete_bases (k ∷ ks) w errs =
        let (e, w') = delete_base k w in delete_bases ks w' (note_error e errs)

    -- The keys of the Bases of the Subscription that are cached.
    unfoldable pub base_keys : List Base → List String
    base_keys [] = []
    base_keys (b ∷ bs) = api.key b.namespace b.name ∷ base_keys bs

    unfoldable pub populate_bases : Subscription → W → Option Message × W
    populate_bases sub w = elim (api.list_bases sub) [
      | failed f ↦ (some (failure_message f), w)
      | found existing ↦
          let synced =
            sync_clusters sub sub.binding_clusters
              (record { world = w; bases_to_be_deleted = base_keys existing; all_errs = [] }) in
          elim synced.1 [
            | some e ↦ (some e, synced.0.world)
            | none ↦
                let left =
                  delete_bases synced.0.bases_to_be_deleted synced.0.world synced.0.all_errs in
                (aggregate left.1, left.0)
          ]
    ]

    -- The loop of handleSubscription over the Bases of a Subscription that is being deleted.
    unfoldable pub delete_all_bases : List Base → W → List Message × W
    delete_all_bases [] w = ([], w)
    delete_all_bases (b ∷ bs) w = elim b.deleting [
      | true ↦ delete_all_bases bs w
      | false ↦
          let (e, w') = delete_base (api.key b.namespace b.name) w in
          let (errs, w'') = delete_all_bases bs w' in
          (elim e [ none ↦ errs | some m ↦ m ∷ errs ], w'')
    ]

    unfoldable pub handle_subscription : Subscription → W → Option Message × W
    handle_subscription sub w = elim sub.deleting [
      | false ↦ populate_bases sub w
      | true ↦ elim (api.list_bases sub) [
        | failed f ↦ (some (failure_message f), w)
        | found (b ∷ bs) ↦ (
          some (named "waiting for Bases belongs to Subscription %s getting deleted" sub.name),
          (delete_all_bases (b ∷ bs) w).1,
        )
        | found [] ↦
            let (unlabelled, w') =
              remove_labels_from_referred_feeds feeds sub.uid "Subscription" w in
            elim unlabelled [
              | some e ↦ (some e, w')
              | none ↦
                  let (answer, w'') =
                    api.update_subscription
                      (record sub { finalizers = remove_string sub.finalizers app_finalizer }) w' in
                  (message_of answer, w'')
            ]
      ]
    ]
