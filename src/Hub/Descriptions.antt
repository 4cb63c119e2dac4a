-- ===== src/Hub/Descriptions.antt =====
-- pkg/hub/deployer/deployer.go: populateDescriptions and what it writes. The lister of
-- Descriptions, the client, the localizer and the pruning that goes on in the background are
-- parameters; a name that is formatted is made by the parameter it stands for.
pub mod Handling
pub mod Collection
pub mod Written
use clusternet.Prelude.{
  String, Bool, true, false, ◌&&◌, Option, none, some, List, [], ◌∷◌, ◌++◌, same_text, contains,
  map, put, Result, ok, err, Message, text, named, about, if◌then◌else◌, Result,
}
use clusternet.Utils.Slice.{contains_string, remove_string}
use clusternet.Hub.Api.{
  Feed, Failure, not_found, other, Answer, found, failed, Base, app_finalizer, cluster_id_label,
  cluster_name_label, created_by_label, config_kind_label, config_name_label,
  config_namespace_label, config_uid_label, subscription_uid_label, subscription_name_label,
  subscription_namespace_label, label, put_all, aggregate, failure_message,
}
use clusternet.Hub.Feeds.{Referent, FeedApi, add_labels_to_referred_feeds}
use clusternet.Hub.Bases.{message_of, unless_gone, remove_key}

pub record Description : Type 0 where
  pub namespace : String
  pub name : String
  pub deleting : Bool
  pub labels : List (String × String)
  pub finalizers : List String
  -- The name and the UID of the Base that owns it.
  pub owner : String × String
  pub deployer : String
  pub charts : List (String × String)
  pub raw : List String

-- What the deployer calls for Descriptions.
pub record DescriptionApi (W : Type 0) : Type 0 where
  pub key : String → String → String
  pub split : String → Result (String × String)
  -- "%s-helm" and "%s-generic" of a name.
  pub helm_name : String → String
  pub generic_name : String → String
  pub list_descriptions : W → Base → Answer (List Description)
  pub get_description : W → String → String → Answer Description
  -- The `Spec.Raw` that ApplyOverridesToDescription of the localizer leaves.
  pub apply_overrides : W → Description → Result (List String)
  -- `PruneFeedsInDescription`, started with the Description as it is and as it is to be.
  pub prune : Description → Description → W → W
  pub create : Description → W → Option Failure × W
  pub update : Description → W → Option Failure × W
  pub delete : String → String → W → Option Failure × W
  pub update_base : Base → W → Option Failure × W

abbrev pub same_charts : List (String × String) → List (String × String) → Bool
same_charts [] [] = true
same_charts ((a, b) ∷ xs) ((c, d) ∷ ys) = same_text a c && same_text b d && same_charts xs ys
same_charts _ _ = false

abbrev pub same_texts : List String → List String → Bool
same_texts [] [] = true
same_texts (a ∷ xs) (b ∷ ys) = same_text a b && same_texts xs ys
same_texts _ _ = false

-- DeepEqual on the specs of two Descriptions.
abbrev pub same_spec : Description → Description → Bool
same_spec a b =
    same_text a.deployer b.deployer && same_charts a.charts b.charts && same_texts a.raw b.raw

-- How the loop over the feeds of a Base ends: at its end, at a chart that is still verified or is not
-- there, or with an error at a feed.
pub data Collected : Type 0 where
  collected : (charts : List (String × String)) → (manifests : List String) → Collected
  verifying : (chart : String) → Collected
  chart_missing : Collected
  stopped : Feed → Failure → Collected

module _ {W : Type 0} (feeds : FeedApi W) where
  unfoldable pub collect : W → List Feed → List (String × String) → List String → Collected
  collect w [] charts manifests = collected charts manifests
  collect w (feed ∷ rest) charts manifests = elim (same_text feed.kind "HelmChart") [
    | true ↦ elim (feeds.get_chart w feed.namespace feed.name) [
      | failed f ↦ stopped feed f
      | found chart ↦ elim (same_text chart.phase "") [
        | true ↦ verifying chart.name
        | false ↦ elim (same_text chart.phase "NotFound") [
          | true ↦ chart_missing
          | false ↦ collect w rest (charts ++ (chart.namespace, chart.name) ∷ []) manifests
        ]
      ]
    ]
    | false ↦ elim (feeds.manifests_of w feed) [
      | failed f ↦ stopped feed f
      | found [] ↦ stopped feed not_found
      | found (m ∷ ms) ↦ collect w rest charts (manifests ++ map (λ (r : Referent). r.raw) (m ∷ ms))
    ]
  ]

module _ {W : Type 0} (api : DescriptionApi W) where
  unfoldable pub delete_description : String → W → Option Message × W
  delete_description namespaced_key w = elim (api.split namespaced_key) [
    | err e ↦ (some e, w)
    | ok (ns, name) ↦ let (answer, w') = api.delete ns name w in (unless_gone answer, w')
  ]

  -- The copy of a Description in the cache that syncDescriptions writes.
  unfoldable pub updated_description : Description → Description → Description
  updated_description cur desc = record cur {
    labels = put_all desc.labels cur.labels;
    deployer = desc.deployer;
    charts = desc.charts;
    raw = desc.raw;
    finalizers =
        if contains_string cur.finalizers app_finalizer
        then cur.finalizers
        else cur.finalizers ++ app_finalizer ∷ [];
  }

  unfoldable pub sync_descriptions : Base → Description → W → Option Message × W
  sync_descriptions base template w = elim (api.apply_overrides w template) [
    | err e ↦ (some e, w)
    | ok overridden ↦
        let desc = record template { raw = overridden } in
        elim base.feeds [
          | [] ↦ delete_description (api.key desc.namespace desc.name) w
          | _ ∷ _ ↦ elim (api.get_description w desc.namespace desc.name) [
            | found cur ↦ elim cur.deleting [
              | true ↦ (some (named "description %s is deleting, will resync later" cur.name), w)
              | false ↦ elim (same_spec cur desc) [
                | true ↦ (none, w)
                | false ↦
                    let (answer, w') =
                      api.update (updated_description cur desc) (api.prune cur desc w) in
                    (message_of answer, w')
              ]
            ]
            | failed f ↦ let (answer, w') = api.create desc w in (message_of answer, w')
          ]
        ]
  ]

  unfoldable pub description_template : Base → Description
  description_template base = record {
    namespace = base.namespace;
    name = "";
    deleting = false;
    labels =
        (created_by_label, "clusternet-hub")
        ∷ (config_kind_label, "Base")
        ∷ (config_name_label, base.name)
        ∷ (config_namespace_label, base.namespace)
        ∷ (config_uid_label, base.uid)
        ∷ (cluster_id_label, label cluster_id_label base.labels)
        ∷ (cluster_name_label, label cluster_name_label base.labels)
        ∷ (subscription_name_label, label subscription_name_label base.labels)
        ∷ (subscription_namespace_label, label subscription_namespace_label base.labels)
        ∷ (subscription_uid_label, label subscription_uid_label base.labels)
        ∷ [];
    finalizers = app_finalizer ∷ [];
    owner = (base.name, base.uid);
    deployer = "";
    charts = [];
    raw = [];
  }

  -- The keys of the Descriptions that are not being deleted.
  unfoldable pub description_keys : List Description → List String
  description_keys [] = []
  description_keys (d ∷ ds) =
      let rest = description_keys ds in
      if d.deleting then rest else api.key d.namespace d.name ∷ rest

  -- What the end of populateDescriptions keeps.
  pub record Writing : Type 0 where
    pub world : W
    pub descs_to_be_deleted : List String
    pub all_errs : List Message

  -- One of the two Descriptions of a Base.
  unfoldable pub sync_one : Base → Description → Writing → Writing
  sync_one base desc st =
      let (answer, w') = sync_descriptions base desc st.world in
      record {
        world = w';
        descs_to_be_deleted = remove_key (api.key desc.namespace desc.name) st.descs_to_be_deleted;
        all_errs = st.all_errs ++ elim answer [ none ↦ [] | some e ↦ e ∷ [] ];
      }

  unfoldable pub delete_descriptions : List String → W → List Message → W × List Message
  delete_descriptions [] w errs = (w, errs)
  delete_descriptions (k ∷ ks) w errs =
      let (e, w') = delete_description k w in
      delete_descriptions ks w' (errs ++ elim e [ none ↦ [] | some m ↦ m ∷ [] ])

  -- The rest of populateDescriptions, from the charts and the templates that were collected.
  unfoldable pub write_descriptions :
      Base → List (String × String) → List String → List Description → W → Option Message × W
  write_descriptions base charts manifests existing w =
      let template = description_template base in
      let start : Writing = record {
        world = w;
        descs_to_be_deleted = description_keys existing;
        all_errs = [];
      } in
      let helm : Writing = elim charts [
        | [] ↦ start
        | c ∷ cs ↦
            let desc = record template {
              name = api.helm_name base.name;
              deployer = "Helm";
              charts = c ∷ cs;
            } in
            sync_one base desc start
      ] in
      let generic : Writing = elim manifests [
        | [] ↦ helm
        | m ∷ ms ↦
            let desc = record template {
              name = api.generic_name base.name;
              deployer = "Generic";
              raw = m ∷ ms;
            } in
            sync_one base desc helm
      ] in
      let left = delete_descriptions generic.descs_to_be_deleted generic.world generic.all_errs in
      (aggregate left.1, left.0)

  module _ (feeds : FeedApi W) where
    unfoldable pub populate_descriptions : Base → W → Option Message × W
    populate_descriptions base w = elim (collect feeds w base.feeds [] []) [
      | verifying chart ↦ (some (named "HelmChart %s is in verifying" chart), w)
      | chart_missing ↦ (none, w)
      | stopped feed not_found ↦
          (some (about "Base %s is using a nonexistent %s" base.name (text feed.name)), w)
      | stopped feed (other m) ↦ (some m, w)
      | collected charts manifests ↦ elim (api.list_descriptions w base) [
        | failed f ↦ (some (failure_message f), w)
        | found existing ↦ write_descriptions base charts manifests existing w
      ]
    ]
