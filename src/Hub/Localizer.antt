-- ===== src/Hub/Localizer.antt =====
-- pkg/hub/localizer: Globalizations and Localizations override what is deployed. The listers, YAML,
-- JSON, the libraries for patches and for charts, and the stable sort are parameters; seconds are those
-- of a time within its minute.
pub mod Order
pub mod Steps
use clusternet.Prelude.{
  ℕ, String, Bool, true, false, ◌&&◌, Option, none, some, List, [], ◌∷◌, ◌++◌, same_text, length,
  ltb, Result, ok, err, ◌>>=◌, Message, text, named, about, if◌then◌else◌,
}
use clusternet.Prelude.Int.{ℤ, ltb_ℤ, leb_ℤ}
use clusternet.Utils.Slice.{remove_string}
use clusternet.Hub.Api.{
  Feed, Failure, not_found, other, Answer, found, failed, app_finalizer, aggregate, failure_message,
}
use clusternet.Hub.Feeds.{Referent}
use clusternet.Hub.Bases.{message_of}

pub record OverrideConfig : Type 0 where
  pub name : String
  pub value : String
  pub override_type : String

-- A Globalization or a Localization.
pub record Policy : Type 0 where
  pub namespace : String
  pub name : String
  pub deleting : Bool
  pub finalizers : List String
  -- `CreationTimestamp.Second()`.
  pub created_second : ℕ
  pub override_policy : String
  pub overrides : List OverrideConfig
  pub priority : ℤ
  pub feed : Feed

-- The libraries that overrides are applied with; a document is a text.
pub record PatchLibrary (P V : Type 0) : Type 0 where
  -- `len(strings.TrimSpace(..)) == 0`.
  pub is_blank : String → Bool
  pub yaml_to_json : String → Result String
  pub decode_patch : String → Result P
  pub operations : P → ℕ
  pub apply_patch : P → String → Result String
  pub merge_patch : String → String → Result String
  -- Tables of values: json.Unmarshal, CoalesceTables and json.Marshal.
  pub unmarshal : String → Result V
  pub coalesce : V → V → V
  pub marshal : V → Result String

abbrev pub max_json_patch_operations : ℕ
max_json_patch_operations = 10000

-- The error of `fmt.Errorf(format, name, err)` in place of an error.
abbrev pub wrap : String → String → Result String → Result String
wrap format name (ok a) = ok a
wrap format name (err e) = err (about format name e)

module _ {P V : Type 0} (lib : PatchLibrary P V) where
  unfoldable pub apply_json_patch : String → String → Result String
  apply_json_patch cur override = elim (lib.decode_patch override) [
    | err e ↦ err e
    | ok patch ↦
        if ltb max_json_patch_operations (lib.operations patch)
        then err (text "the allowed maximum operations in a JSON patch is %d, got %d")
        else lib.apply_patch patch cur
  ]

  unfoldable pub apply_helm_override : String → String → Result String
  apply_helm_override current override = lib.unmarshal current >>= λ current_obj.
      lib.unmarshal override >>= λ override_values.
      lib.marshal (lib.coalesce override_values current_obj)

  -- The end of a round of applyOverrides, for an override in JSON.
  unfoldable pub apply_override : OverrideConfig → String → String → Result String
  apply_override config result override =
      if lib.is_blank result
      then ok override
      else if same_text config.override_type "Helm"
      then wrap "failed to apply OverrideConfig %s: %v" config.name
          (apply_helm_override result override)
      else if same_text config.override_type "JSONPatch"
      then wrap "failed to apply OverrideConfig %s: %v" config.name
          (apply_json_patch result override)
      else if same_text config.override_type "MergePatch"
      then wrap "failed to apply OverrideConfig %s: %v" config.name
          (lib.merge_patch result override)
      else err (named "unsupported OverrideType %s" config.override_type)

  unfoldable pub apply_overrides : String → List OverrideConfig → Result String
  apply_overrides result [] = ok result
  apply_overrides result (config ∷ overrides) = elim (lib.is_blank config.value) [
    | true ↦ apply_overrides result overrides
    | false ↦ elim (lib.yaml_to_json config.value) [
      | err e ↦ err (about "failed to convert patch %s to JSON: %v" config.value e)
      | ok override ↦ elim (apply_override config result override) [
        | err e ↦ err e
        | ok result' ↦ apply_overrides result' overrides
      ]
    ]
  ]

-- The order by which getOverrides sorts.
unfoldable pub is_before : Policy → Policy → Bool
is_before a b =
    if leb_ℤ a.priority b.priority && leb_ℤ b.priority a.priority
    then ltb a.created_second b.created_second
    else ltb_ℤ a.priority b.priority

-- The overrides of policies that are not being deleted.
unfoldable pub overrides_of : List Policy → List OverrideConfig
overrides_of [] = []
overrides_of (p ∷ ps) =
    let rest = overrides_of ps in if p.deleting then rest else p.overrides ++ rest

pub record LocalizerApi : Type 0 where
  pub get_chart : String → String → Answer Referent
  pub manifests_of : Feed → Answer (List Referent)
  -- The policies that have the label `uid=kind`, of a namespace for Localizations.
  pub list_globalizations : String → String → Answer (List Policy)
  pub list_localizations : String → String → String → Answer (List Policy)
  -- sort.SliceStable.
  pub sort_stable : (Policy → Policy → Bool) → List Policy → List Policy

module _ (api : LocalizerApi) where
  -- The UID of the object that a feed stands for.
  unfoldable pub uid_of : Feed → Answer String
  uid_of feed = elim (same_text feed.kind "HelmChart") [
    | true ↦ elim (api.get_chart feed.namespace feed.name) [
      | failed f ↦ failed f
      | found chart ↦ found chart.uid
    ]
    | false ↦ elim (api.manifests_of feed) [
      | failed f ↦ failed f
      | found [] ↦ failed not_found
      | found (m ∷ ms) ↦ found m.uid
    ]
  ]

  unfoldable pub get_overrides : String → Feed → Answer (List OverrideConfig)
  get_overrides namespace feed = elim (uid_of feed) [
    | failed f ↦ failed f
    | found uid ↦ elim (api.list_globalizations uid feed.kind) [
      | failed f ↦ failed f
      | found globs ↦ elim (api.list_localizations namespace uid feed.kind) [
        | failed f ↦ failed f
        | found locs ↦ found (
            overrides_of (api.sort_stable is_before globs)
            ++ overrides_of (api.sort_stable is_before locs))
      ]
    ]
  ]

  module _ {P V : Type 0} (lib : PatchLibrary P V) where
    -- The overrides of one feed on a document: the new document, or the error.
    unfoldable pub override_one : String → Feed → String → Result String
    override_one namespace feed document = elim (get_overrides namespace feed) [
      | failed f ↦ err (failure_message f)
      | found overrides ↦ apply_overrides lib document overrides
    ]

    -- The charts of a Description: a document for each, empty where there was an error.
    unfoldable pub override_charts : String → List (String × String) → List String × List Message
    override_charts namespace [] = ([], [])
    override_charts namespace ((chart_namespace, chart_name) ∷ charts) =
        let (raw, errs) = override_charts namespace charts in
        let feed : Feed = record {
          kind = "HelmChart";
          api_version = "v1alpha1";
          namespace = chart_namespace;
          name = chart_name;
          replicas = [];
        } in
        elim (override_one namespace feed " ") [
          | err e ↦ ("" ∷ raw, e ∷ errs)
          | ok result ↦ (result ∷ raw, errs)
        ]

    -- The objects of a Description, kept as they are where there was an error. `feed_of` reads the
    -- kind, the API version, the namespace and the name of an object.
    unfoldable pub override_objects :
        (feed_of : String → Result Feed) → String → List String → List String × List Message
    override_objects feed_of namespace [] = ([], [])
    override_objects feed_of namespace (object ∷ objects) =
        let (raw, errs) = override_objects feed_of namespace objects in
        elim (feed_of object >>= λ feed. override_one namespace feed object) [
          | err e ↦ (object ∷ raw, e ∷ errs)
          | ok result ↦ (result ∷ raw, errs)
        ]

    unfoldable pub apply_overrides_to_description :
        (feed_of : String → Result Feed)
        → (namespace deployer : String) → (charts : List (String × String)) → (raw : List String)
        → List String × Option Message
    apply_overrides_to_description feed_of namespace deployer charts raw =
        if same_text deployer "Helm"
        then ((override_charts namespace charts).0, aggregate (override_charts namespace charts).1)
        else if same_text deployer "Generic"
        then (
          (override_objects feed_of namespace raw).0,
          aggregate (override_objects feed_of namespace raw).1,
        )
        else (raw, some (named "unsupported deployer %s" deployer))

  module _ {W : Type 0} (chart_callback manifest_callback : Referent → W → Option Message × W)
      (update : Policy → W → Option Failure × W) where
    -- The finalizer of a policy that is being deleted.
    unfoldable pub drop_finalizer : Policy → W → Option Message × W
    drop_finalizer p w = elim p.deleting [
      | false ↦ (none, w)
      | true ↦
          let (answer, w') =
            update (record p { finalizers = remove_string p.finalizers app_finalizer }) w in
          (message_of answer, w')
    ]

    -- handleLocalization, and handleGlobalization, which is the same for the other kind.
    unfoldable pub handle_policy : Policy → W → Option Message × W
    handle_policy p w = elim (same_text p.override_policy "ApplyNow") [
      | true ↦ elim (same_text p.feed.kind "HelmChart") [
        | true ↦ elim (api.get_chart p.feed.namespace p.feed.name) [
          | failed not_found ↦ drop_finalizer p w
          | failed (other m) ↦ (some m, w)
          | found chart ↦
              let (answer, w') = chart_callback chart w in
              elim answer [ some e ↦ (some e, w') | none ↦ drop_finalizer p w' ]
        ]
        | false ↦ elim (api.manifests_of p.feed) [
          | failed f ↦ (some (failure_message f), w)
          | found [] ↦ drop_finalizer p w
          | found (m ∷ ms) ↦
              let (answer, w') = manifest_callback m w in
              elim answer [ some e ↦ (some e, w') | none ↦ drop_finalizer p w' ]
        ]
      ]
      | false ↦ elim (same_text p.override_policy "ApplyLater") [
        | true ↦ drop_finalizer p w
        | false ↦ (none, w)
      ]
    ]
