-- ===== src/Hub/Examples/Overrides.antt =====
-- The protection of feeds, the Descriptions and the overrides of pkg/hub at test data.
use clusternet.Prelude.{
  String, Bool, true, false, none, List, [], ◌∷◌, ◌++◌, ◌≡◌, ◌≢◌, ◌⊎◌, refl, All, ok, same_text,
  arith, if◌then◌else◌, if-both,
}
use clusternet.Prelude.Int.{pos}
use clusternet.Hub.Api.{
  Feed, not_found, found, failed, Subscription, Base, app_finalizer, feed_protection_finalizer,
  config_kind_label, config_name_label, config_namespace_label,
}
use clusternet.Hub.Feeds.{FeedApi, Referent}
use clusternet.Hub.Protection.{ProtectionApi, release}
use clusternet.Hub.Protection.Safety.{KeptByProtection, is_live, release-NotLive}
use clusternet.Hub.Descriptions.{Description, DescriptionApi}
use clusternet.Hub.Localizer.{
  OverrideConfig, Policy, PatchLibrary, LocalizerApi, apply_overrides, is_before, get_overrides,
  uid_of, apply_override, apply_helm_override,
}
use clusternet.Utils.Slice.{contains_string}
use clusternet.Hub.Localizer.Steps.{Run, apply_overrides-Run}
use clusternet.Hub.Localizer.Order.{
  IsPrioritized, IsSorted, live, joined, get_overrides-IsPrioritized,
}

abbrev nginx : Feed
nginx = record {
  kind = "Deployment";
  api_version = "apps/v1";
  namespace = "default";
  name = "nginx";
  replicas = [];
}

abbrev web_uid : String
web_uid = "0c9e7a54-6b1f-4d7e-9f5e-3d2c1b0a9f8e"

-- A Subscription that refers to the Manifest.
abbrev web : Subscription
web = record {
  namespace = "default";
  name = "web";
  uid = web_uid;
  deleting = false;
  finalizers = [];
  feeds = nginx ∷ [];
  binding_clusters = [];
}

abbrev manifest : Referent
manifest = record {
  uid = "uid-nginx";
  namespace = "clusternet-reserved";
  name = "deployments.default.nginx";
  deleting = true;
  labels =
      (web_uid, "Subscription")
      ∷ (config_kind_label, "Deployment")
      ∷ (config_namespace_label, "default")
      ∷ (config_name_label, "nginx")
      ∷ [];
  finalizers = app_finalizer ∷ feed_protection_finalizer ∷ [];
  phase = "";
  raw = "{}";
}

-- The world is the list of finalizers of the Manifest.
abbrev protection : ProtectionApi (List String)
protection = record {
  kind_of = λ r. "Deployment";
  list_subscriptions = λ w. found (web ∷ []);
  remove_feed = λ labels sub w. (none, w);
  annotate = λ r m w. (none, w);
  update = λ r w. (none, r.finalizers);
}

kept : KeptByProtection (λ (w : List String). w) protection
kept = record { remove_feed = λ labels s w. refl; annotate = λ r m w. refl }

release-NotLive_example :
    (((release protection manifest manifest.finalizers).1 ≡ manifest.finalizers)
      × ((release protection manifest manifest.finalizers).0 ≢ none))
    ⊎ All (λ (s : Subscription). is_live manifest.labels s ≡ false) (web ∷ [])
unfolding contains_string
release-NotLive_example =
    release-NotLive (λ (w : List String). w) protection kept manifest (web ∷ []) manifest.finalizers
      refl refl

abbrev base : Base
base = record {
  namespace = "ns-a";
  name = "web";
  uid = "uid-base";
  deleting = false;
  labels = [];
  finalizers = app_finalizer ∷ [];
  feeds = nginx ∷ [];
}

-- The world is the list of Descriptions.
abbrev feeds : FeedApi (List Description)
feeds = record {
  list_charts = λ w uid kind. found [];
  list_manifests = λ w uid kind. found [];
  get_chart = λ w ns n. failed not_found;
  manifests_of = λ w f. found (manifest ∷ []);
  patch_chart = λ r p w. (none, w);
  patch_manifest = λ r p w. (none, w);
}

abbrev descriptions : DescriptionApi (List Description)
descriptions = record {
  key = λ ns n. n;
  split = λ k. ok ("ns-a", k);
  helm_name = λ n. "web-helm";
  generic_name = λ n. "web-generic";
  list_descriptions = λ w b. found w;
  get_description = λ w ns n. failed not_found;
  apply_overrides = λ w d. ok d.raw;
  prune = λ cur d w. w;
  create = λ d w. (none, d ∷ w);
  update = λ d w. (none, w);
  delete = λ ns n w. (none, w);
  update_base = λ b w. (none, w);
}

abbrev replicas : OverrideConfig
replicas = record { name = "replicas"; value = "replicas: 3"; override_type = "MergePatch" }

abbrev image : OverrideConfig
image = record { name = "image"; value = "image: nginx:1.21"; override_type = "Helm" }

abbrev policy : String → Bool → Policy
policy n deleting = record {
  namespace = "ns-a";
  name = n;
  deleting = deleting;
  finalizers = app_finalizer ∷ [];
  created_second = 7;
  override_policy = "ApplyNow";
  overrides = replicas ∷ [];
  priority = pos 100;
  feed = nginx;
}

abbrev library : PatchLibrary String String
library = record {
  is_blank = λ s. same_text s " ";
  yaml_to_json = λ s. ok s;
  decode_patch = λ s. ok s;
  operations = λ p. 1;
  apply_patch = λ p s. ok p;
  merge_patch = λ s p. ok p;
  unmarshal = λ s. ok s;
  coalesce = λ a b. a;
  marshal = λ v. ok v;
}

apply_overrides-Run_example : Run library "{}" (replicas ∷ image ∷ []) "image: nginx:1.21"
unfolding apply_overrides apply_override apply_helm_override
apply_overrides-Run_example =
    apply_overrides-Run library "{}" "image: nginx:1.21" (replicas ∷ image ∷ []) refl

-- A sort by insertion.
abbrev insert : (Policy → Policy → Bool) → Policy → List Policy → List Policy
insert less p [] = p ∷ []
insert less p (q ∷ ps) = let rest = insert less p ps in if less q p then q ∷ rest else p ∷ q ∷ ps

abbrev insertion_sort : (Policy → Policy → Bool) → List Policy → List Policy
insertion_sort less [] = []
insertion_sort less (p ∷ ps) = insert less p (insertion_sort less ps)

abbrev localizer : LocalizerApi
localizer = record {
  get_chart = λ ns n. failed not_found;
  manifests_of = λ f. found (manifest ∷ []);
  list_globalizations = λ uid kind. found (policy "all" false ∷ policy "old" true ∷ []);
  list_localizations = λ ns uid kind. found (policy "near" false ∷ []);
  sort_stable = insertion_sort;
}

not_before :
    (p q r : Policy) → is_before q p ≡ false → is_before r q ≡ false → is_before r p ≡ false
unfolding is_before
not_before p q r h k = ground arith

before_asym : (p q : Policy) → is_before q p ≡ true → is_before p q ≡ false
unfolding is_before
before_asym p q h = ground arith

All-not_before :
    (p q : Policy) (ps : List Policy)
    → is_before q p ≡ false
    → All (λ (r : Policy). is_before r q ≡ false) ps
    → All (λ (r : Policy). is_before r p ≡ false) ps
All-not_before p q [] h k = tt
All-not_before p q (r ∷ ps) h k = (not_before p q r h k.0, All-not_before p q ps h k.1)

All-insert :
    (P : Policy → Type 0) (p : Policy) (ps : List Policy)
    → P p
    → All P ps
    → All P (insert is_before p ps)
All-insert P p [] h k = (h, tt)
All-insert P p (q ∷ ps) h k =
    if-both (All P) (is_before q p) (q ∷ insert is_before p ps) (p ∷ q ∷ ps)
      (λ _. (k.0, All-insert P p ps h k.1)) (λ _. (h, k))

insert-IsSorted :
    (p : Policy) (ps : List Policy)
    → IsSorted is_before ps
    → IsSorted is_before (insert is_before p ps)
insert-IsSorted p [] h = (tt, tt)
insert-IsSorted p (q ∷ ps) h =
    if-both (IsSorted is_before) (is_before q p) (q ∷ insert is_before p ps) (p ∷ q ∷ ps)
      (λ e. (
        All-insert (λ (r : Policy). is_before r q ≡ false) p ps (before_asym p q e) h.0,
        insert-IsSorted p ps h.1,
      ))
      (λ e. ((e, All-not_before p q ps e h.0), h))

sorts : (ps : List Policy) → IsSorted is_before (insertion_sort is_before ps)
sorts [] = tt
sorts (p ∷ ps) = insert-IsSorted p (insertion_sort is_before ps) (sorts ps)

abbrev globs : List Policy
globs = policy "all" false ∷ policy "old" true ∷ []

abbrev locs : List Policy
locs = policy "near" false ∷ []

get_overrides-IsPrioritized_example :
    (get_overrides localizer "ns-a" nginx
      ≡ found (
          joined (live (insertion_sort is_before globs))
          ++ joined (live (insertion_sort is_before locs))))
    × IsPrioritized (live (insertion_sort is_before globs))
    × IsPrioritized (live (insertion_sort is_before locs))
unfolding uid_of
get_overrides-IsPrioritized_example =
    get_overrides-IsPrioritized localizer "ns-a" "uid-nginx" nginx globs locs sorts refl refl refl
