-- ===== src/Utils/Examples/Deployment.antt =====
-- pkg/utils/deployer.go at a world that is a list of resources, and a cluster that answers at once.
use package.text.Mathlib.TextPositions.{eq_refl}
use clusternet.Prelude.{
  String, Bool, true, false, Option, none, some, List, [], ◌∷◌, ◌≡◌, ◌⊎◌, refl, All, Result, ok,
  err, Message, text, contains, same_text, arith, if◌then◌else◌, same_text_iff,
}
use clusternet.Utils.Slice.{contains_string, remove_string, contains_string-remove_string}
use clusternet.Hub.Api.{not_found, Answer, found, failed, app_finalizer}
use clusternet.Hub.Descriptions.{Description}
use clusternet.Hub.Localizer.{LocalizerApi, PatchLibrary}
use clusternet.Utils.Resources.{
  ResourceApi, Backoff, already_exists, offload_each, offload_description,
  apply_resource_with_retry, with_retry, try_apply, resource_need_resync, needs_sync, try_update,
  delete_resource_with_retry, try_delete,
}
use clusternet.Utils.Resources.Attempts.{IsTrying, attempts}
use clusternet.Utils.Resources.Deletion.{DeletionLaws}
use clusternet.Utils.Resources.Offload.{IsOffloaded, offload_description-IsOffloaded}
use clusternet.Utils.Resources.Application.{IsApplied, apply_resource-IsApplied}
use clusternet.Hub.Generic.{
  prune_feeds_in_description, desired_resources, resources_to_be_deleted, prune_each,
}
use clusternet.Hub.Generic.Prune.{IsSparing, prune_feeds-spares, IsPruned, prune_feeds-IsPruned}
use clusternet.Utils.Deployer.{
  HelmRelease, resolve_controller_ref, get_overrides, read_values, index_of,
}
use clusternet.Utils.Deployer.Range.{get_overrides-IsPast, IsPast}

-- The names of the resources in the cluster, and the finalizers of the Description.
record World : Type 0 where
  resources : List String
  finalizers : List String

abbrev full : World
full = record { resources = "web" ∷ "db" ∷ []; finalizers = app_finalizer ∷ [] }

abbrev cluster : ResourceApi World String
cluster = record {
  clear_uid = λ r. r;
  rest_mapping = λ r w. none;
  create = λ r w.
      if contains r w.resources
      then (some already_exists, w)
      else (none, record w { resources = r ∷ w.resources });
  get = λ r w. if contains r w.resources then ok r else err (text "not found");
  update = λ r w. (none, w);
  delete = λ r w.
      if contains_string w.resources r
      then (none, record w { resources = remove_string w.resources r })
      else (some not_found, w);
  create_patch = λ a b. ok (record { operation = "replace"; path = "/spec" } ∷ []);
  status_cause = λ m. none;
  copy_field = λ cur field r. r;
  unmarshal = λ o. ok o;
  set_owner = λ owner r. r;
}

-- Four attempts.
abbrev steps : Backoff World
steps c st = attempts 4 c st

steps-IsTrying : IsTrying steps
steps-IsTrying c st = (3, refl)

abbrev Gone : String → World → Type 0
Gone r w = contains_string w.resources r ≡ false

deletion : DeletionLaws cluster Gone
deletion = record {
  deleted = λ r w. ground (arith, contains_string-remove_string w.resources r r, eq_refl r);
  missing = λ r w. ground arith;
  stays = λ r s w. ground (arith, contains_string-remove_string w.resources s r);
}

abbrev write_finalizers : List String → World → Option Message × World
write_finalizers fs w = (none, record w { finalizers = fs })

offload_description-IsOffloaded_example :
    let v = (offload_each cluster steps ("web" ∷ "gone" ∷ []) full).1 in
    (All (IsOffloaded cluster steps Gone steps-IsTrying deletion v) ("web" ∷ "gone" ∷ [])
      × (offload_description cluster steps write_finalizers full.finalizers
            ("web" ∷ "gone" ∷ [])
            full
          ≡ write_finalizers (remove_string full.finalizers app_finalizer) v))
    ⊎ ((e : Message) × (offload_description cluster steps write_finalizers full.finalizers
            ("web" ∷ "gone" ∷ [])
            full
          ≡ (some e, v)))
offload_description-IsOffloaded_example =
    offload_description-IsOffloaded cluster steps Gone steps-IsTrying deletion write_finalizers
      full.finalizers ("web" ∷ "gone" ∷ []) full

apply_resource-IsApplied_example :
    IsApplied cluster steps steps-IsTrying "web"
      (apply_resource_with_retry cluster steps "web" full).1
unfolding apply_resource_with_retry with_retry attempts try_apply resource_need_resync needs_sync
    contains_string try_update
apply_resource-IsApplied_example =
    apply_resource-IsApplied cluster steps steps-IsTrying "web" full refl

abbrev localizer : LocalizerApi
localizer = record {
  get_chart = λ ns n. failed not_found;
  manifests_of = λ f. found [];
  list_globalizations = λ uid kind. found [];
  list_localizations = λ ns uid kind. found [];
  sort_stable = λ less ps. ps;
}

abbrev library : PatchLibrary String String
library = record {
  is_blank = λ s. same_text s " ";
  yaml_to_json = λ s. ok s;
  decode_patch = λ s. ok s;
  operations = λ p. 1;
  apply_patch = λ p s. ok p;
  merge_patch = λ s p. ok p;
  unmarshal = λ s. ok s;
  coalesce = λ a b. a;
  marshal = λ v. ok v;
}

abbrev description : Description
description = record {
  namespace = "ns-a";
  name = "web-helm";
  deleting = false;
  labels = [];
  finalizers = app_finalizer ∷ [];
  owner = ("web", "uid-base");
  deployer = "Helm";
  charts = ("default", "mysql") ∷ [];
  raw = "" ∷ [];
}

abbrev release : HelmRelease
release = record {
  namespace = "ns-a";
  name = "mysql";
  deleting = false;
  controller = some (record { kind = "Description"; name = "web-helm"; uid = "uid-desc" });
}

abbrev cached : String → String → Answer (Description × String)
cached ns n = found (description, "uid-desc")

abbrev name_of : String → String × String → String
name_of desc chart = chart.1

abbrev never_blank : String → Bool
never_blank s = false

abbrev decode : String → Result String
decode s = ok s

-- A Description without documents.
abbrev undocumented : String → String → Answer (Description × String)
undocumented ns n = found (record description { raw = [] }, "uid-desc")

get_overrides-IsPast_example : IsPast undocumented name_of never_blank decode release
unfolding get_overrides read_values index_of resolve_controller_ref
get_overrides-IsPast_example =
    get_overrides-IsPast undocumented name_of never_blank decode release refl

abbrev own_name : String → String
own_name r = r

abbrev Present : String → World → Type 0
Present r w = contains_string w.resources r ≡ true

sparing : IsSparing cluster own_name Present
sparing r s w h k = ground (arith, contains_string-remove_string w.resources s r, same_text_iff s r)

prune_feeds-spares_example :
    Present "web"
      (prune_feeds_in_description cluster steps own_name none "Generic"
        ("db" ∷ "web" ∷ [])
        ("web" ∷ [])
        full).1
unfolding contains_string desired_resources
prune_feeds-spares_example =
    prune_feeds-spares cluster steps steps-IsTrying own_name Present sparing none "Generic"
      ("db" ∷ "web" ∷ []) ("web" ∷ []) full "web" refl refl

prune_feeds-IsPruned_example :
    All
      (IsPruned cluster steps steps-IsTrying own_name Gone deletion
        ("web" ∷ [])
        (prune_feeds_in_description cluster steps own_name none "Generic"
          ("db" ∷ "web" ∷ [])
          ("web" ∷ [])
          full).1)
      ("db" ∷ "web" ∷ [])
unfolding prune_feeds_in_description desired_resources resources_to_be_deleted contains_string
    prune_each delete_resource_with_retry with_retry attempts try_delete
prune_feeds-IsPruned_example =
    prune_feeds-IsPruned cluster steps steps-IsTrying own_name Gone deletion none "Generic"
      ("db" ∷ "web" ∷ []) ("web" ∷ []) full refl refl
