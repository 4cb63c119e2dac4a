-- ===== src/Hub/Examples.antt =====
-- The hub's deployer at a small world: one Subscription, two namespaces of clusters and one of the
-- Bases that it had. Keys are the names of the namespaces.
mod Overrides
mod Releases
use text.Mathlib.TextPositions.{eq_refl}
use clusternet.Prelude.{
  String, Bool, true, false, Option, none, some, List, [], ◌∷◌, ◌≡◌, ◌⊎◌, ◌≢◌, inl, inr, refl, All,
  ok, same_text, find, put, remove, find-put, find-remove, arith, Result, Message, if◌then◌else◌,
  same_text_iff,
}
use clusternet.Hub.Api.{
  Feed, Failure, not_found, other, Answer, found, failed, Subscription, Base, app_finalizer,
}
use clusternet.Hub.Feeds.{
  FeedApi, Referent, Patch, remove_labels_from_referred_feeds, patch_all, patch_each,
}
use clusternet.Hub.Bases.{
  BaseApi, populate_bases, handle_subscription, base_keys, wanted_base, unless_gone, sync_clusters,
  delete_bases, sync_in, note_error, delete_base, sync_base,
}
use clusternet.Hub.Bases.Store.{BaseStore, IsSynced, IsGone}
use clusternet.Hub.Bases.Rounds.{IsInSync}
use clusternet.Hub.Bases.Reconcile.{IsReconciled, populate_bases-IsReconciled}
use clusternet.Hub.Bases.Finalizer.{KeptByBases, handle_subscription-waits}

abbrev pub nginx : Feed
nginx = record {
  kind = "Deployment";
  api_version = "apps/v1";
  namespace = "default";
  name = "nginx";
  replicas = [];
}

abbrev pub web : Subscription
web = record {
  namespace = "default";
  name = "web";
  uid = "uid-web";
  deleting = false;
  finalizers = app_finalizer ∷ [];
  feeds = nginx ∷ [];
  binding_clusters = "ns-a" ∷ "ns-b" ∷ "broken" ∷ [];
}

abbrev base_in : String → List Feed → Base
base_in ns fs = record {
  namespace = ns;
  name = "web";
  uid = "uid-base";
  deleting = false;
  labels = [];
  finalizers = app_finalizer ∷ [];
  feeds = fs;
}

-- The Bases that are stored, and the finalizers of the Subscription.
record World : Type 0 where
  bases : List (String × Base)
  finalizers : List String

abbrev at_first : World
at_first = record {
  bases = ("ns-a", base_in "ns-a" []) ∷ ("ns-c", base_in "ns-c" (nginx ∷ [])) ∷ [];
  finalizers = app_finalizer ∷ [];
}

abbrev listed : List Base
listed = base_in "ns-a" [] ∷ base_in "ns-c" (nginx ∷ []) ∷ []

abbrev cached_base : String → String → Answer Base
cached_base ns n =
    if same_text n "web"
    then elim (find ns at_first.bases) [ none ↦ failed not_found | some b ↦ found b ]
    else failed not_found

abbrev api : BaseApi World
api = record {
  key = λ ns n. ns;
  split = λ k. ok (k, "web");
  list_bases = λ sub. found listed;
  get_base = cached_base;
  get_namespace = λ ns. if same_text ns "broken" then failed not_found else found none;
  create = λ b w. (none, record w { bases = put b.namespace b w.bases });
  update = λ b w. (none, record w { bases = put b.namespace b w.bases });
  delete = λ ns n w. (none, record w { bases = remove ns w.bases });
  update_subscription = λ sub w. (none, record w { finalizers = sub.finalizers });
}

abbrev feeds : FeedApi World
feeds = record {
  list_charts = λ w uid kind. found [];
  list_manifests = λ w uid kind. found [];
  get_chart = λ w ns n. failed not_found;
  manifests_of = λ w f. found [];
  patch_chart = λ r p w. (none, w);
  patch_manifest = λ r p w. (none, w);
}

put_self : (b : Base) (m : List (String × Base)) → find b.namespace (put b.namespace b m) ≡ some b
put_self b m = ground (arith, find-put b.namespace b.namespace b m, eq_refl b.namespace)

put_other :
    (k j : String) (b : Base) (m : List (String × Base))
    → same_text j k ≡ false
    → find k (put j b m) ≡ find k m
put_other k j b m h = ground (arith, find-put j k b m)

remove_self : (k : String) (m : List (String × Base)) → find k (remove k m) ≡ none
remove_self k m = ground (arith, find-remove k k m, eq_refl k)

remove_other :
    (k j : String) (m : List (String × Base))
    → same_text j k ≡ false
    → find k (remove j m) ≡ find k m
remove_other k j m h = ground (arith, find-remove j k m)

abbrev store : BaseStore api feeds
store = record {
  view = λ w k. find k w.bases;
  create_at = λ b w fresh e. (b, put_self b w.bases, refl, fresh);
  update_at = λ b w fresh e. (b, put_self b w.bases, refl, fresh);
  delete_at = λ ns n w e. inl (remove_self ns w.bases);
  create_other = λ b w k e. put_other k b.namespace b w.bases e;
  update_other = λ b w k e. put_other k b.namespace b w.bases e;
  delete_other = λ ns n w k e. remove_other k ns w.bases e;
  patches = λ k. record { chart = λ r p w. refl; manifest = λ r p w. refl };
}

cache_of_first :
    (ns n : String) (b : Base)
    → cached_base ns n ≡ found b
    → (b.namespace ≡ ns) × (b.name ≡ n) × (find ns at_first.bases ≡ some b)
cache_of_first ns n b e =
    ground (arith, same_text_iff n "web", same_text_iff "ns-a" ns, same_text_iff "ns-c" ns)

populate_bases-IsReconciled_example :
    IsSynced (nginx ∷ []) (find "ns-b" (populate_bases api feeds web at_first).1.bases)
unfolding populate_bases sync_clusters delete_bases sync_in base_keys wanted_base note_error
    delete_base remove_labels_from_referred_feeds patch_all patch_each sync_base
populate_bases-IsReconciled_example =
    populate_bases-IsReconciled api feeds store web listed at_first "ns-b" cache_of_first refl
      (refl, (refl, tt)) refl

kept : KeptByBases (λ (w : World). w.finalizers) api feeds
kept = record {
  create = λ b w. refl;
  update = λ b w. refl;
  delete = λ ns n w. refl;
  patches = record { chart = λ r p w. refl; manifest = λ r p w. refl };
}

abbrev web_deleting : Subscription
web_deleting = record web { deleting = true }

handle_subscription-waits_example :
    (((handle_subscription api feeds web_deleting at_first).1.finalizers ≡ at_first.finalizers)
      × ((true ≡ false) ⊎ ((handle_subscription api feeds web_deleting at_first).0 ≢ none)))
    ⊎ ((true ≡ true)
        × (found listed ≡ found [])
        × ((remove_labels_from_referred_feeds feeds "uid-web" "Subscription" at_first).0 ≡ none))
handle_subscription-waits_example =
    handle_subscription-waits (λ (w : World). w.finalizers) api feeds kept web_deleting at_first
