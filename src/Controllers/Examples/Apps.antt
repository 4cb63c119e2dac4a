-- ===== src/Controllers/Examples/Apps.antt =====
-- The sync handlers at single objects, and the feeds of a Base that drops a chart.
use clusternet.Prelude.{
  ℕ, String, Bool, true, false, ◌||◌, Option, none, some, List, [], ◌∷◌, ◌≡◌, inl, inr, refl, sym,
  ap, find, contains, Result, ok, err, ok_inj, Message, text, if◌then◌else◌,
}
use clusternet.Utils.Slice.{contains_string}
use clusternet.Utils.Feed.{find_bases_from_uids}
use clusternet.Hub.Api.{Feed, Base, Answer, found, app_finalizer, same_feeds}
use clusternet.Controllers.Work.{
  typed, Object, Store, process_next_work_item, text_item, requeue, Call,
}
use clusternet.Controllers.Work.Finalized.{IsReady, WritesFinalizers, finalized}
use clusternet.Controllers.Apps.Subscriptions.{SubscriptionBody, sync_subscription}
use clusternet.Controllers.Apps.Descriptions.{sync_description}
use clusternet.Controllers.Apps.Feeds.{prune_labels, prune_uids, update_base_charts}
use clusternet.Controllers.Apps.Guarded.{
  PatchesLabels, sync_subscription-guards, sync_description-skips,
}
use clusternet.Controllers.Apps.Pruned.{
  is_stale, find-prune_labels, obsoleted, update_base_charts-queues,
}

abbrev object_of : {S : Type 0} → S → Object S
object_of body = record {
  kind = "";
  api_version = "";
  namespace = "default";
  name = "app";
  uid = "u1";
  deleting = false;
  labels = [];
  finalizers = [];
  body = body;
}

-- The cache is the object that is kept; the API server takes what it is sent.
abbrev accepting : Store (Object SubscriptionBody) SubscriptionBody
accepting = record {
  get = λ w ns name. found w;
  share = λ o w. o;
  update = λ o w. (ok o, o);
  patch = λ o labels w. (ok (record o { labels = labels }), o);
  update_status = λ o w. (none, o);
}

accepting-WritesFinalizers : WritesFinalizers accepting
accepting-WritesFinalizers o o' w h =
    ap (λ (x : Object SubscriptionBody). x.finalizers) (sym (ok_inj h))

accepting-PatchesLabels : PatchesLabels accepting
accepting-PatchesLabels o o' labels w h =
    ap (λ (x : Object SubscriptionBody). x.finalizers) (sym (ok_inj h))

abbrev app : Object SubscriptionBody
app = object_of (record { spec_hash = "7"; binding_clusters = [] })

abbrev split : String → Result (String × String)
split key = ok ("default", "app")

-- A handler, and one that refuses an object that is neither being deleted nor has the finalizer.
abbrev does :
    Object SubscriptionBody → Object SubscriptionBody → Option Message × Object SubscriptionBody
does o w = (none, o)

abbrev checks :
    Object SubscriptionBody → Object SubscriptionBody → Option Message × Object SubscriptionBody
checks o w =
    if o.deleting || contains_string o.finalizers app_finalizer
    then (none, o)
    else (some (text "not ready"), w)

same_ready : (o w : Object SubscriptionBody) → IsReady o → does o w ≡ checks o w
same_ready o w (inl d) = rw d refl
same_ready o w (inr f) = either o.deleting (contains_string o.finalizers app_finalizer) f
  where
    either :
        (a b : Bool)
        → b ≡ true
        → does o w ≡ (if a || b then (none, o) else (some (text "not ready"), w))
    either true b e = refl
    either false b e = rw e refl

sync_subscription-guards_example :
    sync_subscription accepting split does "default/app" app
    ≡ sync_subscription accepting split checks "default/app" app
sync_subscription-guards_example =
    sync_subscription-guards accepting split does checks "default/app" app
      accepting-WritesFinalizers accepting-PatchesLabels same_ready

-- An API server that refuses every update.
abbrev refusing : Store (Object ℕ) ℕ
refusing = record {
  get = λ w ns name. found w;
  share = λ o w. o;
  update = λ o w. (err (text "conflict"), w);
  patch = λ o labels w. (err (text "conflict"), w);
  update_status = λ o w. (none, w);
}

abbrev handles : Object ℕ → Object ℕ → Option Message × Object ℕ
handles o w = (none, w)

sync_description-skips_example :
    let first : Call × Object ℕ =
      process_next_work_item
        (sync_description refusing split handles)
        (text_item "default/app")
        (object_of 5) in
    (first.0 ≡ requeue "default/app")
    × (sync_description refusing split handles "default/app" first.1
        ≡ handles (typed "Description" (finalized refusing (object_of 5))) first.1)
unfolding contains_string
sync_description-skips_example =
    sync_description-skips refusing split handles "default/app" (object_of 5) (object_of 5)
      (text "conflict") (λ o w. refl) (λ o w ns name e h. refl) refl refl refl refl refl

abbrev base_uid : String
base_uid = "00000000-0000-0000-0000-000000000001"

abbrev chart : Feed
chart = record {
  kind = "HelmChart";
  api_version = "";
  namespace = "charts";
  name = "nginx";
  replicas = [];
}

abbrev base_with : List Feed → Base
base_with feeds = record {
  namespace = "clusternet-ns1";
  name = "app";
  uid = base_uid;
  deleting = false;
  labels = ("apps.clusternet.io/config.uid", "sub-1") ∷ [];
  finalizers = [];
  feeds = feeds;
}

abbrev bases_of : String → Answer (List Base)
bases_of uid = found (base_with [] ∷ [])

abbrev shared_labels : List (String × String)
shared_labels = (base_uid, "Base") ∷ ("sub-1", "Subscription") ∷ ("a", "b") ∷ []

find-prune_labels_example : find "sub-1" (prune_labels bases_of chart shared_labels) ≡ (
    if is_stale chart "sub-1" (find_bases_from_uids bases_of (prune_uids shared_labels))
    then none
    else find "sub-1" shared_labels)
find-prune_labels_example = find-prune_labels bases_of chart shared_labels "sub-1"

update_base_charts-queues_example :
    contains "nginx" (
      update_base_charts
        (obsoleted (λ k ns n. n) (λ k n. n) same_feeds)
        same_feeds
        (λ ns n. n)
        (base_with (chart ∷ []))
        (base_with []))
    ≡ true
update_base_charts-queues_example =
    update_base_charts-queues (λ k ns n. n) (λ k n. n) same_feeds (λ ns n. n)
      (base_with (chart ∷ [])) (base_with []) [] [] chart refl refl refl refl refl
