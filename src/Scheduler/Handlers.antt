-- ===== src/Scheduler/Handlers.antt =====
-- pkg/scheduler/scheduler.go: the handlers of addAllEventHandlers, with the map of subscribers and the
-- queue that they share. `key` is `klog.KObj(..).String()`, and `matches` says whether a label selector
-- parses and matches the labels of a cluster. Comparisons of the API types are parameters.
pub mod Queue
use clusternet.Prelude.{
  String, Bool, true, false, not, ◌&&◌, ◌||◌, List, [], ◌∷◌, ◌++◌, ◌≡◌, refl, put, remove, find,
  is_key, contains, same_text, if◌then◌else◌, Option, none, some, find-put, find-remove, arith,
}
use clusternet.Scheduler.Api.{ManagedCluster, Subscriber, Subscription}

pub record Watched (S : Type 0) : Type 0 where
  pub subscribers_map : List (String × List (Subscriber S))
  pub scheduling_queue : List String

-- What an informer of subscriptions hands to the handlers.
pub data SubscriptionEvent (S : Type 0) : Type 0 where
  added : Subscription S → SubscriptionEvent S
  updated : Subscription S → Subscription S → SubscriptionEvent S
  deleted : Subscription S → SubscriptionEvent S

pub data ClusterEvent : Type 0 where
  cluster_added cluster_deleted : ManagedCluster → ClusterEvent
  cluster_updated : ManagedCluster → ManagedCluster → ClusterEvent

unfoldable pub add_rate_limited : {S : Type 0} → String → Watched S → Watched S
add_rate_limited k st = record st { scheduling_queue = st.scheduling_queue ++ k ∷ [] }

module _ {S : Type 0} (key : Subscription S → String)
    (same_spec : Subscription S → Subscription S → Bool) where
  -- FilterFunc for a subscription: the state that it leaves, and its answer.
  unfoldable pub filter_func : Subscription S → Watched S → Watched S × Bool
  filter_func sub st =
      if sub.deleting
      then (record st { subscribers_map = remove (key sub) st.subscribers_map }, false)
      else (st, true)

  unfoldable pub add_func : Subscription S → Watched S → Watched S
  add_func sub st =
      add_rate_limited (key sub)
        (record st { subscribers_map = put (key sub) sub.subscribers st.subscribers_map })

  unfoldable pub update_func : Subscription S → Subscription S → Watched S → Watched S
  update_func old_sub new_sub st = if same_spec old_sub new_sub then st else add_func new_sub st

  -- FilteringResourceEventHandler of client-go, as documented: it calls FilterFunc on the new and then
  -- on the old object, and Update, Add or Delete by the two answers. There is no DeleteFunc.
  unfoldable pub on_subscription : SubscriptionEvent S → Watched S → Watched S
  on_subscription (added sub) st =
      let kept = filter_func sub st in if kept.1 then add_func sub kept.0 else kept.0
  on_subscription (updated old_sub new_sub) st =
      let newer = filter_func new_sub st in
      let older = filter_func old_sub newer.0 in
      if newer.1
      then (if older.1 then update_func old_sub new_sub older.0 else add_func new_sub older.0)
      else older.0
  on_subscription (deleted sub) st = (filter_func sub st).0

module _ {S : Type 0} (matches : S → List (String × String) → Bool) where
  unfoldable pub selects : List (Subscriber S) → List (String × String) → Bool
  selects [] labels = false
  selects (s ∷ ss) labels =
      let rest = selects ss labels in if matches s.cluster_affinity labels then true else rest

  -- enqueueSubscriptionForClusterFunc, in the order in which the map is read.
  unfoldable pub enqueue_each :
      List (String × List (Subscriber S)) → List (String × String) → Watched S → Watched S
  enqueue_each [] labels st = st
  enqueue_each ((k, subscribers) ∷ rest) labels st =
      enqueue_each rest labels (if selects subscribers labels then add_rate_limited k st else st)

  unfoldable pub enqueue_subscription_for_cluster : ManagedCluster → Watched S → Watched S
  enqueue_subscription_for_cluster mcls st = enqueue_each st.subscribers_map mcls.labels st

  unfoldable pub on_cluster :
      (ManagedCluster → ManagedCluster → Bool) → ClusterEvent → Watched S → Watched S
  on_cluster same_labels_and_taints (cluster_added mcls) st =
      if mcls.deleting then st else enqueue_subscription_for_cluster mcls st
  on_cluster same_labels_and_taints (cluster_updated old_mcls new_mcls) st =
      if new_mcls.deleting
      then st
      else if same_labels_and_taints old_mcls new_mcls
      then st
      else enqueue_subscription_for_cluster new_mcls st
  on_cluster same_labels_and_taints (cluster_deleted mcls) st = st
