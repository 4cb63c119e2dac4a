-- ===== src/Scheduler/Handlers/Queue.antt =====
-- The handlers of pkg/scheduler/scheduler.go: the map of subscribers and the queue after an event.
use clusternet.Prelude.{
  String, Bool, true, false, not, ◌&&◌, ◌||◌, List, [], ◌∷◌, ◌++◌, ◌≡◌, refl, find, contains,
  same_text, if◌then◌else◌, none, some, find-put, find-remove, arith,
}
use clusternet.Scheduler.Api.{ManagedCluster, Subscriber, Subscription}
use clusternet.Scheduler.Handlers.{
  Watched, added, cluster_added, add_rate_limited, on_subscription, filter_func, add_func, selects,
  enqueue_each, enqueue_subscription_for_cluster, on_cluster,
}

contains-append :
    (k : String) (xs ys : List String) → contains k (xs ++ ys) ≡ (contains k xs || contains k ys)
contains-append k [] ys = refl
contains-append k (x ∷ xs) ys = ground (arith, contains-append k xs ys)

module _ {S : Type 0} (key : Subscription S → String)
    (same_spec : Subscription S → Subscription S → Bool) where
  -- The subscribers of a subscription that is reported as added are kept under its key, and are
  -- forgotten when it is being deleted; every other key is untouched.
  pub find-on_subscription :
      (sub : Subscription S) (st : Watched S) (k : String)
      → find k (on_subscription key same_spec (added sub) st).subscribers_map ≡ (
          if same_text (key sub) k
          then (if sub.deleting then none else some sub.subscribers)
          else find k st.subscribers_map)
  unfolding on_subscription filter_func add_func add_rate_limited
  find-on_subscription sub st k = ground (
    arith,
    find-put (key sub) k sub.subscribers st.subscribers_map,
    find-remove (key sub) k st.subscribers_map,
  )

module _ {S : Type 0} (matches : S → List (String × String) → Bool) where
  -- The map has subscribers under the key, one of which selects the labels.
  abbrev pub is_asked : String → List (String × String) → List (String × List (Subscriber S)) → Bool
  is_asked k labels [] = false
  is_asked k labels ((j, subscribers) ∷ m) =
      (same_text j k && selects matches subscribers labels) || is_asked k labels m

  enqueue_each-queue :
      (k : String) (m : List (String × List (Subscriber S))) (labels : List (String × String))
      (st : Watched S)
      → contains k (enqueue_each matches m labels st).scheduling_queue
        ≡ (contains k st.scheduling_queue || is_asked k labels m)
  unfolding enqueue_each add_rate_limited
  enqueue_each-queue k [] labels st = ground arith
  enqueue_each-queue k ((j, subscribers) ∷ m) labels st =
      go (selects matches subscribers labels) refl (enqueue_each-queue k m labels st)
        (enqueue_each-queue k m labels (add_rate_limited j st))
    where
      go :
          (b : Bool)
          → selects matches subscribers labels ≡ b
          → contains k (enqueue_each matches m labels st).scheduling_queue
            ≡ (contains k st.scheduling_queue || is_asked k labels m)
          → contains k (enqueue_each matches m labels (add_rate_limited j st)).scheduling_queue
            ≡ (contains k (add_rate_limited j st).scheduling_queue || is_asked k labels m)
          → contains k
              (enqueue_each matches m labels
                (if b then add_rate_limited j st else st)).scheduling_queue
            ≡ (contains k st.scheduling_queue || ((same_text j k && b) || is_asked k labels m))
      go true e h q = ground (arith, q, contains-append k st.scheduling_queue (j ∷ []))
      go false e h q = ground arith

  -- A cluster that is added, and is not being deleted, puts exactly the keys into the queue whose
  -- subscribers select its labels; keys that were in the queue stay there.
  pub contains-on_cluster :
      (same : ManagedCluster → ManagedCluster → Bool) (mcls : ManagedCluster) (st : Watched S)
      (k : String)
      → contains k (on_cluster matches same (cluster_added mcls) st).scheduling_queue ≡ (
          contains k st.scheduling_queue
          || (not mcls.deleting && is_asked k mcls.labels st.subscribers_map))
  unfolding on_cluster enqueue_subscription_for_cluster
  contains-on_cluster same mcls st k =
      ground (arith, enqueue_each-queue k st.subscribers_map mcls.labels st)
