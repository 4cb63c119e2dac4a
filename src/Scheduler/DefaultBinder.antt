-- ===== src/Scheduler/DefaultBinder.antt =====
-- pkg/scheduler/framework/plugins/defaultbinder/default_binder.go. Sorting with `sort.SliceStable`,
-- the hash of a spec and the client's UpdateStatus are parameters.
use clusternet.Prelude.{ℕ, String, List, length, Option, none, some, Message}
use clusternet.Scheduler.Api.{Subscription}
use clusternet.Scheduler.Status.{Status, as_status}

-- The fields of SubscriptionStatus that Bind sets.
pub record SubscriptionStatus : Type 0 where
  pub binding_clusters : List String
  pub spec_hash : ℕ
  pub desired_releases : ℕ

module _ {W S : Type 0} (sort : List String → List String) (hash : Subscription S → ℕ)
    (update_status : Subscription S → SubscriptionStatus → W → Option Message × W) where
  unfoldable pub bound_status : Subscription S → List String → SubscriptionStatus
  bound_status sub namespaced_clusters = record {
    binding_clusters = sort namespaced_clusters;
    spec_hash = hash sub;
    desired_releases = length (sort namespaced_clusters);
  }

  unfoldable pub default_bind : Subscription S → List String → W → Option Status × W
  default_bind sub namespaced_clusters w =
      let updated = update_status sub (bound_status sub namespaced_clusters) w in
      (elim updated.0 [ none ↦ none | some e ↦ some (as_status e) ], updated.1)
