-- ===== src/Scheduler/Api.antt =====
-- pkg/apis/apps/v1alpha1/subscription.go and pkg/apis/clusters/v1beta1/types.go: the fields of a
-- Subscription and of a ManagedCluster that the scheduler reads. Selectors are of a type `S`.
use clusternet.Prelude.{String, Bool, List}

-- The fields of the Kubernetes types core/v1 Taint and Toleration that are read.
pub record Taint : Type 0 where
  pub key : String
  pub value : String
  pub effect : String

pub record Toleration : Type 0 where
  pub key : String
  pub operator : String
  pub value : String
  pub effect : String

-- `deleting` is `DeletionTimestamp != nil`.
pub record ManagedCluster : Type 0 where
  pub namespace : String
  pub name : String
  pub deleting : Bool
  pub labels : List (String × String)
  pub taints : List Taint

pub record Subscriber (S : Type 0) : Type 0 where
  pub cluster_affinity : S

pub record Subscription (S : Type 0) : Type 0 where
  pub namespace : String
  pub name : String
  pub uid : String
  pub deleting : Bool
  pub scheduling_strategy : String
  pub subscribers : List (Subscriber S)
  pub cluster_tolerations : List Toleration
