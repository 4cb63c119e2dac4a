-- ===== src/Hub/Api.antt =====
-- pkg/apis/apps/v1alpha1 and pkg/known: the fields and the constants that the hub's deployer reads.
-- The errors of the API server are told apart by `IsNotFound`.
use clusternet.Prelude.Int.{ℤ, pos, negsuc}
use clusternet.Prelude.{
  ◌==◌, String, Bool, true, false, ◌&&◌, Option, none, some, List, [], ◌∷◌, same_text, find, put,
  Message, text, join_all,
}

pub data Failure : Type 0 where
  not_found : Failure
  other : Message → Failure

-- A value, or an error of the API server or of a lister.
pub data Answer (A : Type 0) : Type 0 where
  found : A → Answer A
  failed : Failure → Answer A

pub record Feed : Type 0 where
  pub kind : String
  pub api_version : String
  pub namespace : String
  pub name : String
  -- int32; nil where nothing sets them.
  pub replicas : List ℤ

abbrev pub same_number : ℤ → ℤ → Bool
same_number (pos a) (pos b) = a == b
same_number (negsuc a) (negsuc b) = a == b
same_number _ _ = false

abbrev pub same_numbers : List ℤ → List ℤ → Bool
same_numbers [] [] = true
same_numbers (a ∷ as_) (b ∷ bs) = same_number a b && same_numbers as_ bs
same_numbers _ _ = false

-- DeepEqual on feeds and on their lists.
abbrev pub same_feed : Feed → Feed → Bool
same_feed a b =
    same_text a.kind b.kind
    && same_text a.api_version b.api_version
    && same_text a.namespace b.namespace
    && same_text a.name b.name
    && same_numbers a.replicas b.replicas

abbrev pub same_feeds : List Feed → List Feed → Bool
same_feeds [] [] = true
same_feeds (a ∷ as_) (b ∷ bs) = same_feed a b && same_feeds as_ bs
same_feeds _ _ = false

pub record Subscription : Type 0 where
  pub namespace : String
  pub name : String
  pub uid : String
  pub deleting : Bool
  pub finalizers : List String
  pub feeds : List Feed
  pub binding_clusters : List String

pub record Base : Type 0 where
  pub namespace : String
  pub name : String
  pub uid : String
  pub deleting : Bool
  pub labels : List (String × String)
  pub finalizers : List String
  pub feeds : List Feed

abbrev pub app_finalizer : String
app_finalizer = "apps.clusternet.io/finalizer"

abbrev pub feed_protection_finalizer : String
feed_protection_finalizer = "apps.clusternet.io/feed-protection"

abbrev pub cluster_id_label : String
cluster_id_label = "clusters.clusternet.io/cluster-id"

abbrev pub cluster_name_label : String
cluster_name_label = "clusters.clusternet.io/cluster-name"

abbrev pub created_by_label : String
created_by_label = "clusternet.io/created-by"

abbrev pub config_kind_label : String
config_kind_label = "apps.clusternet.io/config.kind"

abbrev pub config_name_label : String
config_name_label = "apps.clusternet.io/config.name"

abbrev pub config_namespace_label : String
config_namespace_label = "apps.clusternet.io/config.namespace"

abbrev pub config_uid_label : String
config_uid_label = "apps.clusternet.io/config.uid"

abbrev pub subscription_uid_label : String
subscription_uid_label = "apps.clusternet.io/subs.uid"

abbrev pub subscription_name_label : String
subscription_name_label = "apps.clusternet.io/subs.name"

abbrev pub subscription_namespace_label : String
subscription_namespace_label = "apps.clusternet.io/subs.namespace"

-- `m[k]` on a map of strings: "" where there is no such key.
abbrev pub label : String → List (String × String) → String
label k m = elim (find k m) [ none ↦ "" | some v ↦ v ]

-- `for key, value := range more { m[key] = value }`.
abbrev pub put_all : List (String × String) → List (String × String) → List (String × String)
put_all [] m = m
put_all ((k, v) ∷ more) m = put_all more (put k v m)

-- NewAggregate: nil for no error.
abbrev pub aggregate : List Message → Option Message
aggregate [] = none
aggregate (e ∷ es) = some (join_all (e ∷ es))

abbrev pub failure_message : Failure → Message
failure_message not_found = text "not found"
failure_message (other m) = m
