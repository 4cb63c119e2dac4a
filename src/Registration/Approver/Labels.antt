-- ===== src/Registration/Approver/Labels.antt =====
-- The labels of the objects that pkg/hub/approver makes, against those that it lists them with.
use clusternet.Prelude.{
  String, false, some, List, [], ◌∷◌, ◌≡◌, refl, ◌∙◌, same_text, find, put, is_key, find-put, arith,
}
use clusternet.Hub.Api.{created_by_label, cluster_id_label, put_all}
use clusternet.Registration.{RequestSpec}
use clusternet.Registration.Approver.Objects.{
  id_selector, new_managed_cluster, new_namespace, new_service_account,
}

-- `labels.SelectorFromSet(set).Matches(labels)`: each label of the set is there with its value.
abbrev pub Selects : List (String × String) → List (String × String) → Type 0
Selects [] labels = Unit
Selects ((k, v) ∷ set) labels = (find k labels ≡ some v) × Selects set labels

find-put_all :
    (k : String) (more m : List (String × String))
    → is_key k more ≡ false
    → find k (put_all more m) ≡ find k m
find-put_all k [] m h = refl
find-put_all k ((j, v) ∷ more) m h =
    find-put_all k more (put j v m) (ground (arith, h)) ∙ find-put_other k j v m (ground (arith, h))
  where
    find-put_other :
        (k j : String) (v : String) (m : List (String × String))
        → same_text j k ≡ false
        → find k (put j v m) ≡ find k m
    find-put_other k j v m e = rw (find-put j k v m, e) refl

-- If the labels of a request have neither the label of the creator nor that of the cluster ID, the
-- ManagedCluster that is made for it has the labels that the hub lists it with, as the namespace
-- and the service account have.
pub new_managed_cluster-IsSelected :
    (spec : RequestSpec)
    → is_key created_by_label spec.cluster_labels ≡ false
    → is_key cluster_id_label spec.cluster_labels ≡ false
    → Selects (id_selector spec.cluster_id) (new_managed_cluster spec).meta.labels
      × Selects
          (id_selector spec.cluster_id)
          (new_namespace spec.cluster_id spec.cluster_name).meta.labels
      × Selects
          (id_selector spec.cluster_id)
          (new_service_account spec.cluster_id spec.cluster_name).meta.labels
unfolding new_managed_cluster new_namespace new_service_account
new_managed_cluster-IsSelected spec h h' = (
  (
    find-put_all created_by_label spec.cluster_labels _ h,
    (find-put_all cluster_id_label spec.cluster_labels _ h', tt),
  ),
  (refl, (refl, tt)),
  (refl, (refl, tt)),
)
