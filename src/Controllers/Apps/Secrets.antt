-- ===== src/Controllers/Apps/Secrets.antt =====
-- pkg/controllers/misc/secret/secret.go, and the events of pkg/controllers/apps/resource/resource.go.
use clusternet.Prelude.{
  String, Option, none, some, List, [], ◌∷◌, find, same_text, Result, Message, try_value,
  if◌then◌else◌,
}
use clusternet.Controllers.Work.{
  Object, Deleted, deleted_object, enqueue, Store, inject_finalizer, of_key,
}

abbrev pub child_cluster_secret_name : String
child_cluster_secret_name = "child-cluster-deployer"

module _ {S : Type 0} (key_of : Object S → Result String) where
  unfoldable pub add_secret : Object S → List String
  add_secret secret =
      if same_text secret.name child_cluster_secret_name then enqueue key_of secret else []

  unfoldable pub update_secret : Object S → List String
  update_secret secret =
      if same_text secret.name child_cluster_secret_name
      then (if secret.deleting then enqueue key_of secret else [])
      else []

  unfoldable pub delete_secret : Deleted (Object S) → List String
  delete_secret d = elim (deleted_object d) [
    | none ↦ []
    | some secret ↦
        if same_text secret.name child_cluster_secret_name then enqueue key_of secret else []
  ]

module _ {W S : Type 0} (store : Store W S) (split : String → Result (String × String))
    (handler : Object S → W → Option Message × W) where
  unfoldable pub sync_secret : String → W → Option Message × W
  sync_secret key w =
      of_key store split
        (λ secret w0. try_value (inject_finalizer store secret w0) λ secret1 w1. handler secret1 w1)
        key w

abbrev pub owned_by_description_label : String
owned_by_description_label = "apps.clusternet.io/owned-by-description"

abbrev pub owner_key : List (String × String) → List String
owner_key labels = elim (find owned_by_description_label labels) [ none ↦ [] | some val ↦ val ∷ [] ]

unfoldable pub add_resource : {S : Type 0} → Object S → List String
add_resource o = owner_key o.labels

-- The labels of the object before the change are read.
unfoldable pub update_resource : {S : Type 0} → Object S → Object S → List String
update_resource old new = owner_key old.labels

unfoldable pub delete_resource : {S : Type 0} → Object S → List String
delete_resource o = owner_key o.labels
