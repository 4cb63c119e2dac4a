-- ===== src/Controllers/Apps/Bases.antt =====
-- pkg/controllers/apps/base/base.go.
use clusternet.Prelude.{
  String, Bool, ◌&&◌, Option, none, some, List, [], same_text, Result, Message, try_value,
  if◌then◌else◌,
}
use clusternet.Hub.Api.{
  Answer, found, failed, config_kind_label, config_name_label, config_namespace_label,
  config_uid_label, label,
}
use clusternet.Controllers.Work.{
  typed, Object, OwnerReference, Deleted, deleted_object, enqueue, deleted, updated, Store,
  inject_finalizer, label_self, of_key,
}

-- `S` is the specification of a Base.
module _ {S : Type 0} (key_of : Object S → Result String) (same_spec : S → S → Bool)
    (same_labels : List (String × String) → List (String × String) → Bool) where
  unfoldable pub add_base : Object S → List String
  add_base base = enqueue key_of base

  unfoldable pub update_base : Object S → Object S → List String
  update_base old new =
      updated key_of (λ o n. same_labels o.labels n.labels && same_spec o.body n.body) old new

  unfoldable pub delete_base : Deleted (Object S) → List String
  delete_base d = deleted key_of d

  module _ (get : String → String → Answer (Object S)) where
    unfoldable pub resolve_controller_ref : String → OwnerReference → Option (Object S)
    resolve_controller_ref namespace ref =
        if same_text ref.kind "Base"
        then elim (get namespace ref.name) [
          | failed f ↦ none
          | found base ↦ if same_text base.uid ref.uid then some base else none
        ]
        else none

    -- A Description that is deleted brings its Base back to the queue.
    unfoldable pub delete_description : {D : Type 0} → Deleted (Object D) → List String
    delete_description d = elim (deleted_object d) [
      | none ↦ []
      | some desc ↦
          elim (resolve_controller_ref (label config_namespace_label desc.labels) (record {
            kind = label config_kind_label desc.labels;
            name = label config_name_label desc.labels;
            uid = label config_uid_label desc.labels;
          })) [ none ↦ [] | some base ↦ enqueue key_of base ]
    ]

module _ {W S : Type 0} (store : Store W S) (split : String → Result (String × String))
    (handler : Object S → W → Option Message × W) where
  unfoldable pub sync_base : String → W → Option Message × W
  sync_base key w =
      of_key store split
        (λ base w0. try_value (inject_finalizer store base w0) λ base1 w1.
          try_value (label_self store "Base" base1 w1) λ base2 w2. handler (typed "Base" base2) w2)
        key w
