-- ===== src/Controllers/Apps/Descriptions.antt =====
-- pkg/controllers/apps/description/description.go and helmrelease/helmrelease.go.
use clusternet.Prelude.{
  String, Bool, Option, none, some, List, [], ◌∷◌, same_text, Result, ok, err, Message, try_value,
  if◌then◌else◌,
}
use clusternet.Hub.Api.{Answer, found, failed}
use clusternet.Controllers.Work.{
  typed, Object, OwnerReference, Deleted, deleted_object, enqueue, deleted, updated, Store,
  inject_finalizer, of_key,
}

-- `S` is the specification of a Description or of a HelmRelease.
module _ {S : Type 0} (key_of : Object S → Result String) (same_spec : S → S → Bool) where
  unfoldable pub add_description : Object S → List String
  add_description desc = enqueue key_of desc

  unfoldable pub update_description : Object S → Object S → List String
  update_description old new = updated key_of (λ o n. same_spec o.body n.body) old new

  unfoldable pub delete_description : Deleted (Object S) → List String
  delete_description d = deleted key_of d

  unfoldable pub add_helm_release : Object S → List String
  add_helm_release hr = enqueue key_of hr

  unfoldable pub update_helm_release : Object S → Object S → List String
  update_helm_release old new = updated key_of (λ o n. same_spec o.body n.body) old new

  -- A deletion of a HelmRelease, for the controller of HelmReleases.
  unfoldable pub delete_helm_release : Deleted (Object S) → List String
  delete_helm_release d = deleted key_of d

  module _ (get : String → String → Answer (Object S)) where
    unfoldable pub resolve_controller_ref : String → OwnerReference → Option (Object S)
    resolve_controller_ref namespace ref =
        if same_text ref.kind "Description"
        then elim (get namespace ref.name) [
          | failed f ↦ none
          | found desc ↦ if same_text desc.uid ref.uid then some desc else none
        ]
        else none

    -- A deletion of a HelmRelease, for the controller of Descriptions. `owner` is GetControllerOf.
    unfoldable pub delete_owned_release :
        {H : Type 0} → (Object H → Option OwnerReference) → Deleted (Object H) → List String
    delete_owned_release owner d = elim (deleted_object d) [
      | none ↦ []
      | some hr ↦ elim (owner hr) [
        | none ↦ []
        | some ref ↦ elim (resolve_controller_ref hr.namespace ref) [
          | none ↦ []
          | some desc ↦ enqueue key_of desc
        ]
      ]
    ]

-- The keys of the labels that say that a Base refers to the chart.
unfoldable pub base_uids : List (String × String) → List String
base_uids [] = []
base_uids ((k, v) ∷ labels) =
    let rest = base_uids labels in if same_text v "Base" then k ∷ rest else rest

abbrev names_of : {S : Type 0} → (Object S → String) → List (Object S) → List String
names_of name_of [] = []
names_of name_of (o ∷ os) = name_of o ∷ names_of name_of os

-- `list` lists the Descriptions whose UID label is one of these, or fails on the requirement or on the
-- list; `name_of` is KObj.
module _ {S H : Type 0} (list : List String → Result (List (Object S)))
    (name_of : Object S → String) (same_spec : H → H → Bool) where
  unfoldable pub update_helm_chart : Object H → Object H → List String
  update_helm_chart old new =
      if same_spec old.body new.body then [] else elim (base_uids new.labels) [
        | [] ↦ []
        | uid ∷ uids ↦ elim (list (uid ∷ uids)) [ err e ↦ [] | ok descs ↦ names_of name_of descs ]
      ]

module _ {W S : Type 0} (store : Store W S) (split : String → Result (String × String))
    (handler : Object S → W → Option Message × W) where
  unfoldable pub sync_description : String → W → Option Message × W
  sync_description key w =
      of_key store split
        (λ desc w0.
          try_value (inject_finalizer store desc w0)
            λ desc1 w1. handler (typed "Description" desc1) w1)
        key w

  unfoldable pub sync_helm_release : String → W → Option Message × W
  sync_helm_release key w =
      of_key store split
        (λ hr w0.
          try_value (inject_finalizer store hr w0) λ hr1 w1. handler (typed "HelmRelease" hr1) w1)
        key w
