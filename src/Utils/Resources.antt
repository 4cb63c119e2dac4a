-- ===== src/Utils/Resources.antt =====
-- pkg/utils/deployer.go: the resources of a Description are applied to a cluster, or deleted from it.
-- The dynamic client, JSON, the wait with backoff and the update of the Description are parameters;
-- resources that are handled at the same time are handled here in order.
pub mod Attempts
pub mod Keeps
pub mod Deletion
pub mod Application
pub mod Offload
use clusternet.Prelude.{
  String, Bool, true, false, Option, none, some, List, [], ◌∷◌, ◌++◌, same_text, Result, ok, err,
  Message, text, named, about, if◌then◌else◌,
}
use clusternet.Utils.Slice.{contains_string, remove_string}
use clusternet.Hub.Api.{app_finalizer, aggregate, Failure, not_found, other}

-- An operation of a JSON patch, and a cause that the API server names for an error.
pub record Operation : Type 0 where
  pub operation : String
  pub path : String

pub record Cause : Type 0 where
  pub cause_type : String
  pub field : String

abbrev pub fields_to_be_ignored : List String
fields_to_be_ignored =
    "/metadata/generation" ∷ "/metadata/creationTimestamp" ∷ "/metadata/managedFields"
    ∷ "/metadata/uid" ∷ "/metadata/selfLink" ∷ []

-- The loop of ResourceNeedResync over the patch.
unfoldable pub needs_sync : List Operation → Bool
needs_sync [] = false
needs_sync (op ∷ ops) =
    let rest = needs_sync ops in
    if contains_string fields_to_be_ignored op.path
    then rest
    else if same_text op.operation "remove"
    then true
    else if same_text op.operation "replace"
    then true
    else rest

-- An error of Create, as far as it is told apart.
pub data Trouble : Type 0 where
  already_exists : Trouble
  trouble : Message → Trouble

pub record ResourceApi (W R : Type 0) : Type 0 where
  pub clear_uid : R → R
  -- `RESTMapping` of the kind of a resource: nil, or its error.
  pub rest_mapping : R → W → Option Message
  pub create : R → W → Option Trouble × W
  pub get : R → W → Result R
  pub update : R → W → Option Message × W
  pub delete : R → W → Option Failure × W
  -- CreatePatch on the JSON of two resources.
  pub create_patch : R → R → Result (List Operation)
  -- getStatusCause, and the copy of a nested field of the current resource into another.
  pub status_cause : Message → Option (List Cause)
  pub copy_field : R → String → R → R
  -- UnmarshalJSON, and the label of the Description that owns the resource.
  pub unmarshal : String → Result R
  pub set_owner : String → R → R

-- What the closures that are tried again share.
pub record Trying (W : Type 0) : Type 0 where
  pub world : W
  pub last_error : Option Message

-- ExponentialBackoffWithContext: whether it returned nil.
abbrev pub Backoff : Type 0 → Type 0
Backoff W = (Trying W → Bool × Trying W) → Trying W → Bool × Trying W

module _ {W R : Type 0} (api : ResourceApi W R) where
  unfoldable pub resource_need_resync : R → R → Bool
  resource_need_resync current modified = elim (api.create_patch current modified) [
    | err e ↦ false
    | ok patch ↦ needs_sync patch
  ]

  -- The immutable values of the current resource.
  unfoldable pub apply_immutable : R → List Cause → R → R
  apply_immutable cur [] resource = resource
  apply_immutable cur (c ∷ causes) resource = apply_immutable cur causes (
      if same_text c.cause_type "FieldValueInvalid"
      then api.copy_field cur c.field resource
      else resource)

  -- The update, and the one with immutable values applied.
  unfoldable pub try_update : R → R → W → Bool × Trying W
  try_update cur resource w =
      let (answer, w') = api.update resource w in
      elim answer [
        | none ↦ (true, record { world = w'; last_error = none })
        | some e ↦ elim (api.status_cause e) [
          | none ↦ (
            false,
            record { world = w'; last_error = some (text "failed to get StatusCause for %s %s") },
          )
          | some causes ↦
              let (answer', w'') = api.update (apply_immutable cur causes resource) w' in
              elim answer' [
                | none ↦ (true, record { world = w''; last_error = none })
                | some e' ↦ (false, record { world = w''; last_error = some e' })
              ]
        ]
      ]

  -- The closure of ApplyResourceWithRetry.
  unfoldable pub try_apply : R → Trying W → Bool × Trying W
  try_apply resource st = elim (api.rest_mapping resource st.world) [
    | some e ↦ (
      false,
      record st {
        last_error =
            some (about "please check whether the advertised apiserver is accessible. %v" "" e);
      },
    )
    | none ↦
        let (answer, w') = api.create resource st.world in
        elim answer [
          | none ↦ (true, record { world = w'; last_error = none })
          | some (trouble e) ↦ (false, record { world = w'; last_error = some e })
          | some already_exists ↦ elim (api.get resource w') [
            | err e ↦ (false, record { world = w'; last_error = some e })
            | ok cur ↦ elim (resource_need_resync cur resource) [
              | true ↦ try_update cur resource w'
              | false ↦ (false, record { world = w'; last_error = none })
            ]
          ]
        ]
  ]

  -- The closure of DeleteResourceWithRetry.
  unfoldable pub try_delete : R → Trying W → Bool × Trying W
  try_delete resource st = elim (api.rest_mapping resource st.world) [
    | some e ↦ (
      false,
      record st {
        last_error =
            some (about "please check whether the advertised apiserver is accessible. %v" "" e);
      },
    )
    | none ↦
        let (answer, w') = api.delete resource st.world in
        elim answer [
          | none ↦ (true, record { world = w'; last_error = none })
          | some not_found ↦ (true, record { world = w'; last_error = some (text "not found") })
          | some (other e) ↦ (false, record { world = w'; last_error = some e })
        ]
  ]

  module _ (backoff : Backoff W) where
    unfoldable pub with_retry : (Trying W → Bool × Trying W) → W → Option Message × W
    with_retry condition w =
        let (done, st) = backoff condition (record { world = w; last_error = none }) in
        (elim done [ true ↦ none | false ↦ st.last_error ], st.world)

    unfoldable pub apply_resource_with_retry : R → W → Option Message × W
    apply_resource_with_retry resource w = with_retry (try_apply (api.clear_uid resource)) w

    unfoldable pub delete_resource_with_retry : R → W → Option Message × W
    delete_resource_with_retry resource w = with_retry (try_delete resource) w

    -- The resources of OffloadDescription, with the errors that they leave.
    unfoldable pub offload_each : List String → W → List Message × W
    offload_each [] w = ([], w)
    offload_each (object ∷ objects) w = elim (api.unmarshal object) [
      | err e ↦ let (errs, w') = offload_each objects w in (e ∷ errs, w')
      | ok resource ↦
          let (answer, w') = delete_resource_with_retry resource w in
          let (errs, w'') = offload_each objects w' in
          (elim answer [ none ↦ errs | some e ↦ e ∷ errs ], w'')
    ]

    -- `update` writes the finalizers of the Description.
    unfoldable pub offload_description :
        (List String → W → Option Message × W) → List String → List String → W → Option Message × W
    offload_description update finalizers raw w =
        let (errs, w') = offload_each raw w in
        elim errs [
          | e ∷ es ↦ (aggregate (e ∷ es), w')
          | [] ↦ update (remove_string finalizers app_finalizer) w'
        ]

    -- The resources of ApplyDescription. `callback` is nil where the feature Recovery is off.
    unfoldable pub apply_each :
        (dry : Bool)
        → (callback : Option (R → W → Option Message × W)) → (owner : String) → List String
        → W
        → List Message × W
    apply_each dry callback owner [] w = ([], w)
    apply_each dry callback owner (object ∷ objects) w = elim (api.unmarshal object) [
      | err e ↦ let (errs, w') = apply_each dry callback owner objects w in (e ∷ errs, w')
      | ok bare ↦
          let resource = api.set_owner owner bare in
          let applied : Option Message × W = elim dry [
            | true ↦ (none, w)
            | false ↦ apply_resource_with_retry resource w
          ] in
          let used : R = elim dry [ true ↦ resource | false ↦ api.clear_uid resource ] in
          let called : Option Message × W = elim applied.0 [
            | some e ↦ applied
            | none ↦ elim callback [ none ↦ applied | some f ↦ f used applied.1 ]
          ] in
          let (errs, w'') = apply_each dry callback owner objects called.1 in
          (elim called.0 [ none ↦ errs | some e ↦ e ∷ errs ], w'')
    ]

    -- `update_status` writes the phase and the reason of the Description.
    unfoldable pub apply_description :
        (dry : Bool)
        → (callback : Option (R → W → Option Message × W))
        → (update_status : String → Option Message → W → Option Message × W) → (owner : String)
        → List String
        → W
        → Option Message × W
    apply_description dry callback update_status owner raw w =
        let (errs, w') = apply_each dry callback owner raw w in
        elim dry [
          | true ↦ (aggregate errs, w')
          | false ↦ elim errs [
            | e ∷ es ↦
                let (answer, w'') = update_status "Failure" (aggregate (e ∷ es)) w' in
                (aggregate (e ∷ es), w'')
            | [] ↦ update_status "Success" none w'
          ]
        ]
