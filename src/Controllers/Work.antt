-- ===== src/Controllers/Work.antt =====
-- What the controllers under pkg/controllers/apps and pkg/controllers/misc share: each repeats these
-- functions for its own kind of object. The listers, the clients and the functions on keys are
-- parameters; an event is recorded after each step, which is left out.
pub mod Finalized
use clusternet.Prelude.{
  String, Bool, true, false, not, ◌&&◌, Option, none, some, List, [], ◌∷◌, ◌++◌, find, same_text,
  Result, ok, err, Message, try_value, if◌then◌else◌,
}
use clusternet.Utils.Slice.{contains_string}
use clusternet.Hub.Api.{Failure, not_found, other, Answer, found, failed, app_finalizer}
use clusternet.Controllers.ClusterLifecycle.{Queued, add_rate_limited, forget}
use clusternet.Registration.Requests.{Refusal, Retry, refusal_message}

-- An object: its type, its metadata, and its specification and status `S`. Objects from a lister or the
-- client have an empty type.
pub record Object (S : Type 0) : Type 0 where
  pub kind : String
  pub api_version : String
  pub namespace : String
  pub name : String
  pub uid : String
  pub deleting : Bool
  pub labels : List (String × String)
  pub finalizers : List String
  pub body : S

-- The assignments with which sync handlers name the type.
abbrev pub typed : {S : Type 0} → String → Object S → Object S
typed kind o = record o { kind = kind; api_version = "v1alpha1" }

pub record OwnerReference : Type 0 where
  pub kind : String
  pub name : String
  pub uid : String

-- What a deletion handler is called with: the object, a tombstone with what was known of it, or
-- something else.
pub data Deleted (A : Type 0) : Type 0 where
  object : A → Deleted A
  final_state : Option A → Deleted A
  strange : Deleted A

unfoldable pub deleted_object : {A : Type 0} → Deleted A → Option A
deleted_object (object a) = some a
deleted_object (final_state o) = o
deleted_object strange = none

-- The handlers below return the keys that they add to the work queue.
module _ {S : Type 0} (key_of : Object S → Result String) where
  unfoldable pub enqueue : Object S → List String
  enqueue o = elim (key_of o) [ err e ↦ [] | ok key ↦ key ∷ [] ]

  unfoldable pub deleted : Deleted (Object S) → List String
  deleted d = elim (deleted_object d) [ none ↦ [] | some o ↦ enqueue o ]

  -- The update handlers, where `skips` says that nothing changed that matters.
  unfoldable pub updated : (Object S → Object S → Bool) → Object S → Object S → List String
  updated skips old new =
      if new.deleting then enqueue new else if skips old new then [] else enqueue new

-- An item of the work queue, which is a key or something else.
pub data Item : Type 0 where
  text_item : String → Item
  strange_item : Item

pub data Call : Type 0 where
  requeue : String → Call
  forgotten : Item → Call

-- The function in processNextWorkItem: the call on the queue, and what the handler leaves.
unfoldable pub process_next_work_item :
    {W : Type 0} → (String → W → Option Message × W) → Item → W → Call × W
process_next_work_item handler strange_item w = (forgotten strange_item, w)
process_next_work_item handler (text_item key) w =
    let (answer, w') = handler key w in
    elim answer [ some e ↦ (requeue key, w') | none ↦ (forgotten (text_item key), w') ]

pub record Store (W S : Type 0) : Type 0 where
  -- The object in the lister's cache.
  pub get : W → String → String → Answer (Object S)
  -- The object in the cache is changed through the pointer that the lister returned.
  pub share : Object S → W → W
  pub update : Object S → W → Result (Object S) × W
  pub patch : Object S → List (String × String) → W → Result (Object S) × W
  pub update_status : Object S → W → Option Refusal × W

module _ {W S : Type 0} (store : Store W S) where
  -- The object with the finalizer, which is set on the cached object before it is written.
  unfoldable pub inject_finalizer : Object S → W → Result (Object S) × W
  inject_finalizer o w = elim (not (contains_string o.finalizers app_finalizer) && not o.deleting) [
    | true ↦
        let o' = record o { finalizers = o.finalizers ++ (app_finalizer ∷ []) } in
        store.update o' (store.share o' w)
    | false ↦ (ok o, w)
  ]

  -- The functions patch…Labels.
  unfoldable pub patch_labels : Object S → List (String × String) → W → Result (Object S) × W
  patch_labels o [] w = (ok o, w)
  patch_labels o (l ∷ labels) w = elim o.deleting [
    | true ↦ (ok o, w)
    | false ↦ store.patch o (l ∷ labels) w
  ]

  -- The object with the label that is its own UID.
  unfoldable pub label_self : String → Object S → W → Result (Object S) × W
  label_self kind o w = elim (find o.uid o.labels) [
    | none ↦ patch_labels o ((o.uid, kind) ∷ []) w
    | some v ↦ elim (same_text v kind) [
      | true ↦ (ok o, w)
      | false ↦ patch_labels o ((o.uid, kind) ∷ []) w
    ]
  ]

  -- The object of a key, for the rest of a sync handler.
  unfoldable pub of_key :
      (split : String → Result (String × String))
      → (Object S → W → Option Message × W)
      → String
      → W
      → Option Message × W
  of_key split k key w = elim (split key) [
    | err e ↦ (none, w)
    | ok (ns, name) ↦ elim (store.get w ns name) [
      | failed not_found ↦ (none, w)
      | failed (other m) ↦ (some m, w)
      | found o ↦ k o w
    ]
  ]

  -- The closure of the functions Update…Status, whose state is the object that is written next.
  unfoldable pub try_update_status : (S → S) → Object S × W → Option Refusal × (Object S × W)
  try_update_status set (o, w) =
      let written = record o { body = set o.body } in
      let (answer, w') = store.update_status written w in
      elim answer [
        | none ↦ (none, (written, w'))
        | some e ↦ elim (store.get w' o.namespace o.name) [
          | found updated_object ↦ (some e, (updated_object, w'))
          | failed f ↦ (some e, (written, w'))
        ]
      ]

  unfoldable pub update_status_of :
      Retry (Object S × W) → (S → S) → Object S → W → Option Message × W
  update_status_of retry set o w =
      let (answer, st) = retry (try_update_status set) (o, w) in
      elim answer [ none ↦ (none, st.1) | some e ↦ (some (refusal_message e), st.1) ]
