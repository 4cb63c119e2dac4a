-- ===== src/Controllers/Apps/Overrides.antt =====
-- pkg/controllers/apps/globalization/globalization.go and localization/localization.go. A Globalization
-- has no namespace: its key and its lister have none.
use clusternet.Prelude.{
  String, Bool, true, false, ◌&&◌, Option, none, some, List, [], ◌∷◌, find, put, same_text, Result,
  ok, err, Message, try_value,
}
use clusternet.Hub.Api.{Feed, config_kind_label, label}
use clusternet.Controllers.Work.{
  typed, Object, Deleted, enqueue, deleted, updated, Store, inject_finalizer, patch_labels, of_key,
}

-- `S` is the specification, `feed_of` its feed.
module _ {S : Type 0} (key_of : Object S → Result String) (same_spec : S → S → Bool)
    (same_labels : List (String × String) → List (String × String) → Bool) where
  abbrev pub same_override : Object S → Object S → Bool
  same_override o n = same_labels o.labels n.labels && same_spec o.body n.body

  unfoldable pub add_globalization : Object S → List String
  add_globalization glob = enqueue key_of glob

  unfoldable pub update_globalization : Object S → Object S → List String
  update_globalization old new = updated key_of same_override old new

  unfoldable pub delete_globalization : Deleted (Object S) → List String
  delete_globalization d = deleted key_of d

  unfoldable pub add_localization : Object S → List String
  add_localization loc = enqueue key_of loc

  unfoldable pub update_localization : Object S → Object S → List String
  update_localization old new = updated key_of same_override old new

  unfoldable pub delete_localization : Deleted (Object S) → List String
  delete_localization d = deleted key_of d

-- The label of an object that a feed selects, unless it is there.
abbrev pub missing_label :
    List (String × String) → String → String → List (String × String) → List (String × String)
missing_label labels uid kind patch = elim (find uid labels) [
  | none ↦ put uid kind patch
  | some v ↦ elim (same_text v kind) [ true ↦ patch | false ↦ put uid kind patch ]
]

module _ {S M H : Type 0} (feed_of : S → Feed) (get_chart : String → String → Result (Object H))
    (list_manifests : Feed → Result (List (Object M))) where
  unfoldable pub labels_of_manifests :
      List (String × String) → List (Object M) → List (String × String) → List (String × String)
  labels_of_manifests labels [] patch = patch
  labels_of_manifests labels (m ∷ manifests) patch =
      labels_of_manifests labels manifests
        (missing_label labels m.uid (label config_kind_label m.labels) patch)

  -- getLabelsForPatching.
  unfoldable pub get_labels_for_patching : Object S → Result (List (String × String))
  get_labels_for_patching o = elim o.deleting [
    | true ↦ ok []
    | false ↦ elim (same_text (feed_of o.body).kind "HelmChart") [
      | true ↦ elim (get_chart (feed_of o.body).namespace (feed_of o.body).name) [
        | err e ↦ err e
        | ok chart ↦ ok (missing_label o.labels chart.uid "HelmChart" [])
      ]
      | false ↦ elim (list_manifests (feed_of o.body)) [
        | err e ↦ err e
        | ok manifests ↦ ok (labels_of_manifests o.labels manifests [])
      ]
    ]
  ]

  module _ {W : Type 0} (store : Store W S) (split : String → Result (String × String))
      (handler : Object S → W → Option Message × W) where
    unfoldable pub label_feeds : Object S → W → Result (Object S) × W
    label_feeds o w = elim (get_labels_for_patching o) [
      | err e ↦ (err e, w)
      | ok patch ↦ patch_labels store o patch w
    ]

    unfoldable pub sync_globalization : String → W → Option Message × W
    sync_globalization key w =
        of_key store split
          (λ glob w0. try_value (inject_finalizer store glob w0) λ glob1 w1.
            try_value (label_feeds glob1 w1) λ glob2 w2. handler (typed "Globalization" glob2) w2)
          key w

    unfoldable pub sync_localization : String → W → Option Message × W
    sync_localization key w =
        of_key store split
          (λ loc w0. try_value (inject_finalizer store loc w0) λ loc1 w1.
            try_value (label_feeds loc1 w1) λ loc2 w2. handler (typed "Localization" loc2) w2)
          key w
