-- ===== src/Utils/Feed.antt =====
-- pkg/utils/feed.go: feeds and what they select. The group and the version of an API version, label
-- selectors, JSON and the client are parameters.
use clusternet.Prelude.{
  ℕ, suc, String, Bool, true, false, ◌&&◌, ◌||◌, List, [], ◌∷◌, ◌++◌, same_text, contains,
  if◌then◌else◌, Result, ok, err, Message, Option, none, some,
}
use clusternet.Hub.Api.{
  Feed, Failure, Answer, found, failed, Base, Subscription, config_kind_label, config_name_label,
  config_namespace_label,
}

abbrev pub config_group_label : String
config_group_label = "apps.clusternet.io/config.group"

abbrev pub config_version_label : String
config_version_label = "apps.clusternet.io/config.version"

-- FormatFeed, from what package fmt makes of two and of three texts.
module _ (with_namespace : String → String → String → String)
    (without : String → String → String) where
  unfoldable pub format_feed : Feed → String
  format_feed feed =
      if same_text feed.namespace ""
      then without feed.kind feed.name
      else with_namespace feed.kind feed.namespace feed.name

  -- The feeds of a list, formatted.
  abbrev pub formatted : List Feed → List String
  formatted [] = []
  formatted (f ∷ fs) = format_feed f ∷ formatted fs

  unfoldable pub find_obsoleted_feeds : List Feed → List Feed → List Feed
  find_obsoleted_feeds [] new_feeds = []
  find_obsoleted_feeds (feed ∷ old_feeds) new_feeds =
      let rest = find_obsoleted_feeds old_feeds new_feeds in
      if contains (format_feed feed) (formatted new_feeds) then rest else feed ∷ rest

unfoldable pub has_feed : Feed → List Feed → Bool
has_feed feed [] = false
has_feed feed (f ∷ feeds) =
    (same_text f.kind feed.kind
      && same_text f.namespace feed.namespace
      && same_text f.name feed.name)
    || has_feed feed feeds

-- FindBasesFromUIDs, where `bases_of` lists the Bases that have the label `uid=Base`.
unfoldable pub find_bases_from_uids : (String → Answer (List Base)) → List String → List Base
find_bases_from_uids bases_of [] = []
find_bases_from_uids bases_of (uid ∷ uids) =
    let rest = find_bases_from_uids bases_of uids in
    elim (bases_of uid) [ failed f ↦ rest | found bases ↦ bases ++ rest ]

-- The labels that GetLabelsSelectorFromFeed asks for. `parse` is ParseGroupVersion.
unfoldable pub get_labels_selector_from_feed :
    (String → Result (String × String)) → Feed → Result (List (String × String))
get_labels_selector_from_feed parse feed =
    let gv : Result (String × String) = elim (same_text feed.api_version "") [
      | true ↦ ok ("", "")
      | false ↦ parse feed.api_version
    ] in
    elim gv [
      | err e ↦ err e
      | ok (group, version) ↦ ok (
          (config_group_label, group)
          ∷ (config_version_label, version)
          ∷ (config_kind_label, feed.kind)
          ∷ (config_name_label, feed.name)
          ∷ (if same_text feed.namespace ""
              then []
              else (config_namespace_label, feed.namespace) ∷ []))
    ]

module _ (parse : String → Result (String × String))
    (matches : List (String × String) → List (String × String) → Bool) where
  -- The indexes from `idx` of the feeds that select the labels.
  unfoldable pub matching_indexes : List (String × String) → ℕ → List Feed → Result (List ℕ)
  matching_indexes source_labels idx [] = ok []
  matching_indexes source_labels idx (feed ∷ feeds) =
      let rest = matching_indexes source_labels (suc idx) feeds in
      elim (get_labels_selector_from_feed parse feed) [
        | err e ↦ err e
        | ok selector ↦ elim rest [
          | err e ↦ err e
          | ok indexes ↦ ok (if matches selector source_labels then idx ∷ indexes else indexes)
        ]
      ]

  module _ {W : Type 0} (patch : Subscription → List ℕ → W → Option Failure × W)
      (message_of : Failure → Message) where
    -- `patch` sends "remove" operations on /spec/feeds at these indexes, in this order.
    unfoldable pub remove_feed_from_subscription :
        List (String × String) → Subscription → W → Option Message × W
    remove_feed_from_subscription source_labels sub w =
        elim (matching_indexes source_labels 0 sub.feeds) [
          | err e ↦ (some e, w)
          | ok [] ↦ (none, w)
          | ok (i ∷ is) ↦
              let (answer, w') = patch sub (i ∷ is) w in
              (elim answer [ none ↦ none | some f ↦ some (message_of f) ], w')
        ]
