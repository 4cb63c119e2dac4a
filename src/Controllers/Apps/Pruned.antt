-- ===== src/Controllers/Apps/Pruned.antt =====
-- The labels that pruneLabels of pkg/controllers/apps/helmchart and manifest leaves, and the keys that
-- a change of a Base brings to the queue.
use clusternet.Prelude.{
  String, Bool, true, false, not, ◌&&◌, ◌||◌, none, List, [], ◌∷◌, ◌++◌, ◌≡◌, refl, same_text,
  contains, find, remove, find-remove, arith, if◌then◌else◌,
}
use package.text.Mathlib.TextPositions.{eq_refl}
use clusternet.Utils.Feed.{
  has_feed, find_bases_from_uids, find_obsoleted_feeds, format_feed, formatted,
}
use clusternet.Hub.Api.{Feed, Base, Answer, label, config_uid_label}
use clusternet.Controllers.Apps.Feeds.{
  prune_uids, prune_each, prune_labels, chart_keys, update_base_charts,
}

-- One of the Bases has this UID, or is labelled with it as that of its Subscription, and does not have
-- the feed.
abbrev pub is_stale : Feed → String → List Base → Bool
is_stale feed k [] = false
is_stale feed k (base ∷ bases) =
    ((same_text base.uid k || same_text (label config_uid_label base.labels) k)
      && not (has_feed feed base.feeds))
    || is_stale feed k bases

find-prune_each :
    (feed : Feed) (k : String) (bases : List Base) (labels : List (String × String))
    → find k (prune_each feed bases labels)
      ≡ (if is_stale feed k bases then none else find k labels)
unfolding prune_each
find-prune_each feed k [] labels = refl
find-prune_each feed k (base ∷ bases) labels = ground (
  arith,
  find-prune_each feed k bases labels,
  find-prune_each feed k bases
      (remove (label config_uid_label base.labels) (remove base.uid labels)),
  find-remove base.uid k labels,
  find-remove (label config_uid_label base.labels) k (remove base.uid labels),
)

-- pruneLabels takes away exactly the labels whose key is the UID, or the UID of the Subscription,
-- of a Base that is listed for one of the UID labels of the object and that no longer has its feed.
pub find-prune_labels :
    (bases_of : String → Answer (List Base)) (feed : Feed) (labels : List (String × String))
    (k : String)
    → find k (prune_labels bases_of feed labels) ≡ (
        if is_stale feed k (find_bases_from_uids bases_of (prune_uids labels))
        then none
        else find k labels)
unfolding prune_labels
find-prune_labels bases_of feed labels k =
    find-prune_each feed k (find_bases_from_uids bases_of (prune_uids labels)) labels

module _ (with_namespace : String → String → String → String) (without : String → String → String)
    (same_feeds : List Feed → List Feed → Bool) where
  abbrev pub obsoleted : List Feed → List Feed → List Feed
  obsoleted old new = find_obsoleted_feeds with_namespace without old new

  queued_of :
      (key : String → String → String) (as_ bs new : List Feed) (feed : Feed)
      → same_text feed.kind "HelmChart" ≡ true
      → contains (format_feed with_namespace without feed) (formatted with_namespace without new)
        ≡ false
      → contains
          (key feed.namespace feed.name)
          (chart_keys obsoleted same_feeds key (obsoleted (as_ ++ (feed ∷ bs)) new))
        ≡ true
  unfolding chart_keys find_obsoleted_feeds
  queued_of key [] bs new feed kind gone =
      rw (find_obsoleted_feeds, gone, chart_keys, kind, eq_refl (key feed.namespace feed.name)) refl
  queued_of key (f ∷ as_) bs new feed kind gone =
      ground (arith, queued_of key as_ bs new feed kind gone)

  -- When a Base that is not being deleted changes its feeds, and a chart is among the old ones but
  -- its formatted feed is not among the new ones, the key of the chart is added to the queue.
  pub update_base_charts-queues :
      (key : String → String → String) (old new : Base) (as_ bs : List Feed) (feed : Feed)
      → new.deleting ≡ false
      → same_feeds old.feeds new.feeds ≡ false
      → old.feeds ≡ as_ ++ (feed ∷ bs)
      → same_text feed.kind "HelmChart" ≡ true
      → contains
          (format_feed with_namespace without feed)
          (formatted with_namespace without new.feeds)
        ≡ false
      → contains
          (key feed.namespace feed.name)
          (update_base_charts obsoleted same_feeds key old new)
        ≡ true
  unfolding update_base_charts
  update_base_charts-queues key old new as_ bs feed alive changed split kind gone =
      rw (update_base_charts, alive, changed, split) (queued_of key as_ bs new.feeds feed kind gone)
