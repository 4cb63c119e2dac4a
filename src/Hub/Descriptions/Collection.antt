-- ===== src/Hub/Descriptions/Collection.antt =====
-- populateDescriptions of pkg/hub/deployer/deployer.go: which objects its Descriptions are made of.
use mathlib.Core.List.{Memᴰ}
use clusternet.Prelude.{String, true, false, List, [], ◌∷◌, ◌++◌, ◌≡◌, same_text, map}
use clusternet.Hub.Api.{Feed, found, Base}
use clusternet.Hub.Feeds.{Referent, FeedApi}
use clusternet.Hub.Descriptions.Written.{PartsWritten}
use clusternet.Hub.Descriptions.{DescriptionApi, Collected, collected, chart_missing}

-- The charts and the templates that feeds stand for, in the order of the feeds: a HelmChart that is
-- there, has been verified and was found in its repository, or one Manifest at least.
pub data IsCollected {W : Type 0} (feeds : FeedApi W) (w : W)
    : List Feed → List (String × String) → List String → Type 0 where
  nothing : IsCollected feeds w [] [] []
  chart :
      {feed : Feed} {rest : List Feed} {charts : List (String × String)} {raws : List String}
      (c : Referent)
      → same_text feed.kind "HelmChart" ≡ true
      → feeds.get_chart w feed.namespace feed.name ≡ found c
      → same_text c.phase "" ≡ false
      → same_text c.phase "NotFound" ≡ false
      → IsCollected feeds w rest charts raws
      → IsCollected feeds w (feed ∷ rest) ((c.namespace, c.name) ∷ charts) raws
  manifests :
      {feed : Feed} {rest : List Feed} {charts : List (String × String)} {raws : List String}
      (m : Referent) (ms : List Referent)
      → same_text feed.kind "HelmChart" ≡ false
      → feeds.manifests_of w feed ≡ found (m ∷ ms)
      → IsCollected feeds w rest charts raws
      → IsCollected feeds w (feed ∷ rest) charts (map (λ (r : Referent). r.raw) (m ∷ ms) ++ raws)

-- One of the feeds is a HelmChart that is there, but was not found in its repository.
abbrev pub IsMissing : {W : Type 0} → FeedApi W → W → List Feed → Type 0
IsMissing feeds w fs =
    (feed : Feed) × (c : Referent) × Memᴰ feed fs
    × (same_text feed.kind "HelmChart" ≡ true)
    × (feeds.get_chart w feed.namespace feed.name ≡ found c)
    × (same_text c.phase "NotFound" ≡ true)

module _ {W : Type 0} (feeds : FeedApi W) where
  -- The loop ended at its end, with these added to what was collected before.
  abbrev Adds : W → List Feed → List (String × String) → List String → Collected → Type 0
  Adds w fs charts raws (collected cs ms) =
      (cs' : List (String × String)) × (ms' : List String) × (cs ≡ charts ++ cs')
      × (ms ≡ raws ++ ms')
      × IsCollected feeds w fs cs' ms'
  Adds w fs charts raws chart_missing = IsMissing feeds w fs
  Adds w fs charts raws _ = Unit

-- The Descriptions of the charts and the templates that the feeds of a Base stand for are written.
abbrev pub AreWritten : {W : Type 0} → DescriptionApi W → FeedApi W → Base → W → Type 0
AreWritten api feeds base w =
    (charts : List (String × String)) × (raws : List String) × IsCollected feeds w base.feeds charts
      raws
    × PartsWritten api base charts raws w
