-- ===== src/Scheduler/Algorithm/Search.antt =====
-- What the search of pkg/scheduler/algorithm/generic.go finds.
use text.Mathlib.TextPositions.{eq_refl}
use clusternet.Prelude.{
  ◌≡◌, refl, String, Bool, true, false, ◌||◌, List, [], ◌∷◌, contains, if◌then◌else◌, arith, All,
  map,
}
use clusternet.Scheduler.Api.{ManagedCluster}
use clusternet.Scheduler.Algorithm.{normalized_from, normalized_clusters}

-- `x` stands in the list.
module _ (key : ManagedCluster → String) where
  -- No two clusters of the list have one key, and none has a key of `keys`.
  abbrev pub Distinct : List String → List ManagedCluster → Type 0
  Distinct keys [] = Unit
  Distinct keys (c ∷ cs) = (contains (key c) keys ≡ false) × Distinct (key c ∷ keys) cs

  normalized_from-Distinct :
      (keys : List String) (cs : List ManagedCluster) → Distinct keys (normalized_from key keys cs)
  unfolding normalized_from
  normalized_from-Distinct keys [] = tt
  normalized_from-Distinct keys (c ∷ cs) =
      ground (arith, normalized_from-Distinct keys cs, normalized_from-Distinct (key c ∷ keys) cs)

  -- What holds of every cluster of the list holds of those that are kept, and none of these is being
  -- deleted.
  normalized_from-All :
      (P : ManagedCluster → Type 0) (keys : List String) (cs : List ManagedCluster)
      → All P cs
      → All (λ (c : ManagedCluster). P c × (c.deleting ≡ false)) (normalized_from key keys cs)
  unfolding normalized_from
  normalized_from-All P keys [] h = tt
  normalized_from-All P keys (c ∷ cs) h =
      go (contains (key c) keys) c.deleting refl (normalized_from-All P keys cs h.1)
        (normalized_from-All P (key c ∷ keys) cs h.1)
    where
      Good : List ManagedCluster → Type 0
      Good l = All (λ (d : ManagedCluster). P d × (d.deleting ≡ false)) l

      go :
          (seen deleting : Bool)
          → c.deleting ≡ deleting
          → Good (normalized_from key keys cs)
          → Good (normalized_from key (key c ∷ keys) cs)
          → Good (
              if seen
              then normalized_from key keys cs
              else if deleting
              then normalized_from key keys cs
              else c ∷ normalized_from key (key c ∷ keys) cs)
      go true deleting e skipped taken = skipped
      go false true e skipped taken = skipped
      go false false e skipped taken = ((h.0, e), taken)

  -- Each cluster that is not being deleted has its key in `keys` or among those that are kept.
  abbrev Covers : List String → List ManagedCluster → List ManagedCluster → Type 0
  Covers keys kept cs =
      All
        (λ (c : ManagedCluster).
          c.deleting ≡ false → (contains (key c) keys || contains (key c) (map key kept)) ≡ true)
        cs

  Covers-mono :
      (keys keys' : List String) (kept kept' cs : List ManagedCluster)
      → ((k : String)
          → (contains k keys || contains k (map key kept)) ≡ true
          → (contains k keys' || contains k (map key kept')) ≡ true)
      → Covers keys kept cs
      → Covers keys' kept' cs
  Covers-mono keys keys' kept kept' [] f h = tt
  Covers-mono keys keys' kept kept' (c ∷ cs) f h =
      (λ e. f (key c) (h.0 e), Covers-mono keys keys' kept kept' cs f h.1)

  normalized_from-Covers :
      (keys : List String) (cs : List ManagedCluster) → Covers keys (normalized_from key keys cs) cs
  unfolding normalized_from
  normalized_from-Covers keys [] = tt
  normalized_from-Covers keys (c ∷ cs) =
      go (contains (key c) keys) c.deleting refl refl (normalized_from-Covers keys cs)
        (normalized_from-Covers (key c ∷ keys) cs)
    where
      skipped : List ManagedCluster
      skipped = normalized_from key keys cs

      taken : List ManagedCluster
      taken = c ∷ normalized_from key (key c ∷ keys) cs

      go :
          (seen deleting : Bool)
          → contains (key c) keys ≡ seen
          → c.deleting ≡ deleting
          → Covers keys skipped cs
          → Covers (key c ∷ keys) (normalized_from key (key c ∷ keys) cs) cs
          → Covers keys (if seen then skipped else if deleting then skipped else taken) (c ∷ cs)
      go true deleting f e h k = (λ _. ground (arith, f), h)
      go false true f e h k = (λ q. cc, h)
      go false false f e h k = (
        λ q. ground (arith, eq_refl (key c)),
        Covers-mono (key c ∷ keys) keys (normalized_from key (key c ∷ keys) cs) taken cs
            (λ j q. ground arith) k,
      )

  -- normalizedClusters keeps no two clusters with one key and none that is being deleted, keeps only
  -- clusters that it is given, and keeps the key of each that is not being deleted.
  pub normalized_clusters_lem :
      (P : ManagedCluster → Type 0) (cs : List ManagedCluster)
      → All P cs
      → let kept = normalized_clusters key cs in
        Distinct [] kept
        × All (λ (c : ManagedCluster). P c × (c.deleting ≡ false)) kept
        × All
            (λ (c : ManagedCluster). c.deleting ≡ false → contains (key c) (map key kept) ≡ true)
            cs
  unfolding normalized_clusters
  normalized_clusters_lem P cs h =
      (normalized_from-Distinct [] cs, normalized_from-All P [] cs h, normalized_from-Covers [] cs)
