-- ===== src/Hub/Feeds/Keeps.antt =====
-- What the patches of labels in pkg/hub/deployer/deployer.go leave alone: any view of the world that
-- a single patch keeps.
use clusternet.Prelude.{
  String, Bool, true, false, Option, none, List, [], ◌∷◌, ◌≡◌, refl, ◌∙◌, Message,
}
use clusternet.Hub.Api.{Failure, Answer, found, failed, Base}
use clusternet.Hub.Feeds.{
  Referent, Patch, FeedApi, patch_each, patch_all, remove_labels_from_referred_feeds, collect_feeds,
  labels_to_patch, add_labels_to_referred_feeds,
}

module _ {ℓ} {W : Type 0} {O : Type ℓ} (view : W → O) where
  patch_each-keeps :
      (patch : Referent → Patch → W → Option Failure × W)
      → ((r : Referent) (p : Patch) (w : W) → view (patch r p w).1 ≡ view w)
      → (rs : List Referent) (p : Patch) (w : W) → view (patch_each patch rs p w).1 ≡ view w
  unfolding patch_each
  patch_each-keeps patch h [] p w = refl
  patch_each-keeps patch h (r ∷ rs) p w =
      go r.deleting refl (patch_each-keeps patch h rs p w)
        (patch_each-keeps patch h rs p (patch r p w).1)
    where
      go :
          (b : Bool)
          → r.deleting ≡ b
          → view (patch_each patch rs p w).1 ≡ view w
          → view (patch_each patch rs p (patch r p w).1).1 ≡ view (patch r p w).1
          → view (patch_each patch (r ∷ rs) p w).1 ≡ view w
      go true e x y = rw (patch_each, e) x
      go false e x y = rw (patch_each, e) (y ∙ h r p w)

  -- A single patch keeps the view.
  pub record KeptByPatches (feeds : FeedApi W) : Type ℓ where
    pub chart : (r : Referent) (p : Patch) (w : W) → view (feeds.patch_chart r p w).1 ≡ view w
    pub manifest : (r : Referent) (p : Patch) (w : W) → view (feeds.patch_manifest r p w).1 ≡ view w

  module _ (feeds : FeedApi W) (kept : KeptByPatches feeds) where
    patch_all-keeps :
        (cs ms : List Referent) (p : Patch) (w : W) → view (patch_all feeds cs ms p w).1 ≡ view w
    unfolding patch_all
    patch_all-keeps cs ms p w =
        patch_each-keeps feeds.patch_manifest kept.manifest ms p
          (patch_each feeds.patch_chart cs p w).1
        ∙ patch_each-keeps feeds.patch_chart kept.chart cs p w

    pub remove_labels-keeps :
        (uid kind : String) (w : W)
        → view (remove_labels_from_referred_feeds feeds uid kind w).1 ≡ view w
    unfolding remove_labels_from_referred_feeds
    remove_labels-keeps uid kind w = charts (feeds.list_charts w uid kind) refl
      where
        Goal : Type ℓ
        Goal = view (remove_labels_from_referred_feeds feeds uid kind w).1 ≡ view w

        manifests :
            (cs : List Referent) (b : Answer (List Referent))
            → feeds.list_charts w uid kind ≡ found cs
            → feeds.list_manifests w uid kind ≡ b
            → Goal
        manifests cs (failed f) e d = rw (remove_labels_from_referred_feeds, e, d) refl
        manifests cs (found ms) e d =
            rw (remove_labels_from_referred_feeds, e, d)
              (patch_all-keeps cs ms ((uid, none) ∷ []) w)

        charts : (a : Answer (List Referent)) → feeds.list_charts w uid kind ≡ a → Goal
        charts (failed f) e = rw (remove_labels_from_referred_feeds, e) refl
        charts (found cs) e = manifests cs (feeds.list_manifests w uid kind) e refl

    pub add_labels-keeps :
        (b : Base) (w : W) → view (add_labels_to_referred_feeds feeds b w).1 ≡ view w
    unfolding add_labels_to_referred_feeds
    add_labels-keeps b w = go (collect_feeds feeds b.feeds w).errors refl
      where
        go :
            (es : List Message)
            → (collect_feeds feeds b.feeds w).errors ≡ es
            → view (add_labels_to_referred_feeds feeds b w).1 ≡ view w
        go (m ∷ es) e = rw (add_labels_to_referred_feeds, e) refl
        go [] e =
            rw (add_labels_to_referred_feeds, e) (patch_all-keeps _ _ (labels_to_patch feeds b) w)
