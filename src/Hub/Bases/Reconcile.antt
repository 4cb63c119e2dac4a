-- ===== src/Hub/Bases/Reconcile.antt =====
-- populateBases of pkg/hub/deployer/deployer.go against what it is for: the Bases that a Subscription
-- has when it returns without an error.
use mathlib.Core.Path.{subst}
use clusternet.Prelude.{
  String, Bool, true, false, Option, none, some, List, [], ◌∷◌, ◌≡◌, inl, refl, sym, ◌∙◌, ok,
  Message, All, contains, ◌&&◌, not,
}
use clusternet.Hub.Api.{Feed, found, Subscription, Base}
use clusternet.Hub.Feeds.{FeedApi}
use clusternet.Hub.Bases.{BaseApi, Populating, sync_clusters, base_keys, populate_bases}
use clusternet.Hub.Bases.Store.{IsSynced, BaseStore}
use clusternet.Hub.Bases.Keys.{IsDeleted, IsUpdated, IsAsFor, aggregate-none, and_false}
use clusternet.Hub.Bases.Rounds.{
  wanted_keys, IsKeyed, IsInSync, delete_bases_lem, sync_clusters_lem,
}

module _ {W : Type 0} (api : BaseApi W) (feeds : FeedApi W) (store : BaseStore api feeds) where
  -- What a Subscription asks for at a key, where `listed` are the keys of the Bases it had.
  abbrev pub IsReconciled : Subscription → List String → W → W → String → Type 0
  IsReconciled sub listed w w' k =
      IsAsFor sub.feeds (contains k (wanted_keys api feeds store sub sub.binding_clusters))
        (contains k listed) (store.view w k) (store.view w' k)

  base_keys-IsKeyed :
      (bs : List Base)
      → All (λ (b : Base). api.split (api.key b.namespace b.name) ≡ ok (b.namespace, b.name)) bs
      → All (IsKeyed api feeds store) (base_keys api feeds bs)
  unfolding base_keys
  base_keys-IsKeyed [] h = tt
  base_keys-IsKeyed (b ∷ bs) h = (keyed, base_keys-IsKeyed bs h.1)
    where
      keyed : IsKeyed api feeds store (api.key b.namespace b.name)
      keyed ns n e = cc (h.0, e)

  reconciled :
      (fs : List Feed) (wanted listed left : Bool) (v v' v'' : Option Base)
      → IsUpdated fs wanted v v'
      → left ≡ (listed && not wanted)
      → IsDeleted left v' v''
      → IsAsFor fs wanted listed v v''
  reconciled fs true listed true v v' v'' u e d = cc (e, and_false listed)
  reconciled fs true listed false v v' v'' u e d = subst (IsSynced fs) (sym d) u
  reconciled fs false true true v v' v'' u e d = d
  reconciled fs false true false v v' v'' u e d = cc
  reconciled fs false false true v v' v'' u e d = cc
  reconciled fs false false false v v' v'' u e d = d ∙ u

  -- If calls on Bases change the world at their key only, the cache of Bases agrees with the world
  -- and the keys of the listed Bases are well formed, populateBases returns no error only when each
  -- binding cluster whose key is well formed and whose namespace exists has its Base with the feeds
  -- of the Subscription, every other Base of the Subscription is gone or waits for its finalizers,
  -- and no other key has changed.
  pub populate_bases-IsReconciled :
      (sub : Subscription) (existing : List Base) (w : W) (k : String)
      → IsInSync api feeds store w
      → api.list_bases sub ≡ found existing
      → All
          (λ (b : Base). api.split (api.key b.namespace b.name) ≡ ok (b.namespace, b.name))
          existing
      → (populate_bases api feeds sub w).0 ≡ none
      → IsReconciled sub (base_keys api feeds existing) w (populate_bases api feeds sub w).1 k
  unfolding populate_bases
  populate_bases-IsReconciled sub existing w k cached e keyed =
      synced (sync_clusters api sub sub.binding_clusters start).1 refl
    where
      start : Populating api
      start = record {
        world = w;
        bases_to_be_deleted = base_keys api feeds existing;
        all_errs = [];
      }

      synced :
          (o : Option Message)
          → (sync_clusters api sub sub.binding_clusters (record {
            world = w;
            bases_to_be_deleted = base_keys api feeds existing;
            all_errs = [];
          })).1
            ≡ o
          → (populate_bases api feeds sub w).0 ≡ none
          → IsReconciled sub (base_keys api feeds existing) w (populate_bases api feeds sub w).1 k
      synced (some m) d = rw (populate_bases, e, d) (λ g. cc)
      synced none d =
          rw (populate_bases, e, d)
            (λ g.
              let st = (sync_clusters api sub sub.binding_clusters start).0 in
              let deleted =
                delete_bases_lem api feeds store k st.bases_to_be_deleted st.world st.all_errs
                  (aggregate-none _ g) in
              let rounds =
                sync_clusters_lem api feeds store sub w sub.binding_clusters start k cached d
                  deleted.0 in
              let round = rounds.1 (λ j. inl refl) in
              reconciled sub.feeds
                (contains k (wanted_keys api feeds store sub sub.binding_clusters))
                (contains k (base_keys api feeds existing)) (contains k st.bases_to_be_deleted)
                (store.view w k) (store.view st.world k) _ round.updated round.left
                (deleted.1 (round.keyed (base_keys-IsKeyed existing keyed))))
