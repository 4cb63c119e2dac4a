-- ===== src/Hub/Bases/Store.antt =====
-- What the deployer relies on when it writes Bases: a view of the world by the keys of Bases, which
-- the calls of the client change at one key only. On it, what one syncBase and one deleteBase of
-- pkg/hub/deployer/deployer.go do.
use clusternet.Prelude.{
  String, Bool, true, false, Option, none, some, List, [], ◌∷◌, ◌≡◌, ◌⊎◌, inl, inr, refl, sym, ◌∙◌,
  arith, same_text, same_text_iff, Result, ok, err, Message,
}
use clusternet.Prelude.Int.{ℤ, pos, negsuc}
use clusternet.Hub.Api.{
  Feed, same_number, same_numbers, same_feeds, Failure, Answer, found, failed, not_found, other,
  Base,
}
use clusternet.Hub.Feeds.{FeedApi, remove_labels_from_referred_feeds}
use clusternet.Hub.Feeds.Keeps.{KeptByPatches, remove_labels-keeps}
use clusternet.Hub.Bases.{BaseApi, message_of, unless_gone, updated_base, sync_base, delete_base}

-- A Base that has the feeds, and is not being deleted.
abbrev pub IsSynced : List Feed → Option Base → Type 0
IsSynced feeds v = (b : Base) × (v ≡ some b) × (b.feeds ≡ feeds) × (b.deleting ≡ false)

-- No Base, or one that waits for its finalizers.
abbrev pub IsGone : Option Base → Type 0
IsGone v = (v ≡ none) ⊎ ((b : Base) × (v ≡ some b) × (b.deleting ≡ true))

pub record BaseStore {W : Type 0} (api : BaseApi W) (feeds : FeedApi W) : Type 0 where
  pub view : W → String → Option Base
  pub create_at :
      (b : Base) (w : W)
      → b.deleting ≡ false
      → (api.create b w).0 ≡ none
      → IsSynced b.feeds (view (api.create b w).1 (api.key b.namespace b.name))
  pub update_at :
      (b : Base) (w : W)
      → b.deleting ≡ false
      → (api.update b w).0 ≡ none
      → IsSynced b.feeds (view (api.update b w).1 (api.key b.namespace b.name))
  pub delete_at :
      (ns n : String) (w : W)
      → unless_gone (api.delete ns n w).0 ≡ none
      → IsGone (view (api.delete ns n w).1 (api.key ns n))
  pub create_other :
      (b : Base) (w : W) (k : String)
      → same_text (api.key b.namespace b.name) k ≡ false
      → view (api.create b w).1 k ≡ view w k
  pub update_other :
      (b : Base) (w : W) (k : String)
      → same_text (api.key b.namespace b.name) k ≡ false
      → view (api.update b w).1 k ≡ view w k
  pub delete_other :
      (ns n : String) (w : W) (k : String)
      → same_text (api.key ns n) k ≡ false
      → view (api.delete ns n w).1 k ≡ view w k
  pub patches : (k : String) → KeptByPatches (λ w. view w k) feeds

same_number→≡ : (a b : ℤ) → same_number a b ≡ true → a ≡ b
same_number→≡ (pos a) (pos b) h = ground arith
same_number→≡ (negsuc a) (negsuc b) h = ground arith
same_number→≡ (pos a) (negsuc b) h = cc
same_number→≡ (negsuc a) (pos b) h = cc

same_numbers→≡ : (as_ bs : List ℤ) → same_numbers as_ bs ≡ true → as_ ≡ bs
same_numbers→≡ [] [] h = refl
same_numbers→≡ [] (b ∷ bs) h = cc
same_numbers→≡ (a ∷ as_) [] h = cc
same_numbers→≡ (a ∷ as_) (b ∷ bs) h = ground (arith, same_number→≡ a b, same_numbers→≡ as_ bs)

same_feeds→≡ : (as_ bs : List Feed) → same_feeds as_ bs ≡ true → as_ ≡ bs
same_feeds→≡ [] [] h = refl
same_feeds→≡ [] (b ∷ bs) h = cc
same_feeds→≡ (a ∷ as_) [] h = cc
same_feeds→≡ (a ∷ as_) (b ∷ bs) h = ground (
  arith,
  same_text_iff a.kind b.kind,
  same_text_iff a.api_version b.api_version,
  same_text_iff a.namespace b.namespace,
  same_text_iff a.name b.name,
  same_numbers→≡ a.replicas b.replicas,
  same_feeds→≡ as_ bs,
)

message_of-none : (a : Option Failure) → message_of a ≡ none → a ≡ none
message_of-none none h = refl
message_of-none (some f) h = cc

module _ {W : Type 0} (api : BaseApi W) (feeds : FeedApi W) (store : BaseStore api feeds) where
  -- What deleteBase does at the key of the Base, and at the others.
  abbrev pub Deletes : String → W → W → Type 0
  Deletes k w w' =
      IsGone (store.view w' k)
      × ((j : String) → same_text k j ≡ false → store.view w' j ≡ store.view w j)

  pub delete_base-Deletes :
      (k : String) (w : W)
      → ((ns n : String) → api.split k ≡ ok (ns, n) → api.key ns n ≡ k)
      → (delete_base api feeds k w).0 ≡ none
      → Deletes k w (delete_base api feeds k w).1
  unfolding delete_base
  delete_base-Deletes k w keyed = split (api.split k) refl
    where
      Goal : Type 0
      Goal = (delete_base api feeds k w).0 ≡ none → Deletes k w (delete_base api feeds k w).1

      unlabel :
          (ns n : String) (b : Base) (o : Option Message)
          → api.split k ≡ ok (ns, n)
          → api.get_base ns n ≡ found b
          → (remove_labels_from_referred_feeds feeds b.uid "Base" w).0 ≡ o
          → Goal
      unlabel ns n b (some m) e d c = rw (delete_base, e, d, c) (λ g. cc)
      unlabel ns n b none e d c =
          let v = (remove_labels_from_referred_feeds feeds b.uid "Base" w).1 in
          rw (delete_base, e, d, c, sym (keyed ns n e))
            (λ g. (
              store.delete_at ns n v g,
              λ j g'.
                  store.delete_other ns n v j g'
                  ∙ remove_labels-keeps (λ u. store.view u j) feeds (store.patches j) b.uid "Base"
                      w,
            ))

      get :
          (ns n : String) (a : Answer Base)
          → api.split k ≡ ok (ns, n)
          → api.get_base ns n ≡ a
          → Goal
      get ns n (failed f) e d = rw (delete_base, e, d) (λ g. cc)
      get ns n (found b) e d =
          unlabel ns n b (remove_labels_from_referred_feeds feeds b.uid "Base" w).0 e d refl

      split : (r : Result (String × String)) → api.split k ≡ r → Goal
      split (err m) e = rw (delete_base, e) (λ g. cc)
      split (ok (ns, n)) e = get ns n (api.get_base ns n) e refl

  -- At the key: what the cache said, or already what is asked for.
  abbrev pub IsCurrent : Base → W → Type 0
  IsCurrent base w =
      (cur : Base)
      → api.get_base base.namespace base.name ≡ found cur
      → (store.view w (api.key base.namespace base.name) ≡ some cur)
        ⊎ IsSynced base.feeds (store.view w (api.key base.namespace base.name))

  abbrev pub Syncs : Base → W → W → Type 0
  Syncs base w w' =
      IsSynced base.feeds (store.view w' (api.key base.namespace base.name))
      × ((j : String)
          → same_text (api.key base.namespace base.name) j ≡ false
          → store.view w' j ≡ store.view w j)

  pub sync_base-Syncs :
      (base : Base) (w : W)
      → base.deleting ≡ false
      → ((cur : Base)
          → api.get_base base.namespace base.name ≡ found cur
          → (cur.namespace ≡ base.namespace) × (cur.name ≡ base.name))
      → IsCurrent base w
      → (sync_base api base w).0 ≡ none
      → Syncs base w (sync_base api base w).1
  unfolding sync_base updated_base
  sync_base-Syncs base w fresh same current = get (api.get_base base.namespace base.name) refl
    where
      Goal : Type 0
      Goal = (sync_base api base w).0 ≡ none → Syncs base w (sync_base api base w).1

      update :
          (cur : Base) (b : Bool)
          → api.get_base base.namespace base.name ≡ found cur
          → cur.deleting ≡ false
          → same_feeds cur.feeds base.feeds ≡ b
          → Goal
      update cur true e d c = rw (sync_base, e, d, c) (λ g. (kept (current cur e), λ j g'. refl))
        where
          kept :
              (store.view w (api.key base.namespace base.name) ≡ some cur)
                ⊎ IsSynced base.feeds (store.view w (api.key base.namespace base.name))
              → IsSynced base.feeds (store.view w (api.key base.namespace base.name))
          kept (inl v) = (cur, v, same_feeds→≡ cur.feeds base.feeds c, d)
          kept (inr s) = s
      update cur false e d c =
          rw (sync_base, e, d, c, sym (same cur e).0, sym (same cur e).1)
            (λ g.
              let u = updated_base cur base in
              (store.update_at u w d (message_of-none _ g), λ j g'. store.update_other u w j g'))

      check :
          (cur : Base) (b : Bool)
          → api.get_base base.namespace base.name ≡ found cur
          → cur.deleting ≡ b
          → Goal
      check cur true e d = rw (sync_base, e, d) (λ g. cc)
      check cur false e d = update cur (same_feeds cur.feeds base.feeds) e d refl

      get : (a : Answer Base) → api.get_base base.namespace base.name ≡ a → Goal
      get (found cur) e = check cur cur.deleting e refl
      get (failed (other m)) e = rw (sync_base, e) (λ g. cc)
      get (failed not_found) e =
          rw (sync_base, e)
            (λ g. (
              store.create_at base w fresh (message_of-none _ g),
              λ j g'. store.create_other base w j g',
            ))
