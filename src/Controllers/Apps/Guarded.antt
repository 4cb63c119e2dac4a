-- ===== src/Controllers/Apps/Guarded.antt =====
-- The sync handlers of pkg/controllers/apps hand over objects with the finalizer, except after a
-- write that failed.
use clusternet.Prelude.{
  String, Bool, true, false, not, ◌&&◌, Option, none, some, List, [], ◌∷◌, ◌≡◌, inl, inr, refl, sym,
  ap, ◌∙◌, find, same_text, Result, ok, err, ok_inj, Message, try_value, arith, pair_of,
}
use clusternet.Utils.Slice.{contains_string}
use clusternet.Hub.Api.{found, app_finalizer}
use clusternet.Controllers.Work.{
  typed, Object, Store, inject_finalizer, patch_labels, label_self, of_key, process_next_work_item,
  text_item, requeue, forgotten, Call,
}
use clusternet.Controllers.Work.Finalized.{
  IsReady, WritesFinalizers, finalized, inject_finalizer-guards, of_key-same, IsShared, LeavesCache,
  contains_string-last,
}
use clusternet.Controllers.Apps.Subscriptions.{SubscriptionBody, sync_subscription}
use mathlib.Core.Path.{subst}
use clusternet.Controllers.Apps.Descriptions.{sync_description}

module _ {W S : Type 0} (store : Store W S) where
  -- A patch of labels leaves the finalizers.
  abbrev pub PatchesLabels : Type 0
  PatchesLabels =
      (o o' : Object S) (labels : List (String × String)) (w : W)
      → (store.patch o labels w).0 ≡ ok o'
      → o'.finalizers ≡ o.finalizers

  patch_labels-IsReady :
      (o o' : Object S) (labels : List (String × String)) (w : W)
      → PatchesLabels
      → IsReady o
      → (patch_labels store o labels w).0 ≡ ok o'
      → IsReady o'
  unfolding patch_labels
  patch_labels-IsReady o o' [] w patches ready h = subst IsReady (ok_inj h) ready
  patch_labels-IsReady o o' (l ∷ labels) w patches ready h = go o.deleting refl ready h
    where
      go :
          (b : Bool)
          → o.deleting ≡ b
          → IsReady o
          → (patch_labels store o (l ∷ labels) w).0 ≡ ok o'
          → IsReady o'
      go true e r = rw (patch_labels, e) (λ h. subst IsReady (ok_inj h) (inl e))
      go false e (inl d) = absurd (ground (arith, d, e))
      go false e (inr f) =
          rw (patch_labels, e)
            λ h. inr (ap (λ x. contains_string x app_finalizer) (patches o o' _ w h) ∙ f)

  label_self-IsReady :
      (kind : String) (o o' : Object S) (w : W)
      → PatchesLabels
      → IsReady o
      → (label_self store kind o w).0 ≡ ok o'
      → IsReady o'
  unfolding label_self
  label_self-IsReady kind o o' w patches ready = go (find o.uid o.labels) refl
    where
      Goal : Type 0
      Goal = (label_self store kind o w).0 ≡ ok o' → IsReady o'

      kept : (v : String) (b : Bool) → find o.uid o.labels ≡ some v → same_text v kind ≡ b → Goal
      kept v true e d = rw (label_self, e, d) (λ h. subst IsReady (ok_inj h) ready)
      kept v false e d =
          rw (label_self, e, d) (patch_labels-IsReady o o' ((o.uid, kind) ∷ []) w patches ready)

      go : (f : Option String) → find o.uid o.labels ≡ f → Goal
      go none e =
          rw (label_self, e) (patch_labels-IsReady o o' ((o.uid, kind) ∷ []) w patches ready)
      go (some v) e = kept v (same_text v kind) e refl

-- A Subscription reaches the handler with the finalizer, or while it is being deleted: two handlers
-- that do the same to such Subscriptions make the same sync handler, if a write and a patch of
-- labels answer with the finalizers that were there.
pub sync_subscription-guards :
    {W : Type 0} (store : Store W SubscriptionBody) (split : String → Result (String × String))
    (h h' : Object SubscriptionBody → W → Option Message × W) (key : String) (w : W)
    → WritesFinalizers store
    → PatchesLabels store
    → ((o : Object SubscriptionBody) (w : W) → IsReady o → h o w ≡ h' o w)
    → sync_subscription store split h key w ≡ sync_subscription store split h' key w
unfolding sync_subscription
sync_subscription-guards {W} store split h h' key w writes patches same =
    of_key-same store split _ _ key w λ o.
      inject_finalizer-guards store (labelled h) (labelled h') o w writes λ o' w' ready.
        go (label_self store "Subscription" o' w')
          (λ o'' e. label_self-IsReady store "Subscription" o' o'' w' patches ready e)
  where
    labelled :
        (Object SubscriptionBody → W → Option Message × W)
        → Object SubscriptionBody
        → W
        → Option Message × W
    labelled k o w =
        try_value (label_self store "Subscription" o w) λ o' w'. k (typed "Subscription" o') w'

    go :
        (r : Result (Object SubscriptionBody) × W)
        → ((o : Object SubscriptionBody) → r.0 ≡ ok o → IsReady o)
        → try_value r (λ o w. h (typed "Subscription" o) w)
          ≡ try_value r (λ o w. h' (typed "Subscription" o) w)
    go (err e, w') ready = refl
    go (ok o, w') ready = same (typed "Subscription" o) w' (ready o refl)

module _ {W S : Type 0} (store : Store W S) (split : String → Result (String × String))
    (handler : Object S → W → Option Message × W) where
  ready_skips :
      (o : Object S) (w : W)
      → contains_string o.finalizers app_finalizer ≡ true
      → inject_finalizer store o w ≡ (ok o, w)
  unfolding inject_finalizer
  ready_skips o w h = rw (inject_finalizer, h) refl

  syncs :
      (key : String) (o : Object S) (w w' : W) (r : Result (Object S))
      → split key ≡ ok (o.namespace, o.name)
      → store.get w o.namespace o.name ≡ found o
      → inject_finalizer store o w ≡ (r, w')
      → sync_description store split handler key w
        ≡ try_value (r, w') (λ desc1 w1. handler (typed "Description" desc1) w1)
  unfolding sync_description of_key
  syncs key o w w' r parsed cached e = rw (sync_description, of_key, parsed, cached, e) refl

  first_fails :
      (o : Object S) (w : W) (e : Message)
      → contains_string o.finalizers app_finalizer ≡ false
      → o.deleting ≡ false
      → (store.update (finalized store o) (store.share (finalized store o) w)).0 ≡ err e
      → inject_finalizer store o w
        ≡ (err e, (store.update (finalized store o) (store.share (finalized store o) w)).1)
  unfolding inject_finalizer
  first_fails o w e lacks alive fails =
      let needed : (not (contains_string o.finalizers app_finalizer) && not o.deleting) ≡ true =
        needs lacks alive in
      rw (inject_finalizer, needed) (pair_of _ fails)
    where
      needs : {a b : Bool} → a ≡ false → b ≡ false → (not a && not b) ≡ true
      needs h h' = rw (h, h') refl

  requeues :
      (key : String) (w w' : W) (e : Message)
      → sync_description store split handler key w ≡ (some e, w')
      → process_next_work_item (sync_description store split handler) (text_item key) w
        ≡ (requeue key, w')
  unfolding process_next_work_item
  requeues key w w' e h =
      ap
        (λ p. elim p.0 as (λ _. Call × W) [
          | some m ↦ (requeue key, p.1)
          | none ↦ (forgotten (text_item key), p.1)
        ])
        h

  -- If the cache returns the object that was changed through its pointer, and a write that fails
  -- leaves the cache, then after the write of the finalizer to a Description failed, its key is
  -- queued again, and the next time the handler gets the Description with the finalizer set, which
  -- was never written.
  pub sync_description-skips :
      (key : String) (o : Object S) (w : W) (e : Message)
      → IsShared store
      → LeavesCache store
      → split key ≡ ok (o.namespace, o.name)
      → store.get w o.namespace o.name ≡ found o
      → contains_string o.finalizers app_finalizer ≡ false
      → o.deleting ≡ false
      → (store.update (finalized store o) (store.share (finalized store o) w)).0 ≡ err e
      → let first : Call × W =
          process_next_work_item (sync_description store split handler) (text_item key) w in
        (first.0 ≡ requeue key)
        × (sync_description store split handler key first.1
            ≡ handler (typed "Description" (finalized store o)) first.1)
  sync_description-skips key o w e shared leaves parsed cached lacks alive fails =
      let first = syncs key o w _ (err e) parsed cached (first_fails o w e lacks alive fails) in
      let cached' =
        leaves (finalized store o) _ o.namespace o.name e fails ∙ shared (finalized store o) w in
      let called = requeues key w _ e first in
      subst
        (λ (q : Call × W).
          (q.0 ≡ requeue key)
          × (sync_description store split handler key q.1
              ≡ handler (typed "Description" (finalized store o)) q.1))
        (sym called)
        (
          refl,
          syncs key (finalized store o) _ _ (ok (finalized store o)) parsed cached'
              (ready_skips (finalized store o) _ (contains_string-last o.finalizers app_finalizer)),
        )
