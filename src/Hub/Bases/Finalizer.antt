-- ===== src/Hub/Bases/Finalizer.antt =====
-- When handleSubscription of pkg/hub/deployer/deployer.go writes to the Subscription itself.
use clusternet.Prelude.{
  String, Bool, true, false, Option, none, some, List, [], ◌∷◌, ◌≡◌, ◌⊎◌, inl, inr, refl, ◌∙◌,
  Message, Result, ok, err, arith, ◌≢◌,
}
use clusternet.Hub.Api.{Answer, found, failed, not_found, other, Subscription, Base}
use clusternet.Hub.Feeds.{FeedApi, remove_labels_from_referred_feeds}
use clusternet.Hub.Feeds.Keeps.{KeptByPatches, remove_labels-keeps}
use clusternet.Hub.Bases.{
  BaseApi, Populating, sync_base, sync_in, sync_clusters, delete_base, delete_bases,
  delete_all_bases, base_keys, populate_bases, handle_subscription, wanted_base, note_error,
  updated_base,
}

-- A view of the world that calls on Bases and feeds keep, such as the stored Subscriptions.
pub record KeptByBases {ℓ} {W : Type 0} {O : Type ℓ} (view : W → O) (api : BaseApi W)
    (feeds : FeedApi W) : Type ℓ where
  pub create : (b : Base) (w : W) → view (api.create b w).1 ≡ view w
  pub update : (b : Base) (w : W) → view (api.update b w).1 ≡ view w
  pub delete : (ns n : String) (w : W) → view (api.delete ns n w).1 ≡ view w
  pub patches : KeptByPatches view feeds

module _ {ℓ} {W : Type 0} {O : Type ℓ} (view : W → O) (api : BaseApi W) (feeds : FeedApi W)
    (kept : KeptByBases view api feeds) where
  sync_base-keeps : (base : Base) (w : W) → view (sync_base api base w).1 ≡ view w
  unfolding sync_base
  sync_base-keeps base w = get (api.get_base base.namespace base.name) refl
    where
      get :
          (a : Answer Base)
          → api.get_base base.namespace base.name ≡ a
          → view (sync_base api base w).1 ≡ view w
      get (found cur) e = ground (arith, kept.update (updated_base cur base) w)
      get (failed f) e = ground (arith, kept.create base w)

  delete_base-keeps : (k : String) (w : W) → view (delete_base api feeds k w).1 ≡ view w
  unfolding delete_base
  delete_base-keeps k w = split (api.split k) refl
    where
      Goal : Type ℓ
      Goal = view (delete_base api feeds k w).1 ≡ view w

      get :
          (ns n : String) (a : Answer Base)
          → api.split k ≡ ok (ns, n)
          → api.get_base ns n ≡ a
          → Goal
      get ns n (failed f) e d = rw (delete_base, e, d) refl
      get ns n (found b) e d =
          let v = (remove_labels_from_referred_feeds feeds b.uid "Base" w).1 in
          ground
            (arith, kept.delete ns n v, remove_labels-keeps view feeds kept.patches b.uid "Base" w)

      split : (r : Result (String × String)) → api.split k ≡ r → Goal
      split (err m) e = rw (delete_base, e) refl
      split (ok (ns, n)) e = get ns n (api.get_base ns n) e refl

  sync_clusters-keeps :
      (sub : Subscription) (cs : List String) (st : Populating api)
      → view (sync_clusters api sub cs st).0.world ≡ view st.world
  unfolding sync_clusters sync_in
  sync_clusters-keeps sub [] st = refl
  sync_clusters-keeps sub (c ∷ cs) st =
      split (api.split c) refl (λ st'. sync_clusters-keeps sub cs st')
    where
      Rest : Type ℓ
      Rest = (st' : Populating api) → view (sync_clusters api sub cs st').0.world ≡ view st'.world

      Goal : Type ℓ
      Goal = view (sync_clusters api sub (c ∷ cs) st).0.world ≡ view st.world

      get :
          (ns x : String) (a : Answer (Option (List (String × String))))
          → api.split c ≡ ok (ns, x)
          → api.get_namespace ns ≡ a
          → Rest
          → Goal
      get ns x (failed not_found) e d rest = rw (sync_clusters, e, d) (rest st)
      get ns x (failed (other m)) e d rest = rw (sync_clusters, e, d) refl
      get ns x (found ls) e d rest =
          rw (sync_clusters, e, d)
            (rest (sync_in api sub ns ls st) ∙ sync_base-keeps (wanted_base sub ns ls) st.world)

      split : (r : Result (String × String)) → api.split c ≡ r → Rest → Goal
      split (err m) e rest = rw (sync_clusters, e) (rest _)
      split (ok (ns, x)) e rest = get ns x (api.get_namespace ns) e refl rest

  delete_bases-keeps :
      (ks : List String) (w : W) (errs : List Message)
      → view (delete_bases api feeds ks w errs).0 ≡ view w
  unfolding delete_bases
  delete_bases-keeps [] w errs = refl
  delete_bases-keeps (k ∷ ks) w errs =
      let answer = delete_base api feeds k w in
      delete_bases-keeps ks answer.1 (note_error api answer.0 errs) ∙ delete_base-keeps k w

  delete_all_bases-keeps :
      (bs : List Base) (w : W) → view (delete_all_bases api feeds bs w).1 ≡ view w
  unfolding delete_all_bases
  delete_all_bases-keeps [] w = refl
  delete_all_bases-keeps (b ∷ bs) w = ground (
    arith,
    delete_all_bases-keeps bs w,
    delete_all_bases-keeps bs (delete_base api feeds (api.key b.namespace b.name) w).1,
    delete_base-keeps (api.key b.namespace b.name) w,
  )

  populate_bases-keeps :
      (sub : Subscription) (w : W) → view (populate_bases api feeds sub w).1 ≡ view w
  unfolding populate_bases
  populate_bases-keeps sub w = listed (api.list_bases sub) refl
    where
      listed :
          (a : Answer (List Base))
          → api.list_bases sub ≡ a
          → view (populate_bases api feeds sub w).1 ≡ view w
      listed (failed f) e = rw (populate_bases, e) refl
      listed (found existing) e =
          let start : Populating api = record {
            world = w;
            bases_to_be_deleted = base_keys api feeds existing;
            all_errs = [];
          } in
          let synced = sync_clusters api sub sub.binding_clusters start in
          let st = synced.0 in
          ground (
            arith,
            sync_clusters-keeps sub sub.binding_clusters start,
            delete_bases-keeps st.bases_to_be_deleted st.world st.all_errs,
          )

  -- What calls on Bases and feeds leave alone, handleSubscription leaves alone too, unless the
  -- Subscription is being deleted, its list of Bases is empty and the labels that refer to it have
  -- been removed; where a Subscription that is being deleted has to wait for that, an error is
  -- returned.
  pub handle_subscription-waits :
      (sub : Subscription) (w : W)
      → ((view (handle_subscription api feeds sub w).1 ≡ view w)
          × ((sub.deleting ≡ false) ⊎ ((handle_subscription api feeds sub w).0 ≢ none)))
        ⊎ ((sub.deleting ≡ true)
            × (api.list_bases sub ≡ found [])
            × ((remove_labels_from_referred_feeds feeds sub.uid "Subscription" w).0 ≡ none))
  unfolding handle_subscription
  handle_subscription-waits sub w = go sub.deleting refl
    where
      Goal : Type ℓ
      Goal =
          ((view (handle_subscription api feeds sub w).1 ≡ view w)
            × ((sub.deleting ≡ false) ⊎ ((handle_subscription api feeds sub w).0 ≢ none)))
          ⊎ ((sub.deleting ≡ true)
              × (api.list_bases sub ≡ found [])
              × ((remove_labels_from_referred_feeds feeds sub.uid "Subscription" w).0 ≡ none))

      unlabel :
          (o : Option Message)
          → sub.deleting ≡ true
          → api.list_bases sub ≡ found []
          → (remove_labels_from_referred_feeds feeds sub.uid "Subscription" w).0 ≡ o
          → Goal
      unlabel none e d c = inr (e, d, c)
      unlabel (some m) e d c =
          rw (handle_subscription, e, d, c)
            (inl
              (remove_labels-keeps view feeds kept.patches sub.uid "Subscription" w, inr (λ h. cc)))

      list : (a : Answer (List Base)) → sub.deleting ≡ true → api.list_bases sub ≡ a → Goal
      list (failed f) e d = rw (handle_subscription, e, d) (inl (refl, inr (λ h. cc)))
      list (found []) e d =
          unlabel (remove_labels_from_referred_feeds feeds sub.uid "Subscription" w).0 e d refl
      list (found (b ∷ bs)) e d =
          rw (handle_subscription, e, d) (inl (delete_all_bases-keeps (b ∷ bs) w, inr (λ h. cc)))

      go : (b : Bool) → sub.deleting ≡ b → Goal
      go false e = rw (handle_subscription, e) (inl (populate_bases-keeps sub w, inl refl))
      go true e = list (api.list_bases sub) e refl
