-- ===== src/Hub/Bases/Rounds.antt =====
-- The loops of populateBases of pkg/hub/deployer/deployer.go, at one key.
use mathlib.Core.Path.{subst}
use clusternet.Prelude.{
  String, true, false, Option, none, some, List, [], ◌∷◌, ◌++◌, ◌≡◌, ◌⊎◌, inl, inr, refl, sym, ◌∙◌,
  arith, same_text, same_text_iff, Result, ok, err, Message, All, contains, Bool-cases, ◌&&◌, not,
  named,
}
use clusternet.Hub.Api.{Answer, found, failed, not_found, other, Subscription, Base}
use clusternet.Hub.Feeds.{FeedApi}
use clusternet.Hub.Bases.{
  BaseApi, Populating, wanted_base, sync_base, sync_in, note_error, sync_clusters, delete_base,
  delete_bases,
}
use clusternet.Hub.Bases.Store.{
  IsSynced, IsGone, BaseStore, Deletes, delete_base-Deletes, IsCurrent, Syncs, sync_base-Syncs,
}
use clusternet.Hub.Bases.Keys.{
  IsDeleted, IsUpdated, contains-remove_key, All-remove_key, IsDeleted-or, IsUpdated-at,
  IsUpdated-trans, note_error-none,
}

module _ {W : Type 0} (api : BaseApi W) (feeds : FeedApi W) (store : BaseStore api feeds) where
  -- The keys of the Bases that a Subscription asks for: one for each binding cluster whose key is
  -- well formed and whose namespace exists.
  abbrev pub wanted_keys : Subscription → List String → List String
  wanted_keys sub [] = []
  wanted_keys sub (c ∷ cs) =
      let rest = wanted_keys sub cs in
      elim (api.split c) [
        | err e ↦ rest
        | ok (namespace, _) ↦ elim (api.get_namespace namespace) [
          | found ls ↦ api.key namespace sub.name ∷ rest
          | failed f ↦ rest
        ]
      ]

  -- Every key splits into what it was made of.
  abbrev pub IsKeyed : String → Type 0
  IsKeyed k = (ns n : String) → api.split k ≡ ok (ns, n) → api.key ns n ≡ k

  at_key :
      (j k : String) (w v : W)
      → Deletes api feeds store j w v
      → (same_text j k ≡ true → IsGone (store.view v k))
        × (same_text j k ≡ false → store.view v k ≡ store.view w k)
  at_key j k w v d =
      (λ e. subst (λ i. IsGone (store.view v i)) ((same_text_iff j k).0 e) d.0, λ e. d.1 k e)

  pub delete_bases_lem :
      (k : String) (ks : List String) (w : W) (errs : List Message)
      → (delete_bases api feeds ks w errs).1 ≡ []
      → (errs ≡ [])
        × (All IsKeyed ks
            → IsDeleted
                (contains k ks)
                (store.view w k)
                (store.view (delete_bases api feeds ks w errs).0 k))
  unfolding delete_bases
  delete_bases_lem k [] w errs e = (e, λ h. refl)
  delete_bases_lem k (j ∷ ks) w errs e =
      let answer = delete_base api feeds j w in
      let rest = delete_bases_lem k ks answer.1 (note_error api answer.0 errs) e in
      let no_error = note_error-none api answer.0 errs rest.0 in
      (
        no_error.1,
        λ h.
            let done =
              at_key j k w answer.1 (delete_base-Deletes api feeds store j w h.0 no_error.0) in
            IsDeleted-or (same_text j k) (contains k ks) _ _ _ done.0 done.1 (rest.1 h.1),
      )

  -- The cache of Bases agrees with the world.
  abbrev pub IsInSync : W → Type 0
  IsInSync w =
      (ns n : String) (b : Base)
      → api.get_base ns n ≡ found b
      → (b.namespace ≡ ns) × (b.name ≡ n) × (store.view w (api.key ns n) ≡ some b)

  -- Each key is as it was at first, or has been synced.
  abbrev pub IsHeld : Subscription → W → W → Type 0
  IsHeld sub w0 w =
      (k : String) → (store.view w k ≡ store.view w0 k) ⊎ IsSynced sub.feeds (store.view w k)

  IsHeld-IsCurrent :
      (sub : Subscription) (w0 w : W) (ns : String) (ls : Option (List (String × String)))
      → IsInSync w0
      → IsHeld sub w0 w
      → IsCurrent api feeds store (wanted_base sub ns ls) w
  unfolding wanted_base
  IsHeld-IsCurrent sub w0 w ns ls cached held cur e = elim (held (api.key ns sub.name)) [
    | inl same ↦ inl (same ∙ (cached ns sub.name cur e).2)
    | inr synced ↦ inr synced
  ]

  IsSynced-at :
      (sub : Subscription) (ns : String) (ls : Option (List (String × String))) (w v : W)
      (k : String)
      → Syncs api feeds store (wanted_base sub ns ls) w v
      → (same_text (api.key ns sub.name) k ≡ true → IsSynced sub.feeds (store.view v k))
        × (same_text (api.key ns sub.name) k ≡ false → store.view v k ≡ store.view w k)
  unfolding wanted_base
  IsSynced-at sub ns ls w v k s = (
    λ e. subst (λ i. IsSynced sub.feeds (store.view v i)) ((same_text_iff _ k).0 e) s.0,
    λ e. s.1 k e,
  )

  Syncs-IsHeld :
      (sub : Subscription) (ns : String) (ls : Option (List (String × String))) (w0 w v : W)
      → IsHeld sub w0 w
      → Syncs api feeds store (wanted_base sub ns ls) w v
      → IsHeld sub w0 v
  Syncs-IsHeld sub ns ls w0 w v held s k =
      let at = IsSynced-at sub ns ls w v k s in
      elim (Bool-cases (same_text (api.key ns sub.name) k)) [
        | inl e ↦ inr (at.0 e)
        | inr e ↦ elim (held k) [
          | inl same ↦ inl (at.1 e ∙ same)
          | inr synced ↦ inr (subst (IsSynced sub.feeds) (sym (at.1 e)) synced)
        ]
      ]

  -- What the rounds for some clusters do to the world at a key and to the keys to be deleted.
  pub record IsRound (sub : Subscription) (wanted : List String) (st st' : Populating api)
      (k : String) : Type 0 where
    pub no_errors : st.all_errs ≡ []
    pub updated :
        IsUpdated sub.feeds (contains k wanted) (store.view st.world k) (store.view st'.world k)
    pub left :
        contains k st'.bases_to_be_deleted
        ≡ (contains k st.bases_to_be_deleted && not (contains k wanted))
    pub keyed : All IsKeyed st.bases_to_be_deleted → All IsKeyed st'.bases_to_be_deleted

  sync_in_lem :
      (sub : Subscription) (w0 : W) (ns : String) (ls : Option (List (String × String)))
      (st : Populating api) (k : String)
      → IsInSync w0
      → IsHeld sub w0 st.world
      → (sync_in api sub ns ls st).all_errs ≡ []
      → IsHeld sub w0 (sync_in api sub ns ls st).world
        × IsRound sub (api.key ns sub.name ∷ []) st (sync_in api sub ns ls st) k
  unfolding sync_in wanted_base
  sync_in_lem sub w0 ns ls st k cached held e =
      let base = wanted_base sub ns ls in
      let answer = sync_base api base st.world in
      let no_error = note_error-none api answer.0 st.all_errs e in
      let s =
        sync_base-Syncs api feeds store base st.world refl
          (λ cur g. ((cached ns sub.name cur g).0, (cached ns sub.name cur g).1))
          (IsHeld-IsCurrent sub w0 st.world ns ls cached held) no_error.0 in
      (
        Syncs-IsHeld sub ns ls w0 st.world answer.1 held s,
        record {
          no_errors = no_error.1;
          updated =
              let at = IsSynced-at sub ns ls st.world answer.1 k s in
              IsUpdated-at sub.feeds (same_text (api.key ns sub.name) k) _ (store.view answer.1 k)
                at.0 at.1;
          left = contains-remove_key (api.key ns sub.name) k st.bases_to_be_deleted;
          keyed = All-remove_key IsKeyed (api.key ns sub.name) st.bases_to_be_deleted;
        },
      )

  IsRound-trans :
      (sub : Subscription) (w : String) (wanted : List String) (st st' st'' : Populating api)
      (k : String)
      → IsRound sub (w ∷ []) st st' k
      → IsRound sub wanted st' st'' k
      → IsRound sub (w ∷ wanted) st st'' k
  IsRound-trans sub w wanted st st' st'' k r s = record {
    no_errors = r.no_errors;
    updated =
        IsUpdated-trans sub.feeds (same_text w k) (contains k wanted) _ _ _ r.updated s.updated;
    left = ground (arith, r.left, s.left);
    keyed = λ h. s.keyed (r.keyed h);
  }

  -- After the rounds there is no error only if there was none before; then they did their work.
  abbrev pub IsDone : Subscription → W → List String → Populating api → String → Type 0
  IsDone sub w0 cs st k =
      (sync_clusters api sub cs st).1 ≡ none
      → (sync_clusters api sub cs st).0.all_errs ≡ []
      → (st.all_errs ≡ [])
        × (IsHeld sub w0 st.world
            → IsRound sub (wanted_keys sub cs) st (sync_clusters api sub cs st).0 k)

  pub sync_clusters_lem :
      (sub : Subscription) (w0 : W) (cs : List String) (st : Populating api) (k : String)
      → IsInSync w0
      → IsDone sub w0 cs st k
  unfolding sync_clusters sync_in note_error
  sync_clusters_lem sub w0 [] st k cached = λ e d.
      (d, λ held. record { no_errors = d; updated = refl; left = ground arith; keyed = λ h. h })
  sync_clusters_lem sub w0 (c ∷ cs) st k cached =
      split (api.split c) refl (λ st'. sync_clusters_lem sub w0 cs st' k cached)
    where
      Rest : Type 0
      Rest = (st' : Populating api) → IsDone sub w0 cs st' k

      get :
          (ns x : String) (a : Answer (Option (List (String × String))))
          → api.split c ≡ ok (ns, x)
          → api.get_namespace ns ≡ a
          → Rest
          → IsDone sub w0 (c ∷ cs) st k
      get ns x (failed not_found) e d rest = rw (sync_clusters, wanted_keys, e, d) (rest st)
      get ns x (failed (other m)) e d rest = rw (sync_clusters, wanted_keys, e, d) (λ g. cc)
      get ns x (found ls) e d rest =
          rw (sync_clusters, wanted_keys, e, d)
            (λ g h.
              let st' = sync_in api sub ns ls st in
              let r = rest st' g h in
              let answer = sync_base api (wanted_base sub ns ls) st.world in
              (
                (note_error-none api answer.0 st.all_errs r.0).1,
                λ held.
                    let round = sync_in_lem sub w0 ns ls st k cached held r.0 in
                    IsRound-trans sub (api.key ns sub.name) (wanted_keys sub cs) st st' _ k round.1
                      (r.1 round.0),
              ))

      split : (r : Result (String × String)) → api.split c ≡ r → Rest → IsDone sub w0 (c ∷ cs) st k
      split (err m) e rest =
          rw (sync_clusters, wanted_keys, e)
            (λ g h.
              let m = named "invalid resource key: %s" c in
              let r = rest (record st { all_errs = st.all_errs ++ m ∷ [] }) g h in
              cc ((note_error-none api (some m) st.all_errs r.0).0))
      split (ok (ns, x)) e rest = get ns x (api.get_namespace ns) e refl rest
