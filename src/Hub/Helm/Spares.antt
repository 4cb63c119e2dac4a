-- ===== src/Hub/Helm/Spares.antt =====
-- What populateHelmRelease of pkg/hub/deployer/helm/helm.go does not delete.
use clusternet.Prelude.{
  String, Bool, false, not, ◌&&◌, ◌||◌, Option, none, some, List, [], ◌∷◌, ◌≡◌, refl, ◌∙◌,
  same_text, contains, Result, ok, err, Message, arith,
}
use clusternet.Utils.Slice.{remove_string}
use clusternet.Hub.Api.{Answer, found, failed, app_finalizer}
use clusternet.Hub.Feeds.{Referent}
use clusternet.Hub.Bases.Keys.{contains-remove_key}
use clusternet.Hub.Descriptions.{Description}
use clusternet.Hub.Helm.{
  Release, HelmApi, delete_helm_release, handle_helm_release, updated_release, sync_helm_release,
  wanted_release, Releasing, release_keys, sync_charts, delete_releases, populate_helm_release,
}

-- A view of the world, such as whether the release of a key is asked to be deleted, that only the
-- deletion at this key changes.
pub record KeptBut {ℓ} {W : Type 0} {O : Type ℓ} (view : W → O) (api : HelmApi W) (k : String)
    : Type ℓ where
  pub create : (r : Release) (w : W) → view (api.create r w).1 ≡ view w
  pub update : (r : Release) (w : W) → view (api.update r w).1 ≡ view w
  pub reconcile : (r : Release) (w : W) → view (api.reconcile r w).1 ≡ view w
  pub delete :
      (j ns n : String) (w : W)
      → api.split j ≡ ok (ns, n)
      → same_text j k ≡ false
      → view (api.delete ns n w).1 ≡ view w

module _ {ℓ} {W : Type 0} {O : Type ℓ} (view : W → O) (api : HelmApi W) (k : String)
    (kept : KeptBut view api k) where
  handle_helm_release-keeps :
      (hr : Release) (w : W) → view (handle_helm_release api hr w).1 ≡ view w
  unfolding handle_helm_release
  handle_helm_release-keeps hr w = ground (
    arith,
    kept.update (record hr { finalizers = remove_string hr.finalizers app_finalizer }) w,
    kept.reconcile hr w,
  )

  sync_helm_release-keeps : (hr : Release) (w : W) → view (sync_helm_release api hr w).1 ≡ view w
  unfolding sync_helm_release
  sync_helm_release-keeps hr w = get (api.get_release w hr.namespace hr.name) refl
    where
      get :
          (a : Answer Release)
          → api.get_release w hr.namespace hr.name ≡ a
          → view (sync_helm_release api hr w).1 ≡ view w
      get (failed f) e = ground (arith, kept.create hr w)
      get (found cur) e = ground (
        arith,
        kept.update (updated_release api cur hr) w,
        kept.update (updated_release api cur (record hr { release_name = none })) w,
        handle_helm_release-keeps cur w,
      )

  delete_helm_release-keeps :
      (j : String) (w : W) → same_text j k ≡ false → view (delete_helm_release api j w).1 ≡ view w
  unfolding delete_helm_release
  delete_helm_release-keeps j w h = split (api.split j) refl
    where
      split :
          (r : Result (String × String))
          → api.split j ≡ r
          → view (delete_helm_release api j w).1 ≡ view w
      split (err m) e = rw (delete_helm_release, e) refl
      split (ok (ns, n)) e = rw (delete_helm_release, e) (kept.delete j ns n w e h)

  delete_releases-keeps :
      (ks : List String) (w : W) (errs : List Message)
      → contains k ks ≡ false
      → view (delete_releases api ks w errs).0 ≡ view w
  unfolding delete_releases
  delete_releases-keeps [] w errs h = refl
  delete_releases-keeps (j ∷ ks) w errs h =
      delete_releases-keeps ks (delete_helm_release api j w).1 _ (ground arith)
      ∙ delete_helm_release-keeps j w (ground arith)

  -- The keys of the releases that a Description wants for charts.
  abbrev pub wanted_keys : Description → List (String × String) → List String
  wanted_keys desc [] = []
  wanted_keys desc (ref ∷ refs) =
      api.key desc.namespace (api.generate_helm_release_name desc.name ref) ∷ wanted_keys desc refs

  sync_charts-keeps :
      (uid : String) (desc : Description) (refs : List (String × String)) (st : Releasing api)
      → view (sync_charts api uid desc refs st).0.world ≡ view st.world
  unfolding sync_charts
  sync_charts-keeps uid desc [] st = refl
  sync_charts-keeps uid desc (ref ∷ refs) st =
      read (api.get_chart st.world ref.0 ref.1) refl (λ st'. sync_charts-keeps uid desc refs st')
    where
      Rest : Type ℓ
      Rest =
          (st' : Releasing api) → view (sync_charts api uid desc refs st').0.world ≡ view st'.world

      read :
          (a : Answer Referent)
          → api.get_chart st.world ref.0 ref.1 ≡ a
          → Rest
          → view (sync_charts api uid desc (ref ∷ refs) st).0.world ≡ view st.world
      read (failed f) e rest = rw (sync_charts, e) refl
      read (found chart) e rest =
          rw (sync_charts, e)
            (rest _ ∙ sync_helm_release-keeps (wanted_release api uid desc ref chart) st.world)

  -- What is left to delete after the last chart: what was there and is not wanted.
  sync_charts-left :
      (uid : String) (desc : Description) (refs : List (String × String)) (st : Releasing api)
      → (sync_charts api uid desc refs st).1 ≡ none
      → contains k (sync_charts api uid desc refs st).0.hrs_to_be_deleted
        ≡ (contains k st.hrs_to_be_deleted && not (contains k (wanted_keys desc refs)))
  unfolding sync_charts wanted_release
  sync_charts-left uid desc [] st = λ h. ground arith
  sync_charts-left uid desc (ref ∷ refs) st =
      read (api.get_chart st.world ref.0 ref.1) refl (λ st'. sync_charts-left uid desc refs st')
    where
      Left : List (String × String) → Releasing api → Type 0
      Left rs st' =
          (sync_charts api uid desc rs st').1 ≡ none
          → contains k (sync_charts api uid desc rs st').0.hrs_to_be_deleted
            ≡ (contains k st'.hrs_to_be_deleted && not (contains k (wanted_keys desc rs)))

      read :
          (a : Answer Referent)
          → api.get_chart st.world ref.0 ref.1 ≡ a
          → ((st' : Releasing api) → Left refs st')
          → Left (ref ∷ refs) st
      read (failed f) e rest = rw (sync_charts, e) (λ h. cc)
      read (found chart) e rest =
          rw (sync_charts, e)
            λ h.
              rest _ h
              ∙ both _ _ _ _ (
                  contains-remove_key
                    (api.key desc.namespace (api.generate_helm_release_name desc.name ref)) k
                    st.hrs_to_be_deleted)
        where
          both : (a b c d : Bool) → a ≡ (b && not (c || false)) → (a && not d) ≡ (b && not (c || d))
          both a b c d e = ground arith

  -- If only the deletion at a key changes a view of the world, populateHelmRelease keeps the view
  -- when the key is not among those of the releases that it listed, or is the key of a release that
  -- the Description wants for one of its charts.
  pub populate_helm_release-spares :
      (type_kind uid : String) (desc : Description) (w : W) (existing : List Release)
      → api.list_releases w type_kind desc.name desc.namespace uid ≡ found existing
      → (contains k (release_keys api existing) && not (contains k (wanted_keys desc desc.charts)))
        ≡ false
      → view (populate_helm_release api type_kind uid desc w).1 ≡ view w
  unfolding populate_helm_release
  populate_helm_release-spares type_kind uid desc w existing e h =
      go (sync_charts api uid desc desc.charts start).1 refl
    where
      start : Releasing api
      start = record { world = w; hrs_to_be_deleted = release_keys api existing; all_errs = [] }

      go :
          (o : Option Message)
          → (sync_charts api uid desc desc.charts (record {
            world = w;
            hrs_to_be_deleted = release_keys api existing;
            all_errs = [];
          })).1
            ≡ o
          → view (populate_helm_release api type_kind uid desc w).1 ≡ view w
      go (some m) d =
          rw (populate_helm_release, e, d) (sync_charts-keeps uid desc desc.charts start)
      go none d =
          let st = (sync_charts api uid desc desc.charts start).0 in
          rw (populate_helm_release, e, d)
            (delete_releases-keeps st.hrs_to_be_deleted st.world st.all_errs
                (sync_charts-left uid desc desc.charts start d ∙ h)
              ∙ sync_charts-keeps uid desc desc.charts start)
