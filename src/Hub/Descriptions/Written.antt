-- ===== src/Hub/Descriptions/Written.antt =====
-- What the end of populateDescriptions of pkg/hub/deployer/deployer.go has written when it returns nil.
use clusternet.Prelude.{
  Steps, String, Bool, true, false, Option, none, some, List, [], ◌∷◌, ◌++◌, ◌≡◌, refl, Result, ok,
  err, Message,
}
use clusternet.Hub.Api.{Answer, found, failed, Failure, Base, Feed}
use clusternet.Hub.Bases.{message_of}
use clusternet.Hub.Bases.Keys.{aggregate-none}
use clusternet.Hub.Descriptions.{
  Description, DescriptionApi, same_spec, updated_description, sync_descriptions,
  description_template, Writing, sync_one, delete_description, delete_descriptions,
  write_descriptions,
}

module _ {W : Type 0} (api : DescriptionApi W) where
  -- The Description is in the cache as it is asked for, with its templates overridden, or is written
  -- over the one there, or is created.
  pub data IsWritten (desc : Description) (u : W) : W → Type 0 where
    kept :
        (raw : List String) (cur : Description)
        → api.apply_overrides u desc ≡ ok raw
        → api.get_description u desc.namespace desc.name ≡ found cur
        → cur.deleting ≡ false
        → same_spec cur (record desc { raw = raw }) ≡ true
        → IsWritten desc u u
    updated :
        (raw : List String) (cur new : Description)
        → api.apply_overrides u desc ≡ ok raw
        → api.get_description u desc.namespace desc.name ≡ found cur
        → cur.deleting ≡ false
        → new.deployer ≡ desc.deployer
        → new.charts ≡ desc.charts
        → new.raw ≡ raw
        → (new.namespace ≡ cur.namespace) × (new.name ≡ cur.name)
        → (api.update new (api.prune cur (record desc { raw = raw }) u)).0 ≡ none
        → IsWritten desc u (api.update new (api.prune cur (record desc { raw = raw }) u)).1
    created :
        (raw : List String)
        → api.apply_overrides u desc ≡ ok raw
        → (api.create (record desc { raw = raw }) u).0 ≡ none
        → IsWritten desc u (api.create (record desc { raw = raw }) u).1

  -- The Description of the charts, if there are any.
  abbrev pub helm_part : Base → List (String × String) → List Description
  helm_part base [] = []
  helm_part base (c ∷ cs) =
      record (description_template api base) {
        name = api.helm_name base.name;
        deployer = "Helm";
        charts = c ∷ cs;
      }
      ∷ []

  -- The Description of the templates, if there are any.
  abbrev pub generic_part : Base → List String → List Description
  generic_part base [] = []
  generic_part base (m ∷ ms) =
      record (description_template api base) {
        name = api.generic_name base.name;
        deployer = "Generic";
        raw = m ∷ ms;
      }
      ∷ []

  message_of-none : (f : Option Failure) → message_of f ≡ none → f ≡ none
  message_of-none none h = refl
  message_of-none (some f) h = cc

  sync_descriptions-IsWritten :
      (base : Base) (feed : Feed) (feeds : List Feed) (desc : Description) (w : W)
      → base.feeds ≡ feed ∷ feeds
      → (sync_descriptions api base desc w).0 ≡ none
      → IsWritten desc w (sync_descriptions api base desc w).1
  unfolding sync_descriptions updated_description
  sync_descriptions-IsWritten base feed feeds desc w e = overrides (api.apply_overrides w desc) refl
    where
      same :
          (cur : Description) (raw : List String) (b : Bool)
          → api.apply_overrides w desc ≡ ok raw
          → api.get_description w desc.namespace desc.name ≡ found cur
          → cur.deleting ≡ false
          → same_spec cur (record desc { raw = raw }) ≡ b
          → (sync_descriptions api base desc w).0 ≡ none
          → IsWritten desc w (sync_descriptions api base desc w).1
      same cur raw true a g d s = rw (sync_descriptions, a, e, g, d, s) (λ h. kept raw cur a g d s)
      same cur raw false a g d s =
          rw (sync_descriptions, a, e, g, d, s)
            λ h. updated raw cur _ a g d refl refl refl (refl, refl) (message_of-none _ h)

      alive :
          (cur : Description) (raw : List String) (b : Bool)
          → api.apply_overrides w desc ≡ ok raw
          → api.get_description w desc.namespace desc.name ≡ found cur
          → cur.deleting ≡ b
          → (sync_descriptions api base desc w).0 ≡ none
          → IsWritten desc w (sync_descriptions api base desc w).1
      alive cur raw true a g d = rw (sync_descriptions, a, e, g, d) (λ h. cc)
      alive cur raw false a g d =
          same cur raw (same_spec cur (record desc { raw = raw })) a g d refl

      get :
          (raw : List String) (r : Answer Description)
          → api.apply_overrides w desc ≡ ok raw
          → api.get_description w desc.namespace desc.name ≡ r
          → (sync_descriptions api base desc w).0 ≡ none
          → IsWritten desc w (sync_descriptions api base desc w).1
      get raw (found cur) a g = alive cur raw cur.deleting a g refl
      get raw (failed f) a g =
          rw (sync_descriptions, a, e, g) (λ h. created raw a (message_of-none _ h))

      overrides :
          (r : Result (List String))
          → api.apply_overrides w desc ≡ r
          → (sync_descriptions api base desc w).0 ≡ none
          → IsWritten desc w (sync_descriptions api base desc w).1
      overrides (err m) a = rw (sync_descriptions, a) (λ h. cc)
      overrides (ok raw) a = get raw (api.get_description w desc.namespace desc.name) a refl

  left_nil : (xs ys : List Message) → xs ++ ys ≡ [] → xs ≡ []
  left_nil [] ys h = refl
  left_nil (x ∷ xs) ys h = cc

  delete_descriptions_errs :
      (ks : List String) (w : W) (errs : List Message)
      → (delete_descriptions api ks w errs).1 ≡ []
      → errs ≡ []
  unfolding delete_descriptions
  delete_descriptions_errs [] w errs h = h
  delete_descriptions_errs (k ∷ ks) w errs h =
      left_nil errs _ (delete_descriptions_errs ks (delete_description api k w).1 _ h)

  sync_one-IsWritten :
      (base : Base) (feed : Feed) (feeds : List Feed) (desc : Description) (st : Writing api)
      → base.feeds ≡ feed ∷ feeds
      → (sync_one api base desc st).all_errs ≡ []
      → IsWritten desc st.world (sync_one api base desc st).world × (st.all_errs ≡ [])
  unfolding sync_one
  sync_one-IsWritten base feed feeds desc st e h = (
    sync_descriptions-IsWritten base feed feeds desc st.world e
        (answered (sync_descriptions api base desc st.world).0 st.all_errs h),
    left_nil st.all_errs _ h,
  )
    where
      answered :
          (o : Option Message) (errs : List Message)
          → errs ++ (elim o as (λ _. List Message) [ none ↦ [] | some e ↦ e ∷ [] ]) ≡ []
          → o ≡ none
      answered none errs h = refl
      answered (some m) [] h = cc
      answered (some m) (e ∷ errs) h = cc

  -- The Description of the charts is written, and then that of the templates.
  abbrev pub PartsWritten : Base → List (String × String) → List String → W → Type 0
  PartsWritten base charts raws w =
      (u : W) × (u' : W) × Steps IsWritten (helm_part base charts) w u
      × Steps IsWritten (generic_part base raws) u u'

  pub write_descriptions-PartsWritten :
      (base : Base) (feed : Feed) (feeds : List Feed) (charts : List (String × String))
      (raws : List String) (existing : List Description) (w : W)
      → base.feeds ≡ feed ∷ feeds
      → (write_descriptions api base charts raws existing w).0 ≡ none
      → PartsWritten base charts raws w
  unfolding write_descriptions
  write_descriptions-PartsWritten base feed feeds [] [] existing w e h = (w, w, refl, refl)
  write_descriptions-PartsWritten base feed feeds (c ∷ cs) [] existing w e h =
      let clean = delete_descriptions_errs _ _ _ (aggregate-none _ h) in
      (_, _, (_, (sync_one-IsWritten base feed feeds _ _ e clean).0, refl), refl)
  write_descriptions-PartsWritten base feed feeds [] (m ∷ ms) existing w e h =
      let clean = delete_descriptions_errs _ _ _ (aggregate-none _ h) in
      (_, _, refl, (_, (sync_one-IsWritten base feed feeds _ _ e clean).0, refl))
  write_descriptions-PartsWritten base feed feeds (c ∷ cs) (m ∷ ms) existing w e h =
      let clean = delete_descriptions_errs _ _ _ (aggregate-none _ h) in
      let generic = sync_one-IsWritten base feed feeds _ _ e clean in
      let helm = sync_one-IsWritten base feed feeds _ _ e generic.1 in
      (_, _, (_, helm.0, refl), (_, generic.0, refl))
