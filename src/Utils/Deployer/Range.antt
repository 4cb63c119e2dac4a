-- ===== src/Utils/Deployer/Range.antt =====
-- GetOverrides of pkg/utils/deployer.go: the index of Raw that it reads.
use clusternet.Prelude.{
  ℕ, zero, suc, ◌<◌, String, Bool, true, false, Option, none, some, List, [], ◌∷◌, ◌≡◌, refl,
  length, get_elem?, Result, arith, ltb, leb, ap, ◌∙◌, sym,
}
use clusternet.Hub.Api.{Answer}
use clusternet.Hub.Descriptions.{Description}
use clusternet.Utils.Deployer.{
  ControllerRef, HelmRelease, out_of_range, resolve_controller_ref, index_of, read_values,
  get_overrides,
}

get_elem?-some :
    {A : Type 0} (xs : List A) (i : ℕ) → i < length xs → (x : A) × (get_elem? xs i ≡ some x)
get_elem?-some [] i h = absurd (omega (arith, h))
get_elem?-some (x ∷ xs) zero h = (x, refl)
get_elem?-some (x ∷ xs) (suc i) h = get_elem?-some xs i (omega (arith, h))

module _ (get : String → String → Answer (Description × String)) {V : Type 0}
    (name_of : String → String × String → String) (is_blank : String → Bool)
    (unmarshal : String → Result V) where
  -- A document beyond the end is read only for the index that is the number of documents.
  read_values-out_of_range :
      (desc_name : String) (raw : List String) (i : ℕ)
      → read_values get name_of is_blank unmarshal desc_name raw i ≡ out_of_range
      → i ≡ length raw
  unfolding read_values
  read_values-out_of_range d raw i = go (ltb (length raw) i) (leb (length raw) i) refl refl
    where
      go :
          (a b : Bool)
          → ltb (length raw) i ≡ a
          → leb (length raw) i ≡ b
          → read_values get name_of is_blank unmarshal d raw i ≡ out_of_range
          → i ≡ length raw
      go true b x y = rw (read_values, x) (λ h. cc)
      go false true x y = λ h. ground arith
      go false false x y =
          let elem = get_elem?-some raw i (ground arith) in λ h. ground (arith, elem.1)

  -- A release that is not being deleted, whose controller is a Description with a chart of its name,
  -- the index of the first of which is the number of documents in Raw.
  abbrev pub IsPast : HelmRelease → Type 0
  IsPast hr =
      (ref : ControllerRef) × (desc : Description) × (hr.deleting ≡ false)
      × (hr.controller ≡ some ref)
      × (resolve_controller_ref get hr.namespace ref ≡ some desc)
      × (index_of get name_of is_blank unmarshal desc.name hr.name desc.charts
          ≡ some (length desc.raw))

  -- GetOverrides reads past the end of Raw, which is a panic, only for a release that is not being
  -- deleted, whose controller is a Description with a chart of the name of the release, and where
  -- the index of the first such chart is the number of documents in Raw.
  pub get_overrides-IsPast :
      (hr : HelmRelease)
      → get_overrides get name_of is_blank unmarshal hr ≡ out_of_range
      → IsPast hr
  unfolding get_overrides
  get_overrides-IsPast hr = go hr.deleting hr.controller refl refl
    where
      Goal : Type 0
      Goal = get_overrides get name_of is_blank unmarshal hr ≡ out_of_range → IsPast hr

      index :
          (ref : ControllerRef) (desc : Description) (o : Option ℕ)
          → hr.deleting ≡ false
          → hr.controller ≡ some ref
          → resolve_controller_ref get hr.namespace ref ≡ some desc
          → index_of get name_of is_blank unmarshal desc.name hr.name desc.charts ≡ o
          → Goal
      index ref desc none e d c g = rw (get_overrides, e, d, c, g) (λ h. cc)
      index ref desc (some i) e d c g =
          let same : get_overrides get name_of is_blank unmarshal hr
              ≡ read_values get name_of is_blank unmarshal desc.name desc.raw i =
            rw (get_overrides, e, d, c, g) refl in
          λ h. (
            ref,
            desc,
            e,
            d,
            c,
            g ∙ ap (λ n. some n) (read_values-out_of_range desc.name desc.raw i (sym same ∙ h)),
          )

      resolve :
          (ref : ControllerRef) (o : Option Description)
          → hr.deleting ≡ false
          → hr.controller ≡ some ref
          → resolve_controller_ref get hr.namespace ref ≡ o
          → Goal
      resolve ref none e d c = rw (get_overrides, e, d, c) (λ h. cc)
      resolve ref (some desc) e d c =
          index ref desc (index_of get name_of is_blank unmarshal desc.name hr.name desc.charts) e d
            c refl

      go : (b : Bool) (o : Option ControllerRef) → hr.deleting ≡ b → hr.controller ≡ o → Goal
      go true o e d = rw (get_overrides, e) (λ h. cc)
      go false none e d = rw (get_overrides, e, d) (λ h. cc)
      go false (some ref) e d = resolve ref (resolve_controller_ref get hr.namespace ref) e d refl
