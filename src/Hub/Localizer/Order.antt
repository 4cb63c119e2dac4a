-- ===== src/Hub/Localizer/Order.antt =====
-- The order in which pkg/hub/localizer applies overrides.
use clusternet.Prelude.{
  String, Bool, true, false, not, List, [], ◌∷◌, ◌++◌, ◌≡◌, refl, ap, Result, ok, err, ◌>>=◌, All,
  select, arith, if◌then◌else◌, if-both,
}
use clusternet.Prelude.Int.{◌≤ℤ◌}
use clusternet.Hub.Api.{Feed, found}
use clusternet.Hub.Localizer.{
  OverrideConfig, Policy, PatchLibrary, apply_override, apply_overrides, is_before, overrides_of,
  LocalizerApi, uid_of, get_overrides,
}

-- Overrides of two lists, one behind the other, are applied as the first list, and then the second
-- to what that gives.
pub apply_overrides-append :
    {P V : Type 0} (lib : PatchLibrary P V) (result : String) (as_ bs : List OverrideConfig)
    → apply_overrides lib result (as_ ++ bs)
      ≡ (apply_overrides lib result as_ >>= λ r. apply_overrides lib r bs)
unfolding apply_overrides
apply_overrides-append lib result [] bs = refl
apply_overrides-append lib result (c ∷ as_) bs =
    blank (lib.is_blank c.value) refl (λ r. apply_overrides-append lib r as_ bs)
  where
    Rest : Type 0
    Rest =
        (r : String)
        → apply_overrides lib r (as_ ++ bs)
          ≡ (apply_overrides lib r as_ >>= λ r'. apply_overrides lib r' bs)

    Goal : Type 0
    Goal =
        apply_overrides lib result (c ∷ as_ ++ bs)
        ≡ (apply_overrides lib result (c ∷ as_) >>= λ r. apply_overrides lib r bs)

    apply :
        (o : String) (r : Result String)
        → lib.is_blank c.value ≡ false
        → lib.yaml_to_json c.value ≡ ok o
        → apply_override lib c result o ≡ r
        → Rest
        → Goal
    apply o (err m) e d g rest = rw (apply_overrides, e, d, g) refl
    apply o (ok r) e d g rest = rw (apply_overrides, e, d, g) (rest r)

    convert :
        (r : Result String)
        → lib.is_blank c.value ≡ false
        → lib.yaml_to_json c.value ≡ r
        → Rest
        → Goal
    convert (err m) e d rest = rw (apply_overrides, e, d) refl
    convert (ok o) e d rest = apply o (apply_override lib c result o) e d refl rest

    blank : (b : Bool) → lib.is_blank c.value ≡ b → Rest → Goal
    blank true e rest = rw (apply_overrides, e) (rest result)
    blank false e rest = convert (lib.yaml_to_json c.value) e refl rest

-- No policy comes behind one with a higher priority.
abbrev pub IsPrioritized : List Policy → Type 0
IsPrioritized [] = Unit
IsPrioritized (p ∷ ps) = All (λ (q : Policy). p.priority ≤ℤ q.priority) ps × IsPrioritized ps

-- Nothing comes behind something that it is before.
abbrev pub IsSorted : (Policy → Policy → Bool) → List Policy → Type 0
IsSorted less [] = Unit
IsSorted less (p ∷ ps) = All (λ (q : Policy). less q p ≡ false) ps × IsSorted less ps

-- The policies that are not being deleted, and their overrides.
abbrev pub live : List Policy → List Policy
live ps = select (λ p. not p.deleting) ps

abbrev pub joined : List Policy → List OverrideConfig
joined [] = []
joined (p ∷ ps) = p.overrides ++ joined ps

overrides_of-joined : (ps : List Policy) → overrides_of ps ≡ joined (live ps)
unfolding overrides_of
overrides_of-joined [] = refl
overrides_of-joined (p ∷ ps) = go p.deleting (overrides_of-joined ps)
  where
    go :
        (b : Bool)
        → overrides_of ps ≡ joined (live ps)
        → (if b then overrides_of ps else p.overrides ++ overrides_of ps)
          ≡ joined (if not b then p ∷ live ps else live ps)
    go true e = e
    go false e = ap (λ (os : List OverrideConfig). p.overrides ++ os) e

is_before-priority : (p q : Policy) → is_before q p ≡ false → p.priority ≤ℤ q.priority
unfolding is_before
is_before-priority p q h = ground arith

All-live :
    (p : Policy) (ps : List Policy)
    → All (λ (q : Policy). is_before q p ≡ false) ps
    → All (λ (q : Policy). p.priority ≤ℤ q.priority) (live ps)
All-live p [] h = tt
All-live p (q ∷ ps) h =
    if-both (All (λ (r : Policy). p.priority ≤ℤ r.priority)) (not q.deleting) (q ∷ live ps)
      (live ps) (λ _. (is_before-priority p q h.0, All-live p ps h.1)) (λ _. All-live p ps h.1)

live-IsPrioritized : (ps : List Policy) → IsSorted is_before ps → IsPrioritized (live ps)
live-IsPrioritized [] h = tt
live-IsPrioritized (p ∷ ps) h =
    if-both IsPrioritized (not p.deleting) (p ∷ live ps) (live ps)
      (λ _. (All-live p ps h.0, live-IsPrioritized ps h.1)) (λ _. live-IsPrioritized ps h.1)

module _ (api : LocalizerApi) where
  -- If the sort leaves nothing behind what it is before, getOverrides returns the overrides of the
  -- Globalizations and then those of the Localizations that are not being deleted, each by
  -- ascending priority.
  pub get_overrides-IsPrioritized :
      (namespace uid : String) (feed : Feed) (globs locs : List Policy)
      → ((ps : List Policy) → IsSorted is_before (api.sort_stable is_before ps))
      → uid_of api feed ≡ found uid
      → api.list_globalizations uid feed.kind ≡ found globs
      → api.list_localizations namespace uid feed.kind ≡ found locs
      → (get_overrides api namespace feed
          ≡ found (
              joined (live (api.sort_stable is_before globs))
              ++ joined (live (api.sort_stable is_before locs))))
        × IsPrioritized (live (api.sort_stable is_before globs))
        × IsPrioritized (live (api.sort_stable is_before locs))
  unfolding get_overrides
  get_overrides-IsPrioritized namespace uid feed globs locs sorts e d g = (
    rw
        (
          get_overrides,
          e,
          d,
          g,
          overrides_of-joined (api.sort_stable is_before globs),
          overrides_of-joined (api.sort_stable is_before locs),
        )
        refl,
    live-IsPrioritized _ (sorts globs),
    live-IsPrioritized _ (sorts locs),
  )
