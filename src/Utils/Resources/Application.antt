-- ===== src/Utils/Resources/Application.antt =====
-- pkg/utils/deployer.go: what ApplyResourceWithRetry leaves when it returns nil.
use mathlib.Core.Path.{subst}
use clusternet.Prelude.{
  Bool, true, false, Option, none, some, List, ◌≡◌, ◌≢◌, ◌⊎◌, inl, inr, refl, sym, Result, ok, err,
  Message, All, if◌then◌else◌, same_text, [], ◌∷◌,
}
use clusternet.Utils.Slice.{contains_string}
use clusternet.Utils.Resources.{
  ResourceApi, Trying, Backoff, Trouble, trouble, already_exists, Cause, Operation,
  fields_to_be_ignored, needs_sync, resource_need_resync, apply_immutable, try_update, try_apply,
  with_retry, apply_resource_with_retry,
}
use clusternet.Utils.Resources.Attempts.{IsTrying, backoff_last}

module _ {W R : Type 0} (api : ResourceApi W R) (backoff : Backoff W)
    (trying : IsTrying backoff) where
  -- An operation of a JSON patch that only adds, moves or tests, or is at a path that is ignored.
  abbrev pub IsHarmless : Operation → Type 0
  IsHarmless op =
      (contains_string fields_to_be_ignored op.path ≡ true)
      ⊎ ((same_text op.operation "remove" ≡ false) × (same_text op.operation "replace" ≡ false))

  -- The resource was created in this world, or written over the one that was there, perhaps with
  -- immutable values of it, or the patch that leads to it removes and replaces nothing, or no such
  -- patch could be made.
  pub data IsApplied (r : R) : W → Type 0 where
    created : (w : W) → (api.create r w).0 ≡ none → IsApplied r (api.create r w).1
    updated : (w : W) → (api.update r w).0 ≡ none → IsApplied r (api.update r w).1
    merged :
        (cur : R) (causes : List Cause) (w : W)
        → (api.update (apply_immutable api cur causes r) w).0 ≡ none
        → IsApplied r (api.update (apply_immutable api cur causes r) w).1
    in_sync :
        (cur : R) (w : W)
        → api.get r w ≡ ok cur
        → (patch : List Operation) → api.create_patch cur r ≡ ok patch
        → All IsHarmless patch
        → IsApplied r w
    unpatched :
        (cur : R) (e : Message) (w : W)
        → api.get r w ≡ ok cur
        → api.create_patch cur r ≡ err e
        → IsApplied r w

  All-IsHarmless : (ops : List Operation) → needs_sync ops ≡ false → All IsHarmless ops
  unfolding needs_sync
  All-IsHarmless [] = λ h. tt
  All-IsHarmless (op ∷ ops) =
      go (contains_string fields_to_be_ignored op.path) (same_text op.operation "remove")
        (same_text op.operation "replace") refl refl refl (All-IsHarmless ops)
    where
      go :
          (a b c : Bool)
          → contains_string fields_to_be_ignored op.path ≡ a
          → same_text op.operation "remove" ≡ b
          → same_text op.operation "replace" ≡ c
          → (needs_sync ops ≡ false → All IsHarmless ops)
          → (if a then needs_sync ops else if b then true else if c then true else needs_sync ops)
            ≡ false
          → All IsHarmless (op ∷ ops)
      go true b c x y z rest h = (inl x, rest h)
      go false true c x y z rest h = cc
      go false false true x y z rest h = cc
      go false false false x y z rest h = (inr (y, z), rest h)

  in_sync-IsApplied :
      (r cur : R) (w : W)
      → api.get r w ≡ ok cur
      → resource_need_resync api cur r ≡ false
      → IsApplied r w
  unfolding resource_need_resync
  in_sync-IsApplied r cur w g = go (api.create_patch cur r) refl
    where
      go :
          (p : Result (List Operation))
          → api.create_patch cur r ≡ p
          → resource_need_resync api cur r ≡ false
          → IsApplied r w
      go (err e) d = λ h. unpatched cur e w g d
      go (ok patch) d =
          rw (resource_need_resync, d) (λ h. in_sync cur w g patch d (All-IsHarmless patch h))

  abbrev Tried : R → Bool × Trying W → Type 0
  Tried r (true, st) = IsApplied r st.world
  Tried r (false, st) = (st.last_error ≢ none) ⊎ IsApplied r st.world

  try_update-Tried : (r cur : R) (w : W) → Tried r (try_update api cur r w)
  unfolding try_update
  try_update-Tried r cur w = first (api.update r w).0 refl
    where
      second :
          (m : Message) (causes : List Cause) (a : Option Message)
          → (api.update r w).0 ≡ some m
          → api.status_cause m ≡ some causes
          → (api.update (apply_immutable api cur causes r) (api.update r w).1).0 ≡ a
          → Tried r (try_update api cur r w)
      second m causes none e d c = rw (try_update, e, d, c) (merged cur causes (api.update r w).1 c)
      second m causes (some m') e d c = rw (try_update, e, d, c) (inl (λ h. cc))

      cause :
          (m : Message) (o : Option (List Cause))
          → (api.update r w).0 ≡ some m
          → api.status_cause m ≡ o
          → Tried r (try_update api cur r w)
      cause m none e d = rw (try_update, e, d) (inl (λ h. cc))
      cause m (some causes) e d = second m causes _ e d refl

      first : (a : Option Message) → (api.update r w).0 ≡ a → Tried r (try_update api cur r w)
      first none e = rw (try_update, e) (updated w e)
      first (some m) e = cause m (api.status_cause m) e refl

  try_apply-Tried : (r : R) (st : Trying W) → Tried r (try_apply api r st)
  unfolding try_apply
  try_apply-Tried r st = map (api.rest_mapping r st.world) refl
    where
      v : W
      v = (api.create r st.world).1

      sync :
          (cur : R) (b : Bool)
          → api.rest_mapping r st.world ≡ none
          → (api.create r st.world).0 ≡ some already_exists
          → api.get r (api.create r st.world).1 ≡ ok cur
          → resource_need_resync api cur r ≡ b
          → Tried r (try_apply api r st)
      sync cur true e d c g =
          rw (try_apply, e, d, c, g) (try_update-Tried r cur (api.create r st.world).1)
      sync cur false e d c g =
          rw (try_apply, e, d, c, g) (inr (in_sync-IsApplied r cur (api.create r st.world).1 c g))

      get :
          (a : Result R)
          → api.rest_mapping r st.world ≡ none
          → (api.create r st.world).0 ≡ some already_exists
          → api.get r (api.create r st.world).1 ≡ a
          → Tried r (try_apply api r st)
      get (err m) e d c = rw (try_apply, e, d, c) (inl (λ h. cc))
      get (ok cur) e d c = sync cur (resource_need_resync api cur r) e d c refl

      create :
          (a : Option Trouble)
          → api.rest_mapping r st.world ≡ none
          → (api.create r st.world).0 ≡ a
          → Tried r (try_apply api r st)
      create none e d = rw (try_apply, e, d) (created st.world d)
      create (some (trouble m)) e d = rw (try_apply, e, d) (inl (λ h. cc))
      create (some already_exists) e d = get (api.get r (api.create r st.world).1) e d refl

      map : (o : Option Message) → api.rest_mapping r st.world ≡ o → Tried r (try_apply api r st)
      map (some m) e = rw (try_apply, e) (inl (λ h. cc))
      map none e = create (api.create r st.world).0 e refl

  answered :
      (r : R) (p : Bool × Trying W)
      → Tried r p
      → (elim p.0 as (λ _. Option Message) [ true ↦ none | false ↦ p.1.last_error ]) ≡ none
      → IsApplied r p.1.world
  answered r (true, st) h e = h
  answered r (false, st) (inl h) e = absurd (h e)
  answered r (false, st) (inr h) e = h

  -- If a wait with backoff makes an attempt, ApplyResourceWithRetry returns nil only if the
  -- resource was created or written, or is there and the JSON patch to the one asked for removes
  -- and replaces nothing but ignored fields, or could not be made.
  pub apply_resource-IsApplied :
      (r : R) (w : W)
      → (apply_resource_with_retry api backoff r w).0 ≡ none
      → IsApplied (api.clear_uid r) (apply_resource_with_retry api backoff r w).1
  unfolding apply_resource_with_retry with_retry
  apply_resource-IsApplied r w h =
      let start : Trying W = record { world = w; last_error = none } in
      let last = backoff_last backoff trying (try_apply api (api.clear_uid r)) start in
      answered (api.clear_uid r) (backoff (try_apply api (api.clear_uid r)) start)
        (subst (Tried (api.clear_uid r)) (sym last.1) (try_apply-Tried (api.clear_uid r) last.0)) h
