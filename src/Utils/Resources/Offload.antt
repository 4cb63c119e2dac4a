-- ===== src/Utils/Resources/Offload.antt =====
-- pkg/utils/deployer.go: when OffloadDescription takes the finalizer of a Description away.
use mathlib.Core.Path.{subst}
use clusternet.Prelude.{
  String, Option, none, some, List, [], ◌∷◌, ◌≡◌, ◌⊎◌, inl, inr, refl, sym, Result, ok, err,
  Message, All, join_all,
}
use clusternet.Utils.Slice.{remove_string}
use clusternet.Hub.Api.{app_finalizer, aggregate}
use clusternet.Utils.Resources.{
  ResourceApi, Backoff, delete_resource_with_retry, offload_each, offload_description,
}
use clusternet.Utils.Resources.Attempts.{IsTrying}
use clusternet.Utils.Resources.Deletion.{DeletionLaws, delete_resource-Gone, delete_resource-stays}

module _ {W R : Type 0} (api : ResourceApi W R) (backoff : Backoff W) (Gone : R → W → Type 0)
    (trying : IsTrying backoff) (laws : DeletionLaws api Gone) where
  offload_each-stays :
      (r : R) (objects : List String) (w : W)
      → Gone r w
      → Gone r (offload_each api backoff objects w).1
  unfolding offload_each
  offload_each-stays r [] w h = h
  offload_each-stays r (o ∷ objects) w h =
      go (api.unmarshal o) refl (λ v. offload_each-stays r objects v)
    where
      go :
          (a : Result R)
          → api.unmarshal o ≡ a
          → ((v : W) → Gone r v → Gone r (offload_each api backoff objects v).1)
          → Gone r (offload_each api backoff (o ∷ objects) w).1
      go (err e) d rest = rw (offload_each, d) (rest w h)
      go (ok s) d rest =
          rw (offload_each, d) (rest _ (delete_resource-stays api backoff Gone trying laws r s w h))

  -- An object that can be read, and whose resource is gone.
  abbrev pub IsOffloaded : W → String → Type 0
  IsOffloaded w object = (r : R) × (api.unmarshal object ≡ ok r) × Gone r w

  offload_each-IsOffloaded :
      (objects : List String) (w : W)
      → (offload_each api backoff objects w).0 ≡ []
      → All (IsOffloaded (offload_each api backoff objects w).1) objects
  unfolding offload_each
  offload_each-IsOffloaded [] w = λ h. tt
  offload_each-IsOffloaded (o ∷ objects) w =
      go (api.unmarshal o) refl (λ v. offload_each-IsOffloaded objects v)
    where
      Goal : Type 0
      Goal =
          (offload_each api backoff (o ∷ objects) w).0 ≡ []
          → All (IsOffloaded (offload_each api backoff (o ∷ objects) w).1) (o ∷ objects)

      Rest : Type 0
      Rest =
          (v : W)
          → (offload_each api backoff objects v).0 ≡ []
          → All (IsOffloaded (offload_each api backoff objects v).1) objects

      delete :
          (s : R) (a : Option Message)
          → api.unmarshal o ≡ ok s
          → (delete_resource_with_retry api backoff s w).0 ≡ a
          → Rest
          → Goal
      delete s (some e) d c rest = rw (offload_each, d, c) (λ h. cc)
      delete s none d c rest =
          let v = (delete_resource_with_retry api backoff s w).1 in
          let same : offload_each api backoff (o ∷ objects) w ≡ offload_each api backoff objects v =
            rw (offload_each, d, c) refl in
          subst (λ (p : List Message × W). p.0 ≡ [] → All (IsOffloaded p.1) (o ∷ objects))
            (sym same)
            (λ h.
              let gone = delete_resource-Gone api backoff Gone trying laws s w c in
              ((s, d, offload_each-stays s objects v gone), rest v h))

      go : (a : Result R) → api.unmarshal o ≡ a → Rest → Goal
      go (err e) d rest = rw (offload_each, d) (λ h. cc)
      go (ok s) d rest = delete s (delete_resource_with_retry api backoff s w).0 d refl rest

  -- If a resource that is deleted or not found is gone and stays so, and a wait with backoff makes
  -- an attempt, OffloadDescription takes the finalizer away only in a world in which every object
  -- of the Description could be read and its resource is gone; otherwise it returns an error and
  -- does not write the Description.
  pub offload_description-IsOffloaded :
      (update : List String → W → Option Message × W) (finalizers objects : List String) (w : W)
      → let v = (offload_each api backoff objects w).1 in
        (All (IsOffloaded v) objects
          × (offload_description api backoff update finalizers objects w
              ≡ update (remove_string finalizers app_finalizer) v))
        ⊎ ((e : Message) × (offload_description api backoff update finalizers objects w
              ≡ (some e, v)))
  unfolding offload_description
  offload_description-IsOffloaded update finalizers objects w =
      go (offload_each api backoff objects w) (offload_each-IsOffloaded objects w)
    where
      go :
          (p : List Message × W)
          → (p.0 ≡ [] → All (IsOffloaded p.1) objects)
          → (All (IsOffloaded p.1) objects
              × ((elim p.0 as (λ _. Option Message × W) [
                | e ∷ es ↦ (aggregate (e ∷ es), p.1)
                | [] ↦ update (remove_string finalizers app_finalizer) p.1
              ])
                  ≡ update (remove_string finalizers app_finalizer) p.1))
            ⊎ ((e : Message) × ((elim p.0 as (λ _. Option Message × W) [
              | e' ∷ es ↦ (aggregate (e' ∷ es), p.1)
              | [] ↦ update (remove_string finalizers app_finalizer) p.1
            ])
                  ≡ (some e, p.1)))
      go ([], v) h = inl (h refl, refl)
      go (e ∷ es, v) h = inr (join_all (e ∷ es), refl)
