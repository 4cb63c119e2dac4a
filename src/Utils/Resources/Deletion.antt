-- ===== src/Utils/Resources/Deletion.antt =====
-- pkg/utils/deployer.go: DeleteResourceWithRetry leaves nothing behind that it says is gone.
use mathlib.Core.Path.{subst}
use clusternet.Prelude.{Bool, true, false, Option, none, some, ◌≡◌, ◌≢◌, refl, sym, Message}
use clusternet.Hub.Api.{Failure, not_found, other}
use clusternet.Utils.Resources.Keeps.{delete_resource-keeps}
use clusternet.Utils.Resources.Attempts.{IsTrying, backoff_last}
use clusternet.Utils.Resources.{
  ResourceApi, Trying, Backoff, try_delete, with_retry, delete_resource_with_retry,
}

-- What a delete request does: a resource that is deleted, or was not found, is gone, and stays so.
pub record DeletionLaws {W R : Type 0} (api : ResourceApi W R) (Gone : R → W → Type 0)
    : Type 0 where
  pub deleted : (r : R) (w : W) → (api.delete r w).0 ≡ none → Gone r (api.delete r w).1
  pub missing : (r : R) (w : W) → (api.delete r w).0 ≡ some not_found → Gone r (api.delete r w).1
  pub stays : (r s : R) (w : W) → Gone r w → Gone r (api.delete s w).1

module _ {W R : Type 0} (api : ResourceApi W R) (backoff : Backoff W) (Gone : R → W → Type 0)
    (trying : IsTrying backoff) (laws : DeletionLaws api Gone) where
  -- An attempt that ends with true deleted the resource; one that ends with false leaves an error.
  abbrev Tried : R → Bool × Trying W → Type 0
  Tried r (true, st) = Gone r st.world
  Tried r (false, st) = st.last_error ≢ none

  try_delete-Tried : (r : R) (st : Trying W) → Tried r (try_delete api r st)
  unfolding try_delete
  try_delete-Tried r st = map (api.rest_mapping r st.world) refl
    where
      delete :
          (a : Option Failure)
          → api.rest_mapping r st.world ≡ none
          → (api.delete r st.world).0 ≡ a
          → Tried r (try_delete api r st)
      delete none e d = rw (try_delete, e, d) (laws.deleted r st.world d)
      delete (some not_found) e d = rw (try_delete, e, d) (laws.missing r st.world d)
      delete (some (other m)) e d = rw (try_delete, e, d) (λ h. cc)

      map : (o : Option Message) → api.rest_mapping r st.world ≡ o → Tried r (try_delete api r st)
      map (some m) e = rw (try_delete, e) (λ h. cc)
      map none e = delete (api.delete r st.world).0 e refl

  answered :
      (r : R) (p : Bool × Trying W)
      → Tried r p
      → (elim p.0 as (λ _. Option Message) [ true ↦ none | false ↦ p.1.last_error ]) ≡ none
      → Gone r p.1.world
  answered r (true, st) h e = h
  answered r (false, st) h e = absurd (h e)

  -- DeleteResourceWithRetry returns nil only for a resource that is gone.
  pub delete_resource-Gone :
      (r : R) (w : W)
      → (delete_resource_with_retry api backoff r w).0 ≡ none
      → Gone r (delete_resource_with_retry api backoff r w).1
  unfolding delete_resource_with_retry with_retry
  delete_resource-Gone r w h =
      let start : Trying W = record { world = w; last_error = none } in
      let last = backoff_last backoff trying (try_delete api r) start in
      answered r (backoff (try_delete api r) start)
        (subst (Tried r) (sym last.1) (try_delete-Tried r last.0)) h

  pub delete_resource-stays :
      (r s : R) (w : W) → Gone r w → Gone r (delete_resource_with_retry api backoff s w).1
  delete_resource-stays r s w h =
      delete_resource-keeps api backoff trying (Gone r) s (λ v k. laws.stays r s v k) w h
