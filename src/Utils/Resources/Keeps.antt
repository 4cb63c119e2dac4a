-- ===== src/Utils/Resources/Keeps.antt =====
-- What deletions of pkg/utils/deployer.go leave alone, however often they are tried.
use mathlib.Core.Path.{subst}
use clusternet.Prelude.{
  ℕ, zero, suc, Bool, true, false, Option, none, some, ◌≡◌, refl, sym, Message,
}
use clusternet.Hub.Api.{Failure, not_found, other}
use clusternet.Utils.Resources.{
  ResourceApi, Trying, Backoff, try_delete, with_retry, delete_resource_with_retry,
}
use clusternet.Utils.Resources.Attempts.{attempts, IsTrying}

module _ {W R : Type 0} (api : ResourceApi W R) (backoff : Backoff W) (trying : IsTrying backoff)
    (Q : W → Type 0) (s : R) (kept : (w : W) → Q w → Q (api.delete s w).1) where
  try_delete-keeps : (st : Trying W) → Q st.world → Q (try_delete api s st).1.world
  unfolding try_delete
  try_delete-keeps st h = map (api.rest_mapping s st.world) refl
    where
      delete :
          (a : Option Failure)
          → api.rest_mapping s st.world ≡ none
          → (api.delete s st.world).0 ≡ a
          → Q (try_delete api s st).1.world
      delete none e d = rw (try_delete, e, d) (kept st.world h)
      delete (some not_found) e d = rw (try_delete, e, d) (kept st.world h)
      delete (some (other m)) e d = rw (try_delete, e, d) (kept st.world h)

      map : (o : Option Message) → api.rest_mapping s st.world ≡ o → Q (try_delete api s st).1.world
      map (some m) e = rw (try_delete, e) h
      map none e = delete (api.delete s st.world).0 e refl

  attempts-keeps :
      (n : ℕ) (st : Trying W) → Q st.world → Q (attempts n (try_delete api s) st).1.world
  unfolding attempts
  attempts-keeps zero st h = h
  attempts-keeps (suc n) st h = go (try_delete api s st) (try_delete-keeps st h) (attempts-keeps n)
    where
      go :
          (p : Bool × Trying W)
          → Q p.1.world
          → ((st' : Trying W) → Q st'.world → Q (attempts n (try_delete api s) st').1.world)
          → Q
              (elim p.0 as (λ _. Bool × Trying W) [
                | true ↦ (true, p.1)
                | false ↦ attempts n (try_delete api s) p.1
              ]).1.world
      go (true, st') k rest = k
      go (false, st') k rest = rest st' k

  pub delete_resource-keeps : (w : W) → Q w → Q (delete_resource_with_retry api backoff s w).1
  unfolding delete_resource_with_retry with_retry
  delete_resource-keeps w h =
      let start : Trying W = record { world = w; last_error = none } in
      let tried = trying (try_delete api s) start in
      subst (λ (p : Bool × Trying W). Q p.1.world) (sym tried.1)
        (attempts-keeps (suc tried.0) start h)
