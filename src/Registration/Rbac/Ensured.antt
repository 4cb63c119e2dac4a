-- ===== src/Registration/Rbac/Ensured.antt =====
-- What pkg/utils/rbac.go leaves in the cluster when it reports no error.
use clusternet.Prelude.{
  String, Bool, true, false, Option, none, some, ◌≡◌, ◌⊎◌, inl, inr, refl, sym, ap, ◌∙◌, Result, ok,
  err, Message,
}
use clusternet.Utils.Resources.{Trouble, already_exists, trouble, Trying, Backoff}
use clusternet.Utils.Resources.Attempts.{IsTrying, backoff_last}
use clusternet.Registration.{Meta}
use mathlib.Core.Path.{subst}
use clusternet.Registration.Rbac.{Client, may_auto_update, try_ensure, ensure, ensure_failed}

module _ {W O : Type 0} (client : Client W O) (meta_of : O → Meta) where
  abbrev pub Keeps : (O → W → W) → (O → W → Type 0) → Type 0
  Keeps write IsNil =
      (o : O) (w : W)
      → IsNil o w
      → client.get (write o w) (meta_of o).namespace (meta_of o).name ≡ ok o

  -- An object that was created or updated without an error can be read.
  abbrev pub IsStore : Type 0
  IsStore =
      Keeps (λ o w. (client.create o w).1) (λ o w. (client.create o w).0 ≡ none)
      × Keeps (λ o w. (client.update o w).1) (λ o w. (client.update o w).0 ≡ none)

  -- The object is there as it is wanted, or there is one of its name that must not be updated.
  abbrev pub IsEnsured : O → W → Type 0
  IsEnsured o w =
      (o' : O) × (client.get w (meta_of o).namespace (meta_of o).name ≡ ok o')
      × ((o' ≡ o) ⊎ (may_auto_update (meta_of o') ≡ false))

  module _ (store : IsStore) (o : O) (st : Trying W) where
    abbrev Ensuring : Type 0
    Ensuring =
        (try_ensure client meta_of o st).0 ≡ true
        → IsEnsured o (try_ensure client meta_of o st).1.world

    of_update :
        (o' : O)
        → (client.create o st.world).0 ≡ some already_exists
        → client.get (client.create o st.world).1 (meta_of o).namespace (meta_of o).name ≡ ok o'
        → may_auto_update (meta_of o') ≡ true
        → (f : Option Message) → (client.update o (client.create o st.world).1).0 ≡ f
        → Ensuring
    unfolding try_ensure
    of_update o' c d m (some e) u = rw (try_ensure, c, d, m, u) (λ h. cc)
    of_update o' c d m none u = rw (try_ensure, c, d, m, u) (λ h. (o, store.1 o _ u, inl refl))

    of_get :
        (r : Result O)
        → (client.create o st.world).0 ≡ some already_exists
        → client.get (client.create o st.world).1 (meta_of o).namespace (meta_of o).name ≡ r
        → Ensuring
    unfolding try_ensure
    of_get (err e) c d = rw (try_ensure, c, d) (λ h. cc)
    of_get (ok o') c d = go (may_auto_update (meta_of o')) refl
      where
        go : (b : Bool) → may_auto_update (meta_of o') ≡ b → Ensuring
        go false m = rw (try_ensure, c, d, m) (λ h. (o', d, inr m))
        go true m = of_update o' c d m (client.update o (client.create o st.world).1).0 refl

    try_ensure-IsEnsured : Ensuring
    unfolding try_ensure
    try_ensure-IsEnsured = go (client.create o st.world).0 refl
      where
        go : (t : Option Trouble) → (client.create o st.world).0 ≡ t → Ensuring
        go none c = rw (try_ensure, c) (λ h. (o, store.0 o _ c, inl refl))
        go (some (trouble e)) c = rw (try_ensure, c) (λ h. cc)
        go (some already_exists) c =
            of_get (client.get (client.create o st.world).1 (meta_of o).namespace (meta_of o).name)
              c refl

  ended :
      (p : Bool × Trying W) (e : Option Message → Message) (w' : W)
      → ◌≡◌ {A = Option Message × W}
          (elim p.0 as (λ _. Option Message × W) [
            | true ↦ (none, p.1.world)
            | false ↦ (some (e p.1.last_error), p.1.world)
          ])
          (none, w')
      → (p.0 ≡ true) × (p.1.world ≡ w')
  ended (true, st) e w' h = (refl, ap (λ q. q.1) h)
  ended (false, st) e w' h = cc

  -- If an object that was created or updated without an error can be read, and the wait makes an
  -- attempt, an object that is ensured without an error is there as it is wanted, or there is one
  -- of its name whose annotation does not allow an update.
  pub ensure-IsEnsured :
      (backoff : Backoff W) (format : String) (o : O) (w w' : W)
      → IsStore
      → IsTrying backoff
      → ensure client meta_of backoff format o w ≡ (none, w')
      → IsEnsured o w'
  unfolding ensure
  ensure-IsEnsured backoff format o w w' store trying h =
      let start : Trying W = record { world = w; last_error = none } in
      let last = backoff_last backoff trying (try_ensure client meta_of o) start in
      let end =
        ended (backoff (try_ensure client meta_of o) start) (ensure_failed format (meta_of o).name)
          w' h in
      subst (IsEnsured o) (ap (λ q. q.1.world) (sym last.1) ∙ end.1)
        (try_ensure-IsEnsured store o last.0 (ap (λ q. q.0) (sym last.1) ∙ end.0))
