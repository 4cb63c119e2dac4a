-- ===== src/Controllers/Work/Finalized.antt =====
-- The finalizer under the sync handlers of pkg/controllers/apps, and the cached object that they
-- change before it is written.
use package.text.Mathlib.TextPositions.{eq_refl}
use clusternet.Prelude.{
  String, Bool, true, false, not, ◌&&◌, Option, none, some, List, [], ◌∷◌, ◌++◌, ◌≡◌, ◌⊎◌, inl, inr,
  refl, ap, ◌∙◌, Result, ok, err, Message, try_value, arith, ok_inj,
}
use clusternet.Utils.Slice.{contains_string}
use clusternet.Hub.Api.{not_found, other, Answer, found, failed, app_finalizer}
use mathlib.Core.Path.{subst}
use clusternet.Controllers.Work.{Object, Store, inject_finalizer, of_key}

-- The object is being deleted, or has the finalizer.
abbrev pub IsReady : {S : Type 0} → Object S → Type 0
IsReady o = (o.deleting ≡ true) ⊎ (contains_string o.finalizers app_finalizer ≡ true)

pub contains_string-last :
    (xs : List String) (x : String) → contains_string (xs ++ (x ∷ [])) x ≡ true
unfolding contains_string
contains_string-last [] x = rw (eq_refl x) refl
contains_string-last (y ∷ ys) x = ground (arith, contains_string-last ys x)

module _ {W S : Type 0} (store : Store W S) where
  -- An object that was written has the finalizers that were sent.
  abbrev pub WritesFinalizers : Type 0
  WritesFinalizers =
      (o o' : Object S) (w : W) → (store.update o w).0 ≡ ok o' → o'.finalizers ≡ o.finalizers

  abbrev pub finalized : Object S → Object S
  finalized o = record o { finalizers = o.finalizers ++ (app_finalizer ∷ []) }

  needs_no : (a b : Bool) → (not a && not b) ≡ false → (b ≡ true) ⊎ (a ≡ true)
  needs_no true b h = inr refl
  needs_no false true h = inl refl
  needs_no false false h = absurd (ground (arith, h))

  pub inject_finalizer-IsReady :
      (o o' : Object S) (w : W)
      → WritesFinalizers
      → (inject_finalizer store o w).0 ≡ ok o'
      → IsReady o'
  unfolding inject_finalizer
  inject_finalizer-IsReady o o' w writes =
      go (not (contains_string o.finalizers app_finalizer) && not o.deleting) refl
    where
      Goal : Type 0
      Goal = (inject_finalizer store o w).0 ≡ ok o' → IsReady o'

      go :
          (b : Bool)
          → (not (contains_string o.finalizers app_finalizer) && not o.deleting) ≡ b
          → Goal
      go true e =
          rw (inject_finalizer, e)
            λ h. inr (
              ap (λ f. contains_string f app_finalizer) (writes (finalized o) o' _ h)
              ∙ contains_string-last o.finalizers app_finalizer)
      go false e =
          rw (inject_finalizer, e)
            λ h.
              subst IsReady (ok_inj h)
                (needs_no (contains_string o.finalizers app_finalizer) o.deleting e)

  -- Handlers that do the same to objects that are ready do the same behind the finalizer.
  pub inject_finalizer-guards :
      (h h' : Object S → W → Option Message × W) (o : Object S) (w : W)
      → WritesFinalizers
      → ((o' : Object S) (w' : W) → IsReady o' → h o' w' ≡ h' o' w')
      → try_value (inject_finalizer store o w) h ≡ try_value (inject_finalizer store o w) h'
  inject_finalizer-guards h h' o w writes same =
      go (inject_finalizer store o w) (λ o' e. inject_finalizer-IsReady o o' w writes e)
    where
      go :
          (r : Result (Object S) × W)
          → ((o' : Object S) → r.0 ≡ ok o' → IsReady o')
          → try_value r h ≡ try_value r h'
      go (err e, w') ready = refl
      go (ok o', w') ready = same o' w' (ready o' refl)

  pub of_key-same :
      (split : String → Result (String × String)) (k k' : Object S → W → Option Message × W)
      (key : String) (w : W)
      → ((o : Object S) → k o w ≡ k' o w)
      → of_key store split k key w ≡ of_key store split k' key w
  unfolding of_key
  of_key-same split k k' key w same = go (split key)
    where
      got :
          (a : Answer (Object S))
          → (elim a as (λ _. Option Message × W) [
            | failed not_found ↦ (none, w)
            | failed (other m) ↦ (some m, w)
            | found o ↦ k o w
          ])
            ≡ (elim a as (λ _. Option Message × W) [
              | failed not_found ↦ (none, w)
              | failed (other m) ↦ (some m, w)
              | found o ↦ k' o w
            ])
      got (failed not_found) = refl
      got (failed (other m)) = refl
      got (found o) = same o

      go :
          (r : Result (String × String))
          → (elim r as (λ _. Option Message × W) [
            | err e ↦ (none, w)
            | ok (ns, name) ↦ elim (store.get w ns name) as (λ _. Option Message × W) [
              | failed not_found ↦ (none, w)
              | failed (other m) ↦ (some m, w)
              | found o ↦ k o w
            ]
          ])
            ≡ (elim r as (λ _. Option Message × W) [
              | err e ↦ (none, w)
              | ok (ns, name) ↦ elim (store.get w ns name) as (λ _. Option Message × W) [
                | failed not_found ↦ (none, w)
                | failed (other m) ↦ (some m, w)
                | found o ↦ k' o w
              ]
            ])
      go (err e) = refl
      go (ok (ns, name)) = got (store.get w ns name)

  -- The cached object, read again after it was changed.
  abbrev pub IsShared : Type 0
  IsShared = (o : Object S) (w : W) → store.get (store.share o w) o.namespace o.name ≡ found o

  -- A write that fails leaves the cache.
  abbrev pub LeavesCache : Type 0
  LeavesCache =
      (o : Object S) (w : W) (ns name : String) (e : Message)
      → (store.update o w).0 ≡ err e
      → store.get (store.update o w).1 ns name ≡ store.get w ns name
