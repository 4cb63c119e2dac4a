-- ===== src/Hub/Protection/Safety.antt =====
-- The protection of feeds in pkg/hub/deployer: who may still refer to an object that is released.
use clusternet.Prelude.{
  String, Bool, true, false, not, ◌&&◌, ◌||◌, Option, none, some, List, [], ◌∷◌, ◌≡◌, ◌≢◌, ◌⊎◌, inl,
  inr, refl, ◌∙◌, same_text, contains, Message, All, arith, if◌then◌else◌,
}
use clusternet.Utils.Slice.{contains_string}
use clusternet.Hub.Api.{Failure, found, Subscription, feed_protection_finalizer, failure_message}
use clusternet.Hub.Feeds.{Referent}
use clusternet.Hub.Protection.{
  is_uid, sub_uids, has_reference, matching_from, find_all_matching_subscriptions, ProtectionApi,
  remove_feed_each, protect_feed, release,
}

-- The labels say `uid=Subscription`.
abbrev pub is_labelled : String → List (String × String) → Bool
is_labelled uid [] = false
is_labelled uid ((key, val) ∷ labels) =
    (same_text key uid && is_uid key && same_text val "Subscription") || is_labelled uid labels

-- A Subscription that is not being deleted, is named by the labels of the object and has it as a feed.
abbrev pub is_live : List (String × String) → Subscription → Bool
is_live feed_labels sub =
    is_labelled sub.uid feed_labels && not sub.deleting && has_reference feed_labels sub.feeds

contains-sub_uids :
    (uid : String) (labels : List (String × String))
    → contains uid (sub_uids labels) ≡ is_labelled uid labels
unfolding sub_uids
contains-sub_uids uid [] = refl
contains-sub_uids uid ((key, val) ∷ labels) = ground (arith, contains-sub_uids uid labels)

abbrev NotLive : List (String × String) → List Subscription → Type 0
NotLive labels subs = All (λ (s : Subscription). is_live labels s ≡ false) subs

matching_from-none :
    (labels : List (String × String)) (subs : List Subscription)
    → matching_from (sub_uids labels) labels subs ≡ []
    → NotLive labels subs
unfolding matching_from
matching_from-none labels [] h = tt
matching_from-none labels (s ∷ subs) h =
    go (contains s.uid (sub_uids labels) && not s.deleting && has_reference labels s.feeds) refl
      (matching_from-none labels subs) h
  where
    go :
        (b : Bool)
        → (contains s.uid (sub_uids labels) && not s.deleting && has_reference labels s.feeds) ≡ b
        → (matching_from (sub_uids labels) labels subs ≡ [] → NotLive labels subs)
        → (if b
            then s ∷ matching_from (sub_uids labels) labels subs
            else matching_from (sub_uids labels) labels subs)
          ≡ []
        → NotLive labels (s ∷ subs)
    go true e rest h' = cc
    go false e rest h' = (ground (arith, contains-sub_uids s.uid labels), rest h')

-- A view of the world that only an update of the object changes.
pub record KeptByProtection {ℓ} {W : Type 0} {O : Type ℓ} (view : W → O) (api : ProtectionApi W)
    : Type ℓ where
  pub remove_feed :
      (labels : List (String × String)) (s : Subscription) (w : W)
      → view (api.remove_feed labels s w).1 ≡ view w
  pub annotate : (r : Referent) (m : Message) (w : W) → view (api.annotate r m w).1 ≡ view w

module _ {ℓ} {W : Type 0} {O : Type ℓ} (view : W → O) (api : ProtectionApi W)
    (kept : KeptByProtection view api) where
  remove_feed_each-keeps :
      (labels : List (String × String)) (subs : List Subscription) (w : W)
      → view (remove_feed_each api labels subs w).1 ≡ view w
  unfolding remove_feed_each
  remove_feed_each-keeps labels [] w = refl
  remove_feed_each-keeps labels (s ∷ subs) w =
      remove_feed_each-keeps labels subs (api.remove_feed labels s w).1
      ∙ kept.remove_feed labels s w

  blocked :
      (a : Option Failure) (m : Message)
      → (elim a as (λ _. Option Message) [ none ↦ some m | some f ↦ some (failure_message f) ])
        ≢ none
  blocked none m h = cc
  blocked (some f) m h = cc

  protect_feed-blocks :
      (object : Referent) (subs : List Subscription) (w : W) (s : Subscription)
      (related : List Subscription)
      → contains_string object.finalizers feed_protection_finalizer ≡ true
      → api.list_subscriptions w ≡ found subs
      → matching_from (sub_uids object.labels) object.labels subs ≡ s ∷ related
      → (view (protect_feed api object w).1 ≡ view w) × ((protect_feed api object w).0 ≢ none)
  unfolding protect_feed find_all_matching_subscriptions
  protect_feed-blocks object subs w s related h e d =
      rw (protect_feed, e, find_all_matching_subscriptions, d, h) (kept.annotate _ _ _, blocked _ _)

  -- An object with the finalizer for protection that is being deleted is not updated, and an error
  -- is returned, unless no listed Subscription is live: named by the labels of the object, not
  -- being deleted, and with the object among its feeds.
  pub release-NotLive :
      (object : Referent) (subs : List Subscription) (w : W)
      → contains_string object.finalizers feed_protection_finalizer ≡ true
      → api.list_subscriptions w ≡ found subs
      → ((view (release api object w).1 ≡ view w) × ((release api object w).0 ≢ none))
        ⊎ All (λ (s : Subscription). is_live object.labels s ≡ false) subs
  unfolding release
  release-NotLive object subs w h e =
      go (matching_from (sub_uids object.labels) object.labels subs) refl
    where
      Goal : Type ℓ
      Goal =
          ((view (release api object w).1 ≡ view w) × ((release api object w).0 ≢ none))
          ⊎ All (λ (s : Subscription). is_live object.labels s ≡ false) subs

      stopped :
          (o : Option Message)
          → (protect_feed api object w).0 ≡ o
          → view (protect_feed api object w).1 ≡ view w
          → (protect_feed api object w).0 ≢ none
          → (view (release api object w).1 ≡ view w) × ((release api object w).0 ≢ none)
      stopped (some m) c k n = rw (release, c) (k, λ g. cc)
      stopped none c k n = absurd (n c)

      go :
          (related : List Subscription)
          → matching_from (sub_uids object.labels) object.labels subs ≡ related
          → Goal
      go [] d = inr (matching_from-none object.labels subs d)
      go (s ∷ related) d =
          let blocks = protect_feed-blocks object subs w s related h e d in
          inl (stopped (protect_feed api object w).0 refl blocks.0 blocks.1)
