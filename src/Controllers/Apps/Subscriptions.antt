-- ===== src/Controllers/Apps/Subscriptions.antt =====
-- pkg/controllers/apps/subscription/subscription.go.
use clusternet.Prelude.{
  String, Bool, true, ◌&&◌, Option, none, some, List, [], same_text, Result, Message, try_value,
  if◌then◌else◌,
}
use clusternet.Hub.Api.{
  Answer, found, failed, Base, config_name_label, config_namespace_label, config_uid_label, label,
}
use clusternet.Controllers.Work.{
  typed, Object, Deleted, deleted_object, enqueue, deleted, updated, Store, inject_finalizer,
  label_self, of_key,
}

pub record SubscriptionBody : Type 0 where
  pub spec_hash : String
  pub binding_clusters : List String

module _ (key_of : Object SubscriptionBody → Result String)
    (same_status : SubscriptionBody → SubscriptionBody → Bool)
    (same_names : List String → List String → Bool) where
  unfoldable pub add_subscription : Object SubscriptionBody → List String
  add_subscription sub = enqueue key_of sub

  -- The tests of updateSubscription after which nothing is done.
  unfoldable pub same_binding : Object SubscriptionBody → Object SubscriptionBody → Bool
  same_binding old new =
      if same_status old.body new.body
      then true
      else same_names old.body.binding_clusters new.body.binding_clusters
        && same_text old.body.spec_hash new.body.spec_hash

  unfoldable pub update_subscription :
      Object SubscriptionBody → Object SubscriptionBody → List String
  update_subscription old new = updated key_of same_binding old new

  unfoldable pub delete_subscription : Deleted (Object SubscriptionBody) → List String
  delete_subscription d = deleted key_of d

  module _ (get : String → String → Answer (Object SubscriptionBody)) where
    unfoldable pub resolve_subscription :
        String → String → String → Option (Object SubscriptionBody)
    resolve_subscription name namespace uid = elim (get namespace name) [
      | failed f ↦ none
      | found sub ↦ if same_text sub.uid uid then some sub else none
    ]

    unfoldable pub delete_base : Deleted Base → List String
    delete_base d = elim (deleted_object d) [
      | none ↦ []
      | some base ↦
          elim (resolve_subscription (label config_name_label base.labels)
            (label config_namespace_label base.labels) (label config_uid_label base.labels)) [
              | none ↦ []
              | some sub ↦ enqueue key_of sub
            ]
    ]

module _ {W : Type 0} (store : Store W SubscriptionBody) (split : String → Result (String × String))
    (handler : Object SubscriptionBody → W → Option Message × W) where
  -- A Subscription gets the finalizer and its own label, and is then handled.
  unfoldable pub sync_subscription : String → W → Option Message × W
  sync_subscription key w =
      of_key store split
        (λ sub w0. try_value (inject_finalizer store sub w0) λ sub1 w1.
          try_value (label_self store "Subscription" sub1 w1)
            λ sub2 w2. handler (typed "Subscription" sub2) w2)
        key w
