-- ===== src/Registration/Approver/Made.antt =====
-- The objects that pkg/hub/approver lists or makes for a request.
use clusternet.Prelude.{
  String, List, [], ◌∷◌, ◌≡◌, ◌⊎◌, inl, inr, refl, ap, ◌∙◌, Result, ok, err, Message, sym, ok_inj,
}
use clusternet.Registration.{Namespace, ServiceAccount, ManagedCluster, RequestSpec}
use clusternet.Registration.Approver.Objects.{
  id_selector, cluster_labels, new_namespace, new_managed_cluster, new_service_account,
}
use clusternet.Registration.Approver.{
  Hub, create_namespace_if_needed, create_managed_cluster_if_needed,
  create_service_account_if_needed,
}

failed_list :
    {A W : Type 0} {e : Message} {a : A} {w w' : W}
    → ◌≡◌ {A = Result A × W} (err e, w) (ok a, w')
    → ⊥
failed_list h = cc

module _ {W : Type 0} (hub : Hub W) where
  -- The first namespace that is listed for the cluster, or one that is made with its labels.
  abbrev pub IsNamespace : String → String → Namespace → W → W → Type 0
  IsNamespace id name ns w w' =
      ((more : List Namespace) × (hub.list_namespaces (id_selector id) w ≡ ok (ns ∷ more))
        × (w' ≡ w))
      ⊎ ((made : Namespace) × (hub.list_namespaces (id_selector id) w ≡ ok [])
          × (made.meta.labels ≡ cluster_labels id name)
          × (hub.create_namespace made w ≡ (ok ns, w')))

  -- The first ManagedCluster that is listed for the cluster, or one that is made in the namespace as
  -- it is requested.
  abbrev pub IsCluster : String → RequestSpec → ManagedCluster → W → W → Type 0
  IsCluster namespace spec mc w w' =
      ((more : List ManagedCluster) × (hub.list_managed_clusters (id_selector spec.cluster_id) w
          ≡ ok (mc ∷ more))
        × (w' ≡ w))
      ⊎ ((made : ManagedCluster) × (hub.list_managed_clusters (id_selector spec.cluster_id) w
            ≡ ok [])
          × (made.meta.name ≡ spec.cluster_name)
          × (made.cluster_id ≡ spec.cluster_id)
          × (made.cluster_type ≡ spec.cluster_type)
          × (made.sync_mode ≡ spec.sync_mode)
          × (hub.create_managed_cluster namespace made w ≡ (ok mc, w')))

  -- The first service account that is listed for the cluster, or one that is made in the namespace.
  abbrev pub IsAccount : String → String → String → ServiceAccount → W → W → Type 0
  IsAccount namespace name id sa w w' =
      ((more : List ServiceAccount) × (hub.list_service_accounts (id_selector id) w
          ≡ ok (sa ∷ more))
        × (w' ≡ w))
      ⊎ ((made : ServiceAccount) × (hub.list_service_accounts (id_selector id) w ≡ ok [])
          × (made.meta.labels ≡ cluster_labels id name)
          × (hub.create_service_account namespace made w ≡ (ok sa, w')))

  pub create_namespace-IsNamespace :
      (id name : String) (ns : Namespace) (w w' : W)
      → create_namespace_if_needed hub id name w ≡ (ok ns, w')
      → IsNamespace id name ns w w'
  unfolding create_namespace_if_needed new_namespace
  create_namespace-IsNamespace id name ns w w' = go (hub.list_namespaces (id_selector id) w) refl
    where
      go :
          (r : Result (List Namespace))
          → hub.list_namespaces (id_selector id) w ≡ r
          → create_namespace_if_needed hub id name w ≡ (ok ns, w')
          → IsNamespace id name ns w w'
      go (err e) d =
          let same : create_namespace_if_needed hub id name w ≡ (err e, w) =
            rw (create_namespace_if_needed, d) refl in
          λ h. absurd (failed_list (sym same ∙ h))
      go (ok (x ∷ more)) d =
          let same : create_namespace_if_needed hub id name w ≡ (ok x, w) =
            rw (create_namespace_if_needed, d) refl in
          λ h. inl (
            more,
            d ∙ ap (λ (y : Namespace). ok (y ∷ more)) (ok_inj (ap (λ p. p.0) (sym same ∙ h))),
            ap (λ p. p.1) (sym h ∙ same),
          )
      go (ok []) d =
          let same : create_namespace_if_needed hub id name w
              ≡ hub.create_namespace (new_namespace id name) w =
            rw (create_namespace_if_needed, d) refl in
          λ h. inr (_, d, refl, sym same ∙ h)

  pub create_managed_cluster-IsCluster :
      (namespace : String) (spec : RequestSpec) (mc : ManagedCluster) (w w' : W)
      → create_managed_cluster_if_needed hub namespace spec w ≡ (ok mc, w')
      → IsCluster namespace spec mc w w'
  unfolding create_managed_cluster_if_needed new_managed_cluster
  create_managed_cluster-IsCluster namespace spec mc w w' =
      go (hub.list_managed_clusters (id_selector spec.cluster_id) w) refl
    where
      go :
          (r : Result (List ManagedCluster))
          → hub.list_managed_clusters (id_selector spec.cluster_id) w ≡ r
          → create_managed_cluster_if_needed hub namespace spec w ≡ (ok mc, w')
          → IsCluster namespace spec mc w w'
      go (err e) d =
          let same : create_managed_cluster_if_needed hub namespace spec w ≡ (err e, w) =
            rw (create_managed_cluster_if_needed, d) refl in
          λ h. absurd (failed_list (sym same ∙ h))
      go (ok (x ∷ more)) d =
          let same : create_managed_cluster_if_needed hub namespace spec w ≡ (ok x, w) =
            rw (create_managed_cluster_if_needed, d) refl in
          λ h. inl (
            more,
            d ∙ ap (λ (y : ManagedCluster). ok (y ∷ more)) (ok_inj (ap (λ p. p.0) (sym same ∙ h))),
            ap (λ p. p.1) (sym h ∙ same),
          )
      go (ok []) d =
          let same : create_managed_cluster_if_needed hub namespace spec w
              ≡ hub.create_managed_cluster namespace (new_managed_cluster spec) w =
            rw (create_managed_cluster_if_needed, d) refl in
          λ h. inr (_, d, refl, refl, refl, refl, sym same ∙ h)

  pub create_service_account-IsAccount :
      (namespace name id : String) (sa : ServiceAccount) (w w' : W)
      → create_service_account_if_needed hub namespace name id w ≡ (ok sa, w')
      → IsAccount namespace name id sa w w'
  unfolding create_service_account_if_needed new_service_account
  create_service_account-IsAccount namespace name id sa w w' =
      go (hub.list_service_accounts (id_selector id) w) refl
    where
      go :
          (r : Result (List ServiceAccount))
          → hub.list_service_accounts (id_selector id) w ≡ r
          → create_service_account_if_needed hub namespace name id w ≡ (ok sa, w')
          → IsAccount namespace name id sa w w'
      go (err e) d =
          let same : create_service_account_if_needed hub namespace name id w ≡ (err e, w) =
            rw (create_service_account_if_needed, d) refl in
          λ h. absurd (failed_list (sym same ∙ h))
      go (ok (x ∷ more)) d =
          let same : create_service_account_if_needed hub namespace name id w ≡ (ok x, w) =
            rw (create_service_account_if_needed, d) refl in
          λ h. inl (
            more,
            d ∙ ap (λ (y : ServiceAccount). ok (y ∷ more)) (ok_inj (ap (λ p. p.0) (sym same ∙ h))),
            ap (λ p. p.1) (sym h ∙ same),
          )
      go (ok []) d =
          let same : create_service_account_if_needed hub namespace name id w
              ≡ hub.create_service_account namespace (new_service_account id name) w =
            rw (create_service_account_if_needed, d) refl in
          λ h. inr (_, d, refl, sym same ∙ h)
