-- ===== src/Registration/Approver/Grants.antt =====
-- The roles that pkg/hub/approver binds to a service account.
use mathlib.Core.Path.{subst}
use clusternet.Prelude.{
  Steps, sym, ap, ◌∙◌, refl, String, Option, none, some, List, [], ◌∷◌, ◌≡◌, refl, ap, ◌∙◌, Message,
  sym, pair_of,
}
use clusternet.Hub.Api.{aggregate}
use clusternet.Hub.Bases.Keys.{aggregate-none}
use clusternet.Registration.Rbac.{
  Role, Binding, ensure_cluster_role, ensure_cluster_role_binding, ensure_role, ensure_role_binding,
}
use clusternet.Registration.Approver.Objects.{
  account_subject, default_cluster_roles, default_roles, cluster_role_binding, role_binding,
}
use clusternet.Registration.Approver.{
  Hub, each_of, binding_cluster_roles_if_needed, binding_role_if_needed,
}

-- This is done without an error.
abbrev pub IsDone : {W O : Type 0} → (O → W → Option Message × W) → O → W → W → Type 0
IsDone f o w w' = f o w ≡ (none, w')

each_of-Steps :
    {W O : Type 0} (f : O → W → Option Message × W) (os : List O) (w : W)
    → (each_of f os w).0 ≡ []
    → Steps (IsDone f) os w (each_of f os w).1
unfolding each_of
each_of-Steps f [] w = λ h. refl
each_of-Steps {W} {O} f (o ∷ os) w = go (f o w).0 refl (each_of-Steps f os (f o w).1)
  where
    go :
        (a : Option Message)
        → (f o w).0 ≡ a
        → ((each_of f os (f o w).1).0 ≡ []
            → Steps (IsDone f) os (f o w).1 (each_of f os (f o w).1).1)
        → (each_of f (o ∷ os) w).0 ≡ []
        → Steps (IsDone f) (o ∷ os) w (each_of f (o ∷ os) w).1
    go (some e) d rest = rw (each_of, d) (λ h. cc)
    go none d rest =
        let kept : (each_of f (o ∷ os) w).0 ≡ (each_of f os (f o w).1).0 = rw (each_of, d) refl in
        λ h. ((f o w).1, pair_of (f o w) d, rest (sym kept ∙ h))

some_error : {e : Message} → some e ≡ none → ⊥
some_error h = cc

module _ {W : Type 0} (hub : Hub W) where
  -- A binding of a role to the service account is ensured.
  abbrev pub IsBound :
      (Binding → W → Option Message × W) → (kind account namespace : String) → Role → W → W → Type 0
  IsBound f kind account namespace role w w' =
      (b : Binding) × IsDone f b w w'
      × (b.role_ref.kind ≡ kind)
      × (b.role_ref.name ≡ role.meta.name)
      × (b.meta.name ≡ role.meta.name)
      × (b.subjects ≡ account_subject account namespace ∷ [])

  -- All cluster roles of the hub for a cluster are ensured, and then bound to the service account.
  abbrev pub BindsClusterRoles : (account namespace id : String) → W → W → Type 0
  BindsClusterRoles account namespace id w w' =
      (u : W) × Steps (IsDone (ensure_cluster_role hub.backoff hub.cluster_roles))
        (default_cluster_roles hub.socket_connection id) w u
      × Steps
          (IsBound (ensure_cluster_role_binding hub.backoff hub.cluster_role_bindings) "ClusterRole"
            account namespace)
          (default_cluster_roles hub.socket_connection id) u w'

  -- The same for the roles in a namespace.
  abbrev pub BindsRoles : (account namespace : String) → W → W → Type 0
  BindsRoles account namespace w w' =
      (u : W) × Steps (IsDone (ensure_role hub.backoff hub.roles)) (default_roles namespace) w u
      × Steps (IsBound (ensure_role_binding hub.backoff hub.role_bindings) "Role" account namespace)
          (default_roles namespace) u w'

  Steps-IsBound :
      (f : Binding → W → Option Message × W) (g : Role → Binding) (kind account namespace : String)
      (rs : List Role) (w w' : W)
      → ((r : Role)
          → (((g r).role_ref.kind ≡ kind)
              × ((g r).role_ref.name ≡ r.meta.name)
              × ((g r).meta.name ≡ r.meta.name)
              × ((g r).subjects ≡ account_subject account namespace ∷ [])))
      → Steps (IsDone (λ r. f (g r))) rs w w'
      → Steps (IsBound f kind account namespace) rs w w'
  Steps-IsBound f g kind account namespace [] w w' made h = h
  Steps-IsBound f g kind account namespace (r ∷ rs) w w' made (u, done, rest) = (
    u,
    (g r, done, (made r).0, (made r).1, (made r).2, (made r).3),
    Steps-IsBound f g kind account namespace rs u w' made rest,
  )

  pub binding-BindsClusterRoles :
      (account namespace id : String) (w w' : W)
      → binding_cluster_roles_if_needed hub account namespace id w ≡ (none, w')
      → BindsClusterRoles account namespace id w w'
  unfolding binding_cluster_roles_if_needed cluster_role_binding
  binding-BindsClusterRoles account namespace id w w' = go (each_of ensures roles w).0 refl
    where
      roles : List Role
      roles = default_cluster_roles hub.socket_connection id

      ensures : Role → W → Option Message × W
      ensures = ensure_cluster_role hub.backoff hub.cluster_roles

      f : Binding → W → Option Message × W
      f = ensure_cluster_role_binding hub.backoff hub.cluster_role_bindings

      binds : Role → W → Option Message × W
      binds r = f (cluster_role_binding account namespace id r)

      u : W
      u = (each_of ensures roles w).1

      go :
          (es : List Message)
          → (each_of ensures roles w).0 ≡ es
          → binding_cluster_roles_if_needed hub account namespace id w ≡ (none, w')
          → BindsClusterRoles account namespace id w w'
      go (e ∷ es) d =
          let same : binding_cluster_roles_if_needed hub account namespace id w
              ≡ (aggregate (e ∷ es), (each_of ensures roles w).1) =
            rw (binding_cluster_roles_if_needed, d) refl in
          λ h. absurd (some_error (ap (λ p. p.0) (sym same ∙ h)))
      go [] d =
          let same : binding_cluster_roles_if_needed hub account namespace id w
              ≡ (aggregate (each_of binds roles u).0, (each_of binds roles u).1) =
            rw (binding_cluster_roles_if_needed, d) refl in
          λ h.
            let e = sym same ∙ h in
            (
              u,
              each_of-Steps ensures roles w d,
              Steps-IsBound f (cluster_role_binding account namespace id) "ClusterRole" account
                  namespace roles u w' (λ r. (refl, refl, refl, refl))
                  (subst (λ x. Steps (IsDone binds) roles u x) (ap (λ p. p.1) e)
                    (each_of-Steps binds roles u (aggregate-none _ (ap (λ p. p.0) e)))),
            )

  pub binding-BindsRoles :
      (account namespace : String) (w w' : W)
      → binding_role_if_needed hub account namespace w ≡ (none, w')
      → BindsRoles account namespace w w'
  unfolding binding_role_if_needed role_binding
  binding-BindsRoles account namespace w w' = go (each_of ensures roles w).0 refl
    where
      roles : List Role
      roles = default_roles namespace

      ensures : Role → W → Option Message × W
      ensures = ensure_role hub.backoff hub.roles

      f : Binding → W → Option Message × W
      f = ensure_role_binding hub.backoff hub.role_bindings

      binds : Role → W → Option Message × W
      binds r = f (role_binding account namespace r)

      u : W
      u = (each_of ensures roles w).1

      go :
          (es : List Message)
          → (each_of ensures roles w).0 ≡ es
          → binding_role_if_needed hub account namespace w ≡ (none, w')
          → BindsRoles account namespace w w'
      go (e ∷ es) d =
          let same : binding_role_if_needed hub account namespace w
              ≡ (aggregate (e ∷ es), (each_of ensures roles w).1) =
            rw (binding_role_if_needed, d) refl in
          λ h. absurd (some_error (ap (λ p. p.0) (sym same ∙ h)))
      go [] d =
          let same : binding_role_if_needed hub account namespace w
              ≡ (aggregate (each_of binds roles u).0, (each_of binds roles u).1) =
            rw (binding_role_if_needed, d) refl in
          λ h.
            let e = sym same ∙ h in
            (
              u,
              each_of-Steps ensures roles w d,
              Steps-IsBound f (role_binding account namespace) "Role" account namespace roles u w'
                  (λ r. (refl, refl, refl, refl))
                  (subst (λ x. Steps (IsDone binds) roles u x) (ap (λ p. p.1) e)
                    (each_of-Steps binds roles u (aggregate-none _ (ap (λ p. p.0) e)))),
            )
