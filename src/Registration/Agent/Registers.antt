-- ===== src/Registration/Agent/Registers.antt =====
-- pkg/agent/agent.go registers a cluster in two rounds at most: the stored secret first, and then the
-- bootstrap token.
use clusternet.Prelude.{
  ℕ, ◌≤◌, String, Bool, true, false, Option, none, some, ◌≡◌, ◌⊎◌, inl, inr, refl, ok, Message, ◌+◌,
  ◌∙◌, arith, about, same_text,
}
use clusternet.Hub.Api.{found, failed, not_found}
use clusternet.Utils.Resources.{Trouble, already_exists, trouble}
use clusternet.Registration.{Secret}
use clusternet.Registration.Agent.Names.{Options, generate_cluster_name}
use clusternet.Registration.Agent.{
  Agent, State, bootstrap_credentials, get_bootstrap_kube_config,
  bootstrap_cluster_registration_if_needed, use_secret, attempt, with_secret, register_round,
  register_self_cluster,
}
use clusternet.Registration.Agent.Ends.{Ends, Ends-bind, Approves, IsRegistered}
use clusternet.Registration.Agent.Attempts.{
  Accepts, AcceptsOrRefuses, bootstrap-Ends, bootstrapped, fails_of, may_register, wanted,
  Progresses, Registers, IsBare,
}

module _ {W C : Type 0} (agent : Agent W C) (options : Options) where
  module _ (b : C) (made : agent.generate_kube_config (bootstrap_credentials agent options) ≡ ok b)
      (url : same_text options.parent_url "" ≡ false)
      (token : same_text options.bootstrap_token "" ≡ false)
      (accepts : (id : String) → Accepts agent options b id)
      (may_accept : (config : C) (id : String) → AcceptsOrRefuses agent options config id)
      (leased : (w : W) → (id : String) × ((agent.get_cluster_id w).0 ≡ ok id))
      (read : (w : W)
        → ((agent.get_secret w).0 ≡ failed not_found)
          ⊎ ((s : Secret) × ((agent.get_secret w).0 ≡ found s))) where
    attempt_bare :
        (id : String) (st : State W C)
        → st.parent_config ≡ none
        → Ends (λ m. attempt agent options m id st) (Registers agent options)
    unfolding get_bootstrap_kube_config
    attempt_bare id st e =
        let ready =
          accepts id st.world (generate_cluster_name agent.random_name options st.cluster_name) in
        bootstrapped agent options id st (
          bootstrap-Ends agent options b id st
            (simp (get_bootstrap_kube_config, e, url, token, made)) ready.0 ready.1)

    attempt_with :
        (config : C) (id : String) (st : State W C)
        → get_bootstrap_kube_config agent options st ≡ ok config
        → Ends (λ m. attempt agent options m id st) (Progresses agent options)
    unfolding bootstrap_cluster_registration_if_needed
    attempt_with config id st e =
        go (agent.create_request config (wanted agent options id st) st.world).0 refl (
          may_accept config id st.world
            (generate_cluster_name agent.random_name options st.cluster_name))
      where
        refused :
            (x : Message)
            → (agent.create_request config (wanted agent options id st) st.world).0
              ≡ some (trouble x)
            → Ends (λ m. attempt agent options m id st) (Progresses agent options)
        refused x c =
            fails_of agent options id st
              (about "failed to create ClusterRegistrationRequest: %v" "" x)
              (record st {
                world = (agent.create_request config (wanted agent options id st) st.world).1;
              })
              (λ m. rw (bootstrap_cluster_registration_if_needed, e, c) refl)

        go :
            (t : Option Trouble)
            → (agent.create_request config (wanted agent options id st) st.world).0 ≡ t
            → ((x : Message) × ((agent.create_request config
                    (wanted agent options id st)
                    st.world).0
                  ≡ some (trouble x)))
              ⊎ Approves agent options config id
                  (agent.create_request config (wanted agent options id st) st.world).1
            → Ends (λ m. attempt agent options m id st) (Progresses agent options)
        go t c (inl (x, d)) = refused x d
        go (some (trouble x)) c (inr a) = refused x c
        go none c (inr a) = may_register agent options _ (
            bootstrapped agent options id st
              (bootstrap-Ends agent options config id st e a (inl c)))
        go (some already_exists) c (inr a) = may_register agent options _ (
            bootstrapped agent options id st
              (bootstrap-Ends agent options config id st e a (inr c)))

    attempt_any :
        (id : String) (st : State W C)
        → Ends (λ m. attempt agent options m id st) (Progresses agent options)
    unfolding get_bootstrap_kube_config
    attempt_any id st = go st.parent_config refl
      where
        go :
            (o : Option C)
            → st.parent_config ≡ o
            → Ends (λ m. attempt agent options m id st) (Progresses agent options)
        go none e = may_register agent options _ (attempt_bare id st e)
        go (some config) e = attempt_with config id st (simp (get_bootstrap_kube_config, e))

    -- A function of the bound that is another one.
    same_Ends :
        {X : Type 0} (g f : ℕ → Option X) (P : X → Type 0)
        → ((m : ℕ) → f m ≡ g m)
        → Ends g P
        → Ends f P
    same_Ends g f P e (n, x, p, h) = (n, x, p, λ m k. e m ∙ h m k)

    with_secret_any :
        (id : String) (st : State W C)
        → Ends (λ m. with_secret agent options m id st) (Progresses agent options)
    unfolding with_secret
    with_secret_any id st = go st.try_secret refl
      where
        reads :
            st.try_secret ≡ true
            → ((agent.get_secret st.world).0 ≡ failed not_found)
              ⊎ ((s : Secret) × ((agent.get_secret st.world).0 ≡ found s))
            → Ends (λ m. with_secret agent options m id st) (Progresses agent options)
        reads e (inl d) =
            same_Ends _ (λ m. with_secret agent options m id st) (Progresses agent options)
              (λ m. simp (with_secret, e, d))
              (attempt_any id (record st { world = (agent.get_secret st.world).1 }))
        reads e (inr (s, d)) =
            same_Ends _ (λ m. with_secret agent options m id st) (Progresses agent options)
              (λ m. simp (with_secret, e, d))
              (attempt_any id
                (use_secret agent options s (record st { world = (agent.get_secret st.world).1 })))

        go :
            (o : Bool)
            → st.try_secret ≡ o
            → Ends (λ m. with_secret agent options m id st) (Progresses agent options)
        go true e = reads e (read st.world)
        go false e =
            same_Ends _ (λ m. with_secret agent options m id st) (Progresses agent options)
              (λ m. simp (with_secret, e)) (attempt_any id st)

    with_secret_bare :
        (id : String) (st : State W C)
        → (IsBare agent options) st
        → Ends (λ m. with_secret agent options m id st) (Registers agent options)
    unfolding with_secret
    with_secret_bare id st (e, d) =
        same_Ends _ (λ m. with_secret agent options m id st) (Registers agent options)
          (λ m. simp (with_secret, e)) (attempt_bare id st d)

    rounds_of :
        (P : Bool × State W C → Type 0) (st : State W C)
        → ((id : String) (st' : State W C)
            → (st'.try_secret ≡ st.try_secret)
            → (st'.parent_config ≡ st.parent_config)
            → Ends (λ m. with_secret agent options m id st') P)
        → Ends (λ m. register_round agent options m st) P
    unfolding register_round
    rounds_of P st k = go st.cluster_id refl
      where
        go :
            (o : Option String)
            → st.cluster_id ≡ o
            → Ends (λ m. register_round agent options m st) P
        go (some id) e =
            same_Ends _ (λ m. register_round agent options m st) P (λ m. simp (register_round, e))
              (k id st refl refl)
        go none e =
            let lease = leased st.world in
            let st' : State W C = record st {
              world = (agent.get_cluster_id st.world).1;
              cluster_id = some lease.0;
            } in
            same_Ends (λ m. with_secret agent options m lease.0 st')
              (λ m. register_round agent options m st) P (λ m. simp (register_round, e, lease.1))
              (k lease.0 st' refl refl)

    second_round :
        (st : State W C)
        → (IsBare agent options) st
        → Ends (λ m. register_self_cluster agent options 1 m st) (IsRegistered agent options)
    unfolding register_self_cluster
    second_round st (e, d) =
        Ends-bind _ (λ m. register_self_cluster agent options 1 m st) (Registers agent options)
          (IsRegistered agent options)
          (rounds_of (Registers agent options) st
            (λ id st' e' d'. with_secret_bare id st' (e' ∙ e, d' ∙ d)))
          λ p h. (p.1, h.1, λ m c. rw (register_self_cluster, c, h.0) refl)

    -- The registration of a cluster ends in two rounds at most, from any state of the agent, with a
    -- kubeconfig and a namespace, for each bound on the polls from some bound on. This holds if the
    -- cluster has an ID, the stored secret can be read or is not there, the URL of the parent and
    -- the bootstrap token are not empty and a kubeconfig can be made from them, the parent takes
    -- the request of the agent for a cluster that comes with it and approves it after some polls,
    -- and the parent refuses each other kubeconfig or approves the request of the agent that comes
    -- with it after some polls.
    pub register_self_cluster-Ends :
        (st : State W C)
        → Ends (λ m. register_self_cluster agent options 2 m st) (IsRegistered agent options)
    unfolding register_self_cluster
    register_self_cluster-Ends st =
        let first =
          rounds_of (Progresses agent options) st (λ id st' e d. with_secret_any id st') in
        go first.0 first.1 first.2 first.3
      where
        go :
            (n : ℕ) (p : Bool × State W C)
            → (Progresses agent options) p
            → ((m : ℕ) → n ≤ m → register_round agent options m st ≡ some p)
            → Ends (λ m. register_self_cluster agent options 2 m st) (IsRegistered agent options)
        go n p (inl (e, h)) c = (n, p.1, h, λ m k. rw (register_self_cluster, c m k, e) refl)
        go n p (inr (e, h)) c =
            let (n', st', good, d) = second_round p.1 h in
            (
              n + n',
              st',
              good,
              λ m k. rw (register_self_cluster, c m (omega arith), e) (d m (omega arith)),
            )
