-- ===== src/Registration/Agent/Attempts.antt =====
-- One try of pkg/agent/agent.go to register a cluster, with a kubeconfig that the parent takes or
-- refuses.
use clusternet.Prelude.{
  ℕ, String, Bool, true, false, Option, none, some, ◌≡◌, ◌⊎◌, inl, inr, refl, ok, Message,
}
use clusternet.Utils.Resources.{already_exists, trouble}
use clusternet.Registration.{Request}
use clusternet.Registration.Agent.Names.{
  Options, generate_cluster_name, new_cluster_registration_request,
}
use clusternet.Registration.Agent.{
  Agent, State, waiting_for_approval, get_bootstrap_kube_config,
  bootstrap_cluster_registration_if_needed, attempt,
}
use clusternet.Registration.Agent.Ends.{
  Ends, Ends-bind, Ends-const, Approves, IsRegistered, IsGood, polls-Ends,
}

module _ {W C : Type 0} (agent : Agent W C) (options : Options) where
  -- The parent does not refuse the requests for this cluster that are created with this kubeconfig, and
  -- approves them.
  abbrev pub Accepts : C → String → Type 0
  Accepts config id =
      (w : W) (name : String)
      → let r = new_cluster_registration_request options id name in
        Approves agent options config id (agent.create_request config r w).1
        × (((agent.create_request config r w).0 ≡ none)
            ⊎ ((agent.create_request config r w).0 ≡ some already_exists))

  -- The parent refuses a request for this cluster that is created with this kubeconfig, or approves it.
  abbrev pub AcceptsOrRefuses : C → String → Type 0
  AcceptsOrRefuses config id =
      (w : W) (name : String)
      → let r = new_cluster_registration_request options id name in
        ((e : Message) × ((agent.create_request config r w).0 ≡ some (trouble e)))
        ⊎ Approves agent options config id (agent.create_request config r w).1

  abbrev Succeeds : Option Message × State W C → Type 0
  Succeeds p = (p.0 ≡ none) × IsRegistered agent options p.1

  waiting-Ends :
      (config : C) (id : String) (st : State W C)
      → Approves agent options config id st.world
      → Ends (λ m. waiting_for_approval agent options m config id st) Succeeds
  unfolding waiting_for_approval
  waiting-Ends config id st a =
      Ends-bind _ (λ m. waiting_for_approval agent options m config id st)
        (IsGood agent options config id) Succeeds
        (polls-Ends agent options config id a none st.cluster_name)
        λ p good. (
          (
            none,
            record st {
              world = p.world;
              cluster_name = p.cluster_name;
              parent_config = some good.1;
              dedicated_namespace = some good.0.status.dedicated_namespace;
            },
          ),
          (refl, (good.1, good.0.status.dedicated_namespace, refl, refl)),
          λ m e. rw (waiting_for_approval, e, good.2, good.3) refl,
        )

  -- The result of a round: the wait is cancelled and the agent is registered, or the next round uses
  -- the bootstrap token.
  abbrev pub IsBare : State W C → Type 0
  IsBare st = (st.try_secret ≡ false) × (st.parent_config ≡ none)

  abbrev pub Progresses : Bool × State W C → Type 0
  Progresses p = ((p.0 ≡ true) × IsRegistered agent options p.1) ⊎ ((p.0 ≡ false) × IsBare p.1)

  abbrev pub Registers : Bool × State W C → Type 0
  Registers p = (p.0 ≡ true) × IsRegistered agent options p.1

  abbrev pub wanted : String → State W C → Request
  wanted id st =
      new_cluster_registration_request options id
        (generate_cluster_name agent.random_name options st.cluster_name)

  pub bootstrap-Ends :
      (config : C) (id : String) (st : State W C)
      → get_bootstrap_kube_config agent options st ≡ ok config
      → Approves agent options config id (agent.create_request config (wanted id st) st.world).1
      → ((agent.create_request config (wanted id st) st.world).0 ≡ none)
        ⊎ ((agent.create_request config (wanted id st) st.world).0 ≡ some already_exists)
      → Ends (λ m. bootstrap_cluster_registration_if_needed agent options m id st) Succeeds
  unfolding bootstrap_cluster_registration_if_needed
  bootstrap-Ends config id st e a (inl c) =
      Ends-bind _ (λ m. bootstrap_cluster_registration_if_needed agent options m id st) Succeeds
        Succeeds
        (waiting-Ends config id
          (record st { world = (agent.create_request config (wanted id st) st.world).1 }) a)
        λ p h. (p, h, λ m d. rw (bootstrap_cluster_registration_if_needed, e, c) d)
  bootstrap-Ends config id st e a (inr c) =
      Ends-bind _ (λ m. bootstrap_cluster_registration_if_needed agent options m id st) Succeeds
        Succeeds
        (waiting-Ends config id
          (record st { world = (agent.create_request config (wanted id st) st.world).1 }) a)
        λ p h. (p, h, λ m d. rw (bootstrap_cluster_registration_if_needed, e, c) d)

  pub bootstrapped :
      (id : String) (st : State W C)
      → Ends (λ m. bootstrap_cluster_registration_if_needed agent options m id st) Succeeds
      → Ends (λ m. attempt agent options m id st) Registers
  unfolding attempt
  bootstrapped id st end =
      Ends-bind _ (λ m. attempt agent options m id st) Succeeds Registers end
        λ p h. ((true, p.1), (refl, h.1), λ m d. rw (attempt, d, h.0) refl)

  pub fails_of :
      (id : String) (st : State W C) (e : Message) (st' : State W C)
      → ((m : ℕ)
          → bootstrap_cluster_registration_if_needed agent options m id st ≡ some (some e, st'))
      → Ends (λ m. attempt agent options m id st) Progresses
  unfolding attempt
  fails_of id st e st' d =
      Ends-const (λ m. attempt agent options m id st) Progresses
        (false, record st' { try_secret = false; parent_config = none }) (inr (refl, (refl, refl)))
        λ m. rw (attempt, d m) refl

  pub may_register : (f : ℕ → Option (Bool × State W C)) → Ends f Registers → Ends f Progresses
  may_register f (n, p, h, e) = (n, p, inl h, e)
