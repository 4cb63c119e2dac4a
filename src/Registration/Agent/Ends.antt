-- ===== src/Registration/Agent/Ends.antt =====
-- The waits of pkg/agent/agent.go end.
use clusternet.Prelude.{
  ℕ, zero, suc, ◌≤◌, String, Bool, true, false, Option, some, ◌≡◌, refl, ◌∙◌, ap, Result, ok, err,
  arith,
}
use clusternet.Registration.{Request}
use clusternet.Registration.Agent.Names.{Options, generate_cluster_registration_request_name}
use clusternet.Registration.Agent.{Agent, State, Polling, until, is_approved, poll, granted}

-- The value at each bound from some bound on, and that it has a property.
abbrev pub Ends : {X : Type 0} → (ℕ → Option X) → (X → Type 0) → Type 0
Ends {X} f P = (n : ℕ) × (x : X) × P x × ((m : ℕ) → n ≤ m → f m ≡ some x)

pub Ends-bind :
    {X Y : Type 0} (g : ℕ → Option X) (f : ℕ → Option Y) (P : X → Type 0) (Q : Y → Type 0)
    → Ends g P
    → ((x : X) → P x → (y : Y) × Q y × ((m : ℕ) → g m ≡ some x → f m ≡ some y))
    → Ends f Q
Ends-bind g f P Q (n, x, p, end) k =
    let made = k x p in (n, made.0, made.1, λ m h. made.2 m (end m h))

pub Ends-const :
    {X : Type 0} (f : ℕ → Option X) (P : X → Type 0) (x : X)
    → P x
    → ((m : ℕ) → f m ≡ some x)
    → Ends f P
Ends-const f P x p e = (0, x, p, λ m h. e m)

module _ {S : Type 0} (f : S → Bool × S) where
  until_now : (s : S) → (f s).0 ≡ true → (m : ℕ) → 1 ≤ m → until m f s ≡ some (f s).1
  unfolding until
  until_now s e zero h = absurd (omega arith)
  until_now s e (suc m) h = if_now (f s).0 e
    where
      if_now :
          (b : Bool)
          → b ≡ true
          → (elim b as (λ _. Option S) [ true ↦ some (f s).1 | false ↦ until m f (f s).1 ])
            ≡ some (f s).1
      if_now b e = rw e refl

  until_later :
      (s : S) {s' : S} (n : ℕ)
      → (f s).0 ≡ false
      → ((m : ℕ) → n ≤ m → until m f (f s).1 ≡ some s')
      → (m : ℕ) → suc n ≤ m
      → until m f s ≡ some s'
  unfolding until
  until_later s n e k zero h = absurd (omega arith)
  until_later s {s'} n e k (suc m) h = if_later (f s).0 e (k m (omega arith))
    where
      if_later :
          (b : Bool)
          → b ≡ false
          → until m f (f s).1 ≡ some s'
          → (elim b as (λ _. Option S) [ true ↦ some (f s).1 | false ↦ until m f (f s).1 ])
            ≡ some s'
      if_later b e d = rw e d

module _ {W C : Type 0} (agent : Agent W C) (options : Options) where
  -- From here on the parent answers one of the polls with a request that is approved, and that has
  -- credentials for a kubeconfig.
  pub data Approves (config : C) (id : String) : W → Type 0 where
    now :
        {w : W} (crr : Request) (dedicated : C)
        → (agent.get_request config (generate_cluster_registration_request_name id) w).0 ≡ ok crr
        → is_approved crr ≡ true
        → agent.generate_kube_config (granted agent options crr.status) ≡ ok dedicated
        → Approves config id w
    later :
        {w : W}
        → ((crr : Request)
            → (agent.get_request config (generate_cluster_registration_request_name id) w).0
              ≡ ok crr
            → is_approved crr ≡ false)
        → Approves config id
            (agent.get_request config (generate_cluster_registration_request_name id) w).1
        → Approves config id w

  -- The kubeconfig of a registered agent, and the namespace of its cluster.
  abbrev pub IsRegistered : State W C → Type 0
  IsRegistered st =
      (config : C) × (namespace : String) × (st.parent_config ≡ some config)
      × (st.dedicated_namespace ≡ some namespace)

  module _ (config : C) (id : String) where
    abbrev name : String
    name = generate_cluster_registration_request_name id

    -- The request that ended the polls, and its kubeconfig.
    abbrev pub IsGood : Polling W → Type 0
    IsGood p =
        (crr : Request) × (dedicated : C) × (p.request ≡ some crr)
        × (agent.generate_kube_config (granted agent options crr.status) ≡ ok dedicated)

    next_of :
        (st : Polling W)
        → (poll agent options config id st).1 ≡ record {
          world = (agent.get_request config name st.world).1;
          request = (poll agent options config id st).1.request;
          cluster_name = (poll agent options config id st).1.cluster_name;
        }
    unfolding poll
    next_of st = go (agent.get_request config name st.world).0 refl
      where
        go :
            (r : Result Request)
            → (agent.get_request config name st.world).0 ≡ r
            → (poll agent options config id st).1 ≡ record {
              world = (agent.get_request config name st.world).1;
              request = (poll agent options config id st).1.request;
              cluster_name = (poll agent options config id st).1.cluster_name;
            }
        go (err e) d = rw (poll, d) refl
        go (ok crr) d = rw (poll, d) refl

    goes_on :
        (st : Polling W)
        → ((crr : Request)
            → (agent.get_request config name st.world).0 ≡ ok crr
            → is_approved crr ≡ false)
        → (poll agent options config id st).0 ≡ false
    unfolding poll
    goes_on st h = go (agent.get_request config name st.world).0 refl
      where
        go :
            (r : Result Request)
            → (agent.get_request config name st.world).0 ≡ r
            → (poll agent options config id st).0 ≡ false
        go (err e) d = rw (poll, d) refl
        go (ok crr) d = rw (poll, d) (h crr d)

    pub polls-Ends :
        {w : W}
        → Approves config id w
        → (r : Option Request) (n : String)
        → Ends
            (λ m.
              until m
                (poll agent options config id)
                (record { world = w; request = r; cluster_name = n }))
            IsGood
    unfolding poll
    polls-Ends (now {w} crr dedicated a b c) r n = (
      1,
      (poll agent options config id (record { world = w; request = r; cluster_name = n })).1,
      (crr, dedicated, rw (poll, a) refl, c),
      until_now (poll agent options config id) _ (rw (poll, a) b),
    )
    polls-Ends (later {w} h a) r n =
        let st : Polling W = record { world = w; request = r; cluster_name = n } in
        let f = poll agent options config id in
        let rest = polls-Ends a (f st).1.request (f st).1.cluster_name in
        (
          suc rest.0,
          rest.1,
          rest.2,
          until_later f st rest.0 (goes_on st h) λ m k. ap (until m f) (next_of st) ∙ rest.3 m k,
        )
