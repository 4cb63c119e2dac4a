-- ===== src/Registration/Agent.antt =====
-- pkg/agent/agent.go: the agent of a child cluster registers it with the parent. The clients, the
-- functions that make a kubeconfig and a random name are parameters; the waits end when their closure
-- cancels them, and the outer context is not done.
pub mod Names
pub mod Ends
pub mod Attempts
pub mod Registers
pub mod Labels
use clusternet.Prelude.{
  ℕ, zero, suc, String, Bool, true, false, Option, none, some, List, [], ◌∷◌, same_text, find, put,
  Result, ok, err, Message, text, about, if◌then◌else◌,
}
use clusternet.Hub.Api.{
  Failure, not_found, other, Answer, found, failed, cluster_id_label, cluster_name_label, label,
}
use clusternet.Utils.Resources.{Trouble, already_exists, trouble}
use clusternet.Registration.{
  Request, RequestStatus, Secret, request_approved, request_denied, request_failed, token_key,
  ca_key, api_server_url_key, labelled, cluster_bootstrapping_label,
}
use clusternet.Registration.Agent.Names.{
  Options, new_cluster_registration_request, generate_cluster_registration_request_name,
  generate_cluster_name,
}

-- The address, the token and the certificate that a kubeconfig is made from.
pub record Credentials : Type 0 where
  pub url : String
  pub token : String
  pub ca : Option String

-- `C` is a kubeconfig.
pub record Agent (W C : Type 0) : Type 0 where
  pub generate_kube_config : Credentials → Result C
  pub random_name : String
  pub get_cluster_id : W → Result String × W
  pub get_secret : W → Answer Secret × W
  pub create_request : C → Request → W → Option Trouble × W
  pub get_request : C → String → W → Result Request × W
  pub create_secret : Secret → W → Option Trouble × W
  pub update_secret : Secret → W → Option Message × W

pub record State (W C : Type 0) : Type 0 where
  pub world : W
  pub cluster_id : Option String
  pub cluster_name : String
  pub parent_config : Option C
  pub dedicated_namespace : Option String
  pub try_secret : Bool

-- A wait on a closure that says whether it cancelled the context, in `n` rounds at most: `none` when
-- it goes on.
unfoldable pub until : {S : Type 0} → ℕ → (S → Bool × S) → S → Option S
until zero f s = none
until (suc n) f s =
    let rest = until n f (f s).1 in elim (f s).0 [ true ↦ some (f s).1 | false ↦ rest ]

-- What the wait for the approval shares: the request that was read last, and the cluster's name.
pub record Polling (W : Type 0) : Type 0 where
  pub world : W
  pub request : Option Request
  pub cluster_name : String

unfoldable pub is_approved : Request → Bool
is_approved crr = elim crr.status.result [
  | none ↦ false
  | some request_approved ↦ true
  | some request_denied ↦ false
  | some request_failed ↦ false
]

module _ {W C : Type 0} (agent : Agent W C) (options : Options) where
  -- The closure of waitingForApproval.
  unfoldable pub poll : C → String → Polling W → Bool × Polling W
  poll config id st =
      let (answer, w') =
        agent.get_request config (generate_cluster_registration_request_name id) st.world in
      elim answer [
        | err e ↦ (false, record st { world = w' })
        | ok crr ↦ (
          is_approved crr,
          record {
            world = w';
            request = some crr;
            cluster_name = elim (find cluster_name_label crr.meta.labels) [
              | none ↦ st.cluster_name
              | some name ↦ name
            ];
          },
        )
      ]

  -- The credentials that an approved request carries.
  unfoldable pub granted : RequestStatus → Credentials
  granted status = record {
    url = options.parent_url;
    token = elim status.dedicated_token [ none ↦ "" | some t ↦ t ];
    ca = status.ca_certificate;
  }

  -- `none` while it waits, else the error or nil and the agent.
  unfoldable pub waiting_for_approval :
      ℕ → C → String → State W C → Option (Option Message × State W C)
  waiting_for_approval polls config id st =
      elim (until polls (poll config id)
        (record { world = st.world; request = none; cluster_name = st.cluster_name })) [
          | none ↦ none
          | some p ↦ elim p.request [
            | none ↦ none
            | some crr ↦ elim (agent.generate_kube_config (granted crr.status)) [
              | err e ↦ some (some e, record st { world = p.world; cluster_name = p.cluster_name })
              | ok dedicated ↦ some (
                none,
                record st {
                  world = p.world;
                  cluster_name = p.cluster_name;
                  parent_config = some dedicated;
                  dedicated_namespace = some crr.status.dedicated_namespace;
                },
              )
            ]
          ]
        ]

  unfoldable pub bootstrap_credentials : Credentials
  bootstrap_credentials = record {
    url = options.parent_url;
    token = options.bootstrap_token;
    ca = none;
  }

  -- Exitf, which ends the process, is an error here.
  unfoldable pub get_bootstrap_kube_config : State W C → Result C
  get_bootstrap_kube_config st = elim st.parent_config [
    | some config ↦ ok config
    | none ↦ elim (same_text options.parent_url "") [
      | true ↦ err (text "please specify a parent cluster url by flag --%s")
      | false ↦ elim (same_text options.bootstrap_token "") [
        | true ↦ err (text "please specify a token for parent cluster accessing by flag --%s")
        | false ↦ elim (agent.generate_kube_config bootstrap_credentials) [
          | err e ↦ err (about "error while creating kubeconfig: %v" "" e)
          | ok config ↦ ok config
        ]
      ]
    ]
  ]

  unfoldable pub bootstrap_cluster_registration_if_needed :
      ℕ → String → State W C → Option (Option Message × State W C)
  bootstrap_cluster_registration_if_needed polls id st = elim (get_bootstrap_kube_config st) [
    | err e ↦ some (some e, st)
    | ok config ↦
        let (answer, w') =
          agent.create_request config
            (new_cluster_registration_request options id
              (generate_cluster_name agent.random_name options st.cluster_name))
            st.world in
        elim answer [
          | none ↦ waiting_for_approval polls config id (record st { world = w' })
          | some already_exists ↦ waiting_for_approval polls config id (record st { world = w' })
          | some (trouble e) ↦ some (
            some (about "failed to create ClusterRegistrationRequest: %v" "" e),
            record st { world = w' },
          )
        ]
  ]

  -- The kubeconfig that the stored secret gives, where it is for the same parent.
  unfoldable pub use_secret : Secret → State W C → State W C
  use_secret secret st =
      if same_text (label api_server_url_key secret.data_) options.parent_url
      then elim (agent.generate_kube_config (record {
        url = options.parent_url;
        token = label token_key secret.data_;
        ca = find ca_key secret.data_;
      })) [ err e ↦ st | ok config ↦ record st { parent_config = some config } ]
      else st

  -- The rest of the closure of registerSelfCluster: whether it cancels the wait.
  unfoldable pub attempt : ℕ → String → State W C → Option (Bool × State W C)
  attempt polls id st = elim (bootstrap_cluster_registration_if_needed polls id st) [
    | none ↦ none
    | some p ↦ elim p.0 [
      | some e ↦ some (false, record p.1 { try_secret = false; parent_config = none })
      | none ↦ some (true, p.1)
    ]
  ]

  unfoldable pub with_secret : ℕ → String → State W C → Option (Bool × State W C)
  with_secret polls id st = elim st.try_secret [
    | false ↦ attempt polls id st
    | true ↦
        let (answer, w') = agent.get_secret st.world in
        elim answer [
          | failed (other m) ↦ some (false, record st { world = w' })
          | failed not_found ↦ attempt polls id (record st { world = w' })
          | found secret ↦ attempt polls id (use_secret secret (record st { world = w' }))
        ]
  ]

  unfoldable pub register_round : ℕ → State W C → Option (Bool × State W C)
  register_round polls st = elim st.cluster_id [
    | some id ↦ with_secret polls id st
    | none ↦
        let (answer, w') = agent.get_cluster_id st.world in
        elim answer [
          | err e ↦ some (false, record st { world = w' })
          | ok id ↦ with_secret polls id (record st { world = w'; cluster_id = some id })
        ]
  ]

  -- `none` when it has not ended after so many rounds, or waits for more polls in one of them.
  unfoldable pub register_self_cluster : ℕ → ℕ → State W C → Option (State W C)
  register_self_cluster zero polls st = none
  register_self_cluster (suc rounds) polls st = elim (register_round polls st) [
    | none ↦ none
    | some (true, st') ↦ some st'
    | some (false, st') ↦ register_self_cluster rounds polls st'
  ]

  unfoldable pub credentials_secret : String → Request → String → Secret
  credentials_secret id crr cluster_name = record {
    meta =
        record (labelled (
          (cluster_bootstrapping_label, "credentials-auto")
          ∷ (cluster_id_label, id)
          ∷ (cluster_name_label, cluster_name)
          ∷ [])) { name = "parent-cluster" };
    data_ =
        (ca_key, elim crr.status.ca_certificate [ none ↦ "" | some c ↦ c ])
        ∷ (token_key, elim crr.status.dedicated_token [ none ↦ "" | some t ↦ t ])
        ∷ ("namespace", crr.status.dedicated_namespace)
        ∷ (api_server_url_key, options.parent_url)
        ∷ [];
  }

  -- The closure of storeParentClusterCredentials.
  unfoldable pub store_round : Secret → W → Bool × W
  store_round secret w =
      let (answer, w') = agent.create_secret secret w in
      elim answer [
        | none ↦ (true, w')
        | some (trouble e) ↦ (false, w')
        | some already_exists ↦
            let (failure, w'') = agent.update_secret secret w' in
            elim failure [ none ↦ (true, w'') | some e ↦ (false, w'') ]
      ]
