-- ===== src/Registration/Reports.antt =====
-- pkg/agent/status_manager.go and pkg/agent/deployer/deployer.go: the agent reports the status of its
-- cluster, and sends the credentials of its deployer. The clients and the wait are parameters; `S` is
-- a collected status.
pub mod Writes
use clusternet.Prelude.{
  String, Bool, true, false, Option, none, some, List, [], ◌∷◌, Result, ok, err, Message, text,
  if◌then◌else◌,
}
use clusternet.Hub.Api.{cluster_id_label, created_by_label, app_finalizer, label}
use clusternet.Utils.Resources.{Trouble, already_exists, trouble, Trying, Backoff}
use clusternet.Registration.{
  Secret, labelled, clusternet_agent_name, auto_update_annotation, cluster_bootstrapping_label,
  token_key, ca_key, api_server_url_key,
}
use clusternet.Registration.Rbac.{Client, may_auto_update}
use clusternet.Registration.Requests.{Refusal, conflict, refusal, refusal_message}

-- A ManagedCluster of the parent.
pub record Reported (S : Type 0) : Type 0 where
  pub name : String
  pub status : Option S

-- The answer to a write of the status.
pub data Written (S : Type 0) : Type 0 where
  accepted : Reported S → Written S
  refused : Refusal → Written S

pub record Parent (W S : Type 0) : Type 0 where
  pub list : List (String × String) → W → Result (List (Reported S)) × W
  pub update_status : Reported S → W → Written S × W
  pub get : String → W → Result (Reported S) × W
  -- The status that the collector has, which changes with time.
  pub collected : W → Option S × W

-- What the closure and the manager share: the cluster, and the world.
abbrev pub Managing : Type 0 → Type 0 → Type 0
Managing W S = Reported S × W

module _ {W S : Type 0} (parent : Parent W S) where
  -- A conflict: the cluster is read again, and its error replaces that of the write.
  unfoldable pub read_again : Reported S → Message → W → Bool × Trying (Managing W S)
  read_again cluster m w =
      let (answer, w') = parent.get cluster.name w in
      elim answer [
        | err e ↦ (false, record { world = (cluster, w'); last_error = some e })
        | ok mcls ↦ (false, record { world = (mcls, w'); last_error = none })
      ]

  -- The closure of updateClusterStatus.
  unfoldable pub try_report : Trying (Managing W S) → Bool × Trying (Managing W S)
  try_report st =
      let (status, w') = parent.collected st.world.1 in
      elim status [
        | none ↦ (
          false,
          record {
            world = (st.world.0, w');
            last_error = some (text "cluster status is not ready, will retry later");
          },
        )
        | some s ↦
            let written = record st.world.0 { status = some s } in
            let (answer, w'') = parent.update_status written w' in
            elim answer [
              | accepted mcls ↦ (true, record { world = (mcls, w''); last_error = none })
              | refused (conflict m) ↦ read_again written m w''
              | refused (refusal m) ↦
                  (false, record { world = (written, w''); last_error = some m })
            ]
      ]

  -- The cluster that the manager keeps, and whether the report was made.
  unfoldable pub report : Backoff (Managing W S) → Reported S → W → Bool × (Option (Reported S) × W)
  report backoff cluster w =
      let (done, st) = backoff try_report (record { world = (cluster, w); last_error = none }) in
      (done, (some st.world.0, st.world.1))

  unfoldable pub update_cluster_status :
      Backoff (Managing W S) → String → Option (Reported S) → W → Bool × (Option (Reported S) × W)
  update_cluster_status backoff id (some cluster) w = report backoff cluster w
  update_cluster_status backoff id none w =
      let (answer, w') = parent.list ((cluster_id_label, id) ∷ []) w in
      elim answer [
        | err e ↦ (false, (none, w'))
        | ok [] ↦ (false, (none, w'))
        | ok (cluster ∷ more) ↦ report backoff cluster w'
      ]

-- The secret of createDeployerCredentialsToParentCluster.
unfoldable pub deployer_secret : String → String → String → Secret → Secret
deployer_secret id namespace url child = record {
  meta =
      record (labelled (
        (created_by_label, clusternet_agent_name)
        ∷ (cluster_id_label, id)
        ∷ (cluster_bootstrapping_label, "credentials-auto")
        ∷ [])) {
          name = "child-cluster-deployer";
          namespace = namespace;
          annotations = (auto_update_annotation, "true") ∷ [];
          finalizers = app_finalizer ∷ [];
        };
  data_ =
      (ca_key, label ca_key child.data_)
      ∷ (token_key, label token_key child.data_)
      ∷ ("service-account.name", label "kubernetes.io/service-account.name" child.meta.annotations)
      ∷ ("service-account.uid", label "kubernetes.io/service-account.uid" child.meta.annotations)
      ∷ (api_server_url_key, url)
      ∷ [];
}

-- The closure of its wait: whether it cancels the wait.
unfoldable pub send_credentials : {W : Type 0} → Client W Secret → Secret → W → Bool × W
send_credentials client secret w =
    let (answer, w') = client.create secret w in
    elim answer [
      | none ↦ (true, w')
      | some (trouble e) ↦ (false, w')
      | some already_exists ↦ elim (client.get w' secret.meta.namespace secret.meta.name) [
        | err e ↦ (false, w')
        | ok sct ↦ elim (may_auto_update sct.meta) [
          | false ↦ (false, w')
          | true ↦
              let (failure, w'') = client.update secret w' in
              elim failure [ none ↦ (true, w'') | some e ↦ (false, w'') ]
        ]
      ]
    ]
