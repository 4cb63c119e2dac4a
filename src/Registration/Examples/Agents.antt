-- ===== src/Registration/Examples/Agents.antt =====
-- A cluster that registers itself with a parent that knows requests by their names, and reports.
use package.text.Mathlib.TextPositions.{eq_refl}
use clusternet.Prelude.{
  Bool, false, List, ◌⊎◌, Message, contains, ℕ, String, true, Option, none, some, [], ◌∷◌, ◌≡◌, inl,
  inr, refl, Result, ok, err, text, same_text, if◌then◌else◌,
}
use clusternet.Hub.Api.{found}
use clusternet.Utils.Resources.{Trouble, already_exists, trouble}
use clusternet.Utils.Resources.Attempts.{attempts}
use clusternet.Registration.{Secret, Request, request_approved, labelled, api_server_url_key}
use clusternet.Registration.Agent.Names.{
  generate_cluster_registration_request_name, no_status, new_cluster_registration_request,
}
use clusternet.Registration.Agent.{
  Agent, State, register_self_cluster, bootstrap_credentials, is_approved, granted,
}
use clusternet.Registration.Agent.Ends.{Ends, Approves, now, IsRegistered}
use clusternet.Registration.Agent.Registers.{register_self_cluster-Ends}
use clusternet.Registration.Reports.{Parent, accepted, update_cluster_status, report, try_report}
use clusternet.Registration.Reports.Writes.{IsKept, update_cluster_status-IsKept}
use clusternet.Registration.Examples.{once, once-IsTrying, near, options}

-- An agent whose stored token is refused. A kubeconfig is its token.
abbrev approved : Request
approved = record near {
  status = record no_status { result = some request_approved; dedicated_token = some "dedicated" };
}

abbrev stale : Secret
stale = record {
  meta = labelled [];
  data_ = (api_server_url_key, "https://parent") ∷ ("token", "stale") ∷ [];
}

-- The parent knows the names of the requests that were created, and approves those.
abbrev create_name : String → Request → List String → Option Trouble × List String
create_name config r names =
    if same_text config "stale"
    then (some (trouble (text "Unauthorized")), names)
    else if contains r.meta.name names
    then (some already_exists, names)
    else (none, r.meta.name ∷ names)

abbrev look_up : String → List String → Result Request
look_up name names =
    if contains name names
    then ok (record approved { meta = record approved.meta { name = name } })
    else err (text "not found")

abbrev agent : Agent (List String) String
agent = record {
  generate_kube_config = λ c. ok c.token;
  random_name = "x1y2z";
  get_cluster_id = λ w. (ok "u1", w);
  get_secret = λ w. (found stale, w);
  create_request = create_name;
  get_request = λ config name w. (look_up name w, w);
  create_secret = λ s w. (none, w);
  update_secret = λ s w. (none, w);
}

abbrev fresh : State (List String) String
fresh = record {
  world = [];
  cluster_id = none;
  cluster_name = "";
  parent_config = none;
  dedicated_namespace = none;
  try_secret = true;
}

-- The request of the agent for a cluster.
abbrev asked : String → String → Request
asked id name = new_cluster_registration_request options id name

approves :
    (config id : String) (w : List String)
    → contains (generate_cluster_registration_request_name id) w ≡ true
    → Approves agent options config id w
unfolding is_approved granted
approves config id w h =
    now
      (record approved {
        meta = record approved.meta { name = generate_cluster_registration_request_name id };
      })
      "dedicated" (rw h refl) refl refl

create_name-Approves :
    (config id name : String) (w : List String)
    → same_text config "stale" ≡ false
    → Approves agent options config id (create_name config (asked id name) w).1
      × (((create_name config (asked id name) w).0 ≡ none)
          ⊎ ((create_name config (asked id name) w).0 ≡ some already_exists))
unfolding new_cluster_registration_request
create_name-Approves config id name w h =
    go (contains (generate_cluster_registration_request_name id) w) refl
  where
    go :
        (b : Bool)
        → contains (generate_cluster_registration_request_name id) w ≡ b
        → Approves agent options config id (create_name config (asked id name) w).1
          × (((create_name config (asked id name) w).0 ≡ none)
              ⊎ ((create_name config (asked id name) w).0 ≡ some already_exists))
    go true e = rw (h, e) (approves config id w e, inr refl)
    go false e =
        rw (h, e)
          (
            approves config id (generate_cluster_registration_request_name id ∷ w)
                (rw (eq_refl (generate_cluster_registration_request_name id)) refl),
            inl refl,
          )

may_approve :
    (config id : String) (w : List String) (name : String)
    → ((e : Message) × ((create_name config (asked id name) w).0 ≡ some (trouble e)))
      ⊎ Approves agent options config id (create_name config (asked id name) w).1
may_approve config id w name = go (same_text config "stale") refl
  where
    go :
        (b : Bool)
        → same_text config "stale" ≡ b
        → ((e : Message) × ((create_name config (asked id name) w).0 ≡ some (trouble e)))
          ⊎ Approves agent options config id (create_name config (asked id name) w).1
    go true h = inl (text "Unauthorized", rw h refl)
    go false h = inr (create_name-Approves config id name w h).0

register_self_cluster-Ends_example :
    Ends (λ m. register_self_cluster agent options 2 m fresh) (IsRegistered agent options)
unfolding bootstrap_credentials
register_self_cluster-Ends_example =
    register_self_cluster-Ends agent options "bootstrap" refl refl refl
      (λ id w name. create_name-Approves "bootstrap" id name w refl) may_approve (λ w. ("u1", refl))
      (λ w. inr (stale, refl)) fresh

-- A manager whose parent has the cluster under its label, and takes any status.
abbrev parent : Parent Unit ℕ
parent = record {
  list = λ labels w. (ok (record { name = "near"; status = none } ∷ []), tt);
  update_status = λ c w. (accepted c, tt);
  get = λ name w. (err (text "not found"), tt);
  collected = λ w. (some 7, tt);
}

update_cluster_status-IsKept_example :
    IsKept parent (update_cluster_status parent once "u1" none tt)
unfolding update_cluster_status attempts report try_report
update_cluster_status-IsKept_example =
    update_cluster_status-IsKept parent once "u1" none tt once-IsTrying refl
