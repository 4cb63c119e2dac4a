-- ===== src/Controllers/ClusterStatus/Ranges.antt =====
-- Where the ranges in a collected status come from, of pkg/controllers/clusters/clusterstatus.
use Prim.Native.Char.{code}
use Prim.Native.String.{◌++◌ as append_text}
use package.text.Mathlib.Text.{starts_with}
use package.text.Mathlib.TextPositions.{starts_with-append}
use clusternet.Prelude.{
  ℕ, String, Bool, true, false, not, ◌&&◌, Option, none, some, List, [], ◌∷◌, ◌++◌, ◌≡◌, refl, sym,
  ap, same_text, ◌==◌, Result, ok, err, arith,
}
use clusternet.Registration.Agent.Labels.{Lacks, split_at-Lacks, split_at-append}
use clusternet.Controllers.ClusterStatus.Network.{
  Container, Pod, value_of, has_space, get_para_value, containers_value, find_pod,
  find_pod_command_parameter, find_cluster_ip_range,
}
use mathlib.Core.Option.{some-injective}
use clusternet.Controllers.ClusterStatus.{
  CollectedStatus, Collector, discover_cluster_cidr, discover_service_cidr,
  collecting_cluster_status,
}

-- Arguments that do not begin with the parameter, and are single words.
abbrev pub AreQuiet : List String → String → Type 0
AreQuiet [] parameter = Unit
AreQuiet (arg ∷ lists) parameter =
    (starts_with arg parameter ≡ false) × (has_space arg ≡ false) × AreQuiet lists parameter

abbrev pub argument : String → String → String
argument parameter value = append_text parameter (String.◌∷◌ "=" value)

get_para_value-AreQuiet :
    (lists : List String) (parameter : String)
    → AreQuiet lists parameter
    → get_para_value lists parameter ≡ some ""
unfolding get_para_value
get_para_value-AreQuiet [] parameter h = refl
get_para_value-AreQuiet (arg ∷ lists) parameter (h, h', hs) =
    rw (get_para_value, h, h') (get_para_value-AreQuiet lists parameter hs)

value_of-argument :
    (parameter value : String)
    → Lacks b'=' parameter
    → Lacks b'=' value
    → value_of (argument parameter value) ≡ some value
unfolding value_of
value_of-argument parameter value h h' =
    rw (value_of, split_at-append b'=' "=" parameter value refl h, split_at-Lacks b'=' value h')
      refl

get_para_value-append :
    (before after : List String) (parameter value : String)
    → AreQuiet before parameter
    → Lacks b'=' parameter
    → Lacks b'=' value
    → get_para_value (before ++ (argument parameter value ∷ after)) parameter ≡ some value
unfolding get_para_value
get_para_value-append [] after parameter value quiet h h' =
    rw (get_para_value, starts_with-append parameter (String.◌∷◌ "=" value))
      (value_of-argument parameter value h h')
get_para_value-append (arg ∷ before) after parameter value (q, q', quiet) h h' =
    rw (get_para_value, q, q') (get_para_value-append before after parameter value quiet h h')

abbrev pub service_range : String
service_range = "--service-cluster-ip-range"

-- The first container of the first pod of the API server has the range as an argument.
abbrev pub HasServiceRange : Collector → String → Type 0
HasServiceRange c value =
    (command before after : List String) × (containers : List Container) × (more : List Pod)
    × (c.pods "component" "kube-apiserver"
        ≡ ok (
            record {
              containers =
                  record {
                    command = command;
                    args_ = before ++ (argument service_range value ∷ after);
                  }
                  ∷ containers;
            }
            ∷ more))
    × AreQuiet command service_range
    × AreQuiet before service_range

-- A test of Lacks.
abbrev lacks : ℕ → String → Bool
lacks sep String.[] = true
lacks sep (String.◌∷◌ c s) = not (code c == sep) && lacks sep s

lacks_of : (sep : ℕ) (s : String) → lacks sep s ≡ true → Lacks sep s
lacks_of sep String.[] h = tt
lacks_of sep (String.◌∷◌ c s) h =
    let both = split_and (code c == sep) h in (both.0, lacks_of sep s both.1)
  where
    split_and : (b : Bool) {x : Bool} → (not b && x) ≡ true → (b ≡ false) × (x ≡ true)
    split_and false h = (refl, h)
    split_and true h = absurd (ground (arith, h))

finds_range :
    (c : Collector) (value : String)
    → HasServiceRange c value
    → Lacks b'=' value
    → same_text value "" ≡ false
    → find_cluster_ip_range c.pods ≡ some (ok value)
unfolding find_cluster_ip_range find_pod_command_parameter find_pod containers_value
finds_range c value (command, before, after, containers, more, listed, quiet, quiet') plain
      nonempty =
    rw
      (
        find_cluster_ip_range,
        find_pod_command_parameter,
        find_pod,
        listed,
        containers_value,
        get_para_value-AreQuiet command service_range quiet,
        get_para_value-append before after service_range value quiet'
            (lacks_of b'=' service_range refl) plain,
        nonempty,
        nonempty,
      )
      refl

-- If the first container of the first pod of the API server has the range of the services as an
-- argument, behind single words that are other parameters, and the range is not empty and has no
-- equals sign, a collected status reports this range as the range of the cluster.
pub collecting-service_range :
    (now : ℕ) (c : Collector) (value : String) (status : CollectedStatus)
    → HasServiceRange c value
    → Lacks b'=' value
    → same_text value "" ≡ false
    → collecting_cluster_status now c ≡ some status
    → status.cluster_cidr ≡ value
unfolding collecting_cluster_status discover_cluster_cidr
collecting-service_range now c value status has plain nonempty =
    go (discover_service_cidr c) refl (finds_range c value has plain nonempty)
  where
    Goal : Type 0
    Goal = collecting_cluster_status now c ≡ some status → status.cluster_cidr ≡ value

    versioned :
        (s : Result String) (v : Result (String × String))
        → discover_service_cidr c ≡ some s
        → find_cluster_ip_range c.pods ≡ some (ok value)
        → c.version ≡ v
        → Goal
    versioned s (err x) e d f = rw (collecting_cluster_status, d, e, f) (λ h. cc)
    versioned s (ok x) e d f =
        rw (collecting_cluster_status, d, e, f)
          λ h. sym (ap (λ (k : CollectedStatus). k.cluster_cidr) (some-injective _ _ h))

    go :
        (s : Option (Result String))
        → discover_service_cidr c ≡ s
        → find_cluster_ip_range c.pods ≡ some (ok value)
        → Goal
    go none e d = rw (collecting_cluster_status, d, e) (λ h. cc)
    go (some s) e d = versioned s c.version e d refl
