-- ===== src/Scheduler/Examples.antt =====
-- Test data for the scheduler of pkg/scheduler: a world that logs calls, three clusters and a
-- framework with a plugin at each extension point.
mod Search
mod Plugins
mod Parts
use clusternet.Prelude.{
  ℕ, String, Bool, true, false, Option, none, some, List, [], ◌∷◌, ◌++◌, Result, ok, err, Message,
  text, same_text, if◌then◌else◌,
}
use clusternet.Prelude.Int.{ℤ, pos}
use clusternet.Scheduler.Api.{Taint, Toleration, ManagedCluster, Subscriber, Subscription}
use clusternet.Scheduler.Status.{Status, Code, unschedulable, wait, skip, error, new_status}
use clusternet.Scheduler.Plugins.{
  FilterPlugin, ScorePlugin, ReservePlugin, BindPlugin, PermitPlugin, ClusterScore,
}
use clusternet.Scheduler.FrameworkImpl.{FrameworkImpl}
use clusternet.Scheduler.Cache.{ClusterLister}

abbrev pub World : Type 0
World = List String

abbrev pub infected : Taint
infected = record { key = "infected"; value = "yes"; effect = "NoSchedule" }

abbrev pub near : ManagedCluster
near = record {
  namespace = "fleet";
  name = "near";
  deleting = false;
  labels = ("zone", "one") ∷ [];
  taints = [];
}

abbrev pub far : ManagedCluster
far = record near { name = "far" }

abbrev pub tainted : ManagedCluster
tainted = record near { name = "tainted"; taints = infected ∷ [] }

abbrev pub leaving : ManagedCluster
leaving = record near { name = "leaving"; deleting = true }

abbrev pub fleet : List ManagedCluster
fleet = near ∷ leaving ∷ tainted ∷ far ∷ near ∷ []

abbrev pub name_of : ManagedCluster → String
name_of c = c.name

abbrev pub web : Subscription String
web = record {
  namespace = "apps";
  name = "web";
  uid = "1";
  deleting = false;
  scheduling_strategy = "Dividing";
  subscribers = record { cluster_affinity = "all" } ∷ [];
  cluster_tolerations = [];
}

abbrev pub refusal : Status
refusal = new_status unschedulable (text "tainted" ∷ [])

abbrev pub no_taints : FilterPlugin World (Subscription String)
no_taints = record {
  name = "NoTaints";
  filter = λ w sub c. elim c.taints [ [] ↦ none | _ ∷ _ ↦ some refusal ];
}

abbrev pub by_name : ScorePlugin World (Subscription String)
by_name = record {
  name = "ByName";
  score = λ w sub k. (if same_text k "far" then pos 3 else pos 1, none);
  normalize_score = none;
}

abbrev pub lock : String → ReservePlugin World (Subscription String)
lock n = record {
  name = n;
  reserve = λ sub clusters w. (none, w ++ n ∷ []);
  unreserve = λ sub clusters w. w ++ n ∷ [];
}

abbrev pub skipper : BindPlugin World (Subscription String)
skipper = record { name = "Skipper"; bind = λ sub clusters w. (some (new_status skip []), w) }

abbrev pub binder : BindPlugin World (Subscription String)
binder = record { name = "Binder"; bind = λ sub clusters w. (none, w ++ "bound" ∷ []) }

abbrev pub gate : PermitPlugin World (Subscription String)
gate = record { name = "Gate"; permit = λ sub clusters w. (some (new_status wait []), pos 60, w) }

abbrev pub small_framework : FrameworkImpl World String
small_framework = record {
  score_plugin_weight = ("ByName", pos 2) ∷ [];
  pre_filter_plugins = [];
  filter_plugins = no_taints ∷ [];
  pre_score_plugins = [];
  score_plugins = by_name ∷ [];
  reserve_plugins = lock "one" ∷ lock "two" ∷ [];
  pre_bind_plugins = [];
  bind_plugins = skipper ∷ binder ∷ [];
  post_bind_plugins = [];
  permit_plugins = gate ∷ [];
  run_all_filters = false;
}

-- Every selector lists the whole fleet.
abbrev pub fleet_lister : ClusterLister String
fleet_lister = record {
  Selector = String;
  label_selector_as_selector = λ s. ok s;
  everything = "";
  list = λ s. ok fleet;
}
