-- ===== src/Hub/Examples/Releases.antt =====
-- pkg/hub/deployer/helm/helm.go at a Description that once had another chart. The world is the list of
-- the keys that were asked to be deleted.
use clusternet.Prelude.{
  String, Bool, false, none, some, List, [], ◌∷◌, ◌≡◌, refl, same_text, contains, ok, arith,
  if◌then◌else◌,
}
use clusternet.Hub.Api.{not_found, found, failed, app_finalizer}
use clusternet.Hub.Feeds.{Referent}
use clusternet.Hub.Descriptions.{Description}
use clusternet.Hub.Helm.{Release, HelmApi, populate_helm_release, release_keys}
use clusternet.Hub.Helm.Spares.{KeptBut, populate_helm_release-spares}

abbrev mysql : Referent
mysql = record {
  uid = "uid-mysql";
  namespace = "default";
  name = "mysql";
  deleting = false;
  labels = [];
  finalizers = [];
  phase = "Found";
  raw = "{}";
}

abbrev description : Description
description = record {
  namespace = "ns-a";
  name = "web-helm";
  deleting = false;
  labels = [];
  finalizers = app_finalizer ∷ [];
  owner = ("web", "uid-base");
  deployer = "Helm";
  charts = ("default", "mysql") ∷ [];
  raw = "" ∷ [];
}

abbrev old : Release
old = record {
  namespace = "ns-a";
  name = "redis";
  deleting = false;
  labels = ("apps.clusternet.io/config.kind", "Description") ∷ [];
  finalizers = app_finalizer ∷ [];
  release_name = some "redis";
  spec = "{}";
}

abbrev current : Release
current = record old { name = "mysql"; release_name = some "mysql" }

abbrev helm : HelmApi (List String)
helm = record {
  key = λ ns n. n;
  split = λ j. ok ("ns-a", j);
  generate_helm_release_name = λ d ref. ref.1;
  list_releases = λ w kind n ns uid.
      if same_text kind "Description" then found (old ∷ current ∷ []) else found [];
  get_release = λ w ns n. if same_text n "mysql" then found current else failed not_found;
  get_chart = λ w ns n. found mysql;
  create = λ r w. (none, w);
  update = λ r w. (none, w);
  delete = λ ns n w. (none, n ∷ w);
  reconcile = λ r w. (none, w);
  update_description = λ d w. (none, w);
  list_clusters = λ ns uid. found [];
}

abbrev is_deleted : List String → Bool
is_deleted w = contains "mysql" w

deleted_key :
    (j ns n : String)
    → helm.split j ≡ ok (ns, n)
    → same_text j "mysql" ≡ false
    → same_text n "mysql" ≡ false
deleted_key j ns n e h = cc

kept : KeptBut is_deleted helm "mysql"
kept = record {
  create = λ r w. refl;
  update = λ r w. refl;
  reconcile = λ r w. refl;
  delete = λ j ns n w e h. ground (arith, deleted_key j ns n e h);
}

-- The release of the old chart is deleted, and that of the chart that is there is not.
populate_helm_release-spares_example :
    is_deleted (populate_helm_release helm "Description" "uid-desc" description []).1
    ≡ is_deleted []
unfolding release_keys
populate_helm_release-spares_example =
    populate_helm_release-spares is_deleted helm "mysql" kept "Description" "uid-desc" description
      [] (old ∷ current ∷ []) refl refl
