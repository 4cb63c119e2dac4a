-- ===== src/Lib.antt =====
-- Clusternet: the scheduler of pkg/scheduler, which chooses the clusters that a Subscription is
-- deployed to; the deployer and the localizer of pkg/hub, which turn Subscriptions into Bases, and
-- Bases into Descriptions with overrides; the helpers of pkg/utils that apply Descriptions to
-- clusters; the controllers of pkg/controllers; and the registration of clusters by
-- pkg/hub/approver and pkg/agent.
--
-- The program's parts and their files:
-- - pkg/scheduler/scheduler.go takes subscriptions from a queue and runs one cycle for each: it
--   asks the algorithm for clusters, then calls the extension points Reserve, Permit,
--   WaitOnPermit, PreBind, Bind and PostBind of the framework. Scheduler/Cycle has scheduleOne,
--   its goroutine, bind, recordSchedulingFailure and truncateMessage; a run is the list of its
--   actions. Scheduler/Cycle/Protocol has the state machine of a cycle. Scheduler/Handlers has the
--   handlers of addAllEventHandlers.
-- - pkg/scheduler/algorithm/generic.go lists, filters and scores the clusters. Scheduler/Algorithm
--   has findClustersThatPassFilters and what it uses, Scheduler/Schedule the rest up to Schedule.
-- - pkg/scheduler/framework/runtime/framework.go calls the plugins. Scheduler/Filter,
--   Scheduler/Chain, Scheduler/Framework, Scheduler/Score, Scheduler/Permit and
--   Scheduler/PostFilter have its Run functions, Scheduler/Assembly updatePluginList and the
--   weights, Scheduler/FrameworkImpl the struct. registry.go beside it is Scheduler/Registry,
--   waiting_susbcriptions_map.go is Scheduler/Waiting.
-- - pkg/scheduler/framework/interfaces has the status values (Scheduler/Status), the merging of
--   statuses (Scheduler/Merge) and the plugin interfaces (Scheduler/Plugins).
-- - pkg/scheduler/framework/plugins: helper/normalize_score.go is in Scheduler/Score, the in-tree
--   plugins are Scheduler/TaintToleration and Scheduler/DefaultBinder.
-- - pkg/scheduler/cache and pkg/scheduler/parallelize are Scheduler/Cache and
--   Scheduler/Parallelize. The API types are Scheduler/Api, as far as they are read.
-- - pkg/hub/deployer/deployer.go handles Subscriptions, Bases, Manifests and HelmCharts. Hub/Bases
--   has handleSubscription up to deleteBase, with the laws of the client in Hub/Bases/Store;
--   Hub/Feeds has the labels on referred feeds, Hub/Descriptions handleBase, populateDescriptions,
--   syncDescriptions and resyncBase, and Hub/Protection handleManifest, handleHelmChart and
--   utils.go beside them. The API types are Hub/Api. generic/generic.go below it is Hub/Generic,
--   helm/helm.go is Hub/Helm.
-- - pkg/hub/localizer is Hub/Localizer, which populateDescriptions calls through the parameter
--   apply_overrides.
-- - pkg/utils: slice.go is Utils/Slice, feed.go is Utils/Feed, and deployer.go is Utils/Resources
--   (what is applied and deleted, with retries) and Utils/Deployer (who deploys, lost clusters,
--   GetOverrides).
-- - pkg/controllers/clusters: clusterlifecycle is Controllers/ClusterLifecycle, clusterstatus is
--   Controllers/ClusterStatus, with network.go in Controllers/ClusterStatus/Network.
-- - pkg/controllers/apps and pkg/controllers/misc/secret: what the controllers repeat is
--   Controllers/Work, written once; the handlers of events and the sync handlers are in
--   Controllers/Apps, one file for one or two controllers. They hand objects to the handlers of
--   Hub, which are a parameter.
-- - pkg/hub/approver/approver.go is Registration/Approver, with the objects that it makes in
--   Registration/Approver/Objects; the controller that calls it,
--   pkg/controllers/clusters/clusterregistrationrequest, is Registration/Requests, and
--   pkg/utils/rbac.go is Registration/Rbac.
-- - pkg/agent/agent.go is Registration/Agent, with names and labels in Registration/Agent/Names. A
--   round of a wait is a function that says whether it cancels the wait.
--   pkg/agent/status_manager.go and pkg/agent/deployer/deployer.go are Registration/Reports.
--
-- How code and model correspond: a plugin is a record of functions on a world `W`, which stands
-- for all that plugins read and change. Filter and Score read the world; the others return a new
-- one. nil statuses are `none`. Errors keep the values that their text is formatted from. Maps are
-- association lists. int32 and int64 keep their wrap-around (Prelude/Int). Workers that run at the
-- same time are an arbitrary order of pieces of work, each of which counts as one step; events
-- from other goroutines are lists. Loops are structural recursion, so that no fuel is needed, but
-- for the two waits of the agent: they are run for a number of rounds, and
-- Registration/Agent/Registers says which number is enough. A panic is an error, or `none` in
-- Controllers/ClusterStatus.
--
-- Goroutines of the hub that are waited for run in order here. The caches of the hub's listers are
-- functions that do not change during one handler where the handler reads them as one snapshot,
-- and functions of the world elsewhere. A wait with backoff is a parameter;
-- Utils/Resources/Attempts says that it tries its closure at least once and then again after
-- failures, so that no bound is chosen.
--
-- Parameters: the listers and selectors of Kubernetes, the taint helpers of component-helpers,
-- sorting, hashing, the square root, the work queue, the clients, JSON, YAML and the patch
-- libraries, and the names that package fmt makes.
--
-- Not modelled: metrics, logs, tracing, contexts that are cancelled from outside, leader election
-- and process set-up; and the rest of the repository: the Helm library's part of pkg/utils, the
-- exchanger and the sockets, the constructors and loops of the controllers, the API server
-- plumbing and the generated clients.
--
-- The witnesses and their data are in Scheduler/Examples, Hub/Examples, Utils/Examples,
-- Controllers/Examples and Registration/Examples.
pub mod Prelude
pub mod Controllers
pub mod Hub
pub mod Registration
pub mod Scheduler
pub mod Utils
