-- ===== src/Lib.antt =====
-- Namespace Resizer: a controller that adjusts Kubernetes ResourceQuotas through pull requests.
--
-- For each quota the reconciler (internal/controller) keeps an observation window of its usage, asks
-- Decide (internal/sizing) for a direction and targets, and opens, updates, merges or closes one pull
-- request through a Git provider (internal/git). What it remembers between two rounds stands on a
-- Kubernetes Lease (internal/lock): the open pull request, its direction, three times, the window.
--
-- Which file models which part:
--   Sizing/Decide        Decide, the overflow guard and the report of internal/sizing/decide.go;
--                        Sizing/Decide/Target is targetFor, Sizing/Decide/Gates is shrinkGates
--   Sizing/Names         measureOf, IsCountable (internal/sizing/quantity.go) and resourceFamily
--   Sizing/Quantize      Quantize of internal/sizing/quantity.go
--   Sizing/Policy        Policy, DefaultPolicy, HeadroomFor, MinFor of internal/sizing/policy.go;
--                        Sizing/Policy/Parse is parseScalar, Sizing/Policy/Merge is ParsePolicy
--   Sizing/Deficit       internal/sizing/deficit.go
--   Sizing/Window        internal/sizing/window.go; Sizing/Window/Observe is Observe, Sizing/Window/History is
--                        Peak and IsComplete
--   Git                  branch names, FindOpenPR, directionFromLabels of internal/git/github.go
--   Git/Yaml             applyChangesToYaml and matchesResourceKey of the same file, on yaml.v3's nodes
--   Git/Provider         GitHubProvider of the same file over the calls of the GitHub API; Git/Provider/File
--                        is findQuotaFile, Git/Provider/Create CreatePR, Git/Provider/Update UpdatePR
--                        and GetPRStatus, and Git/Provider/Calls tells its calls apart
--   Git/Simulated        StatefulLogProvider of internal/git/log_provider.go
--   Lock/State           State, stateFromLease, applyStateToLease of internal/lock/state.go
--   Lock/Store           GetState and MutateState of the same file, AcquireLock and ensureLeaseExists
--                        of internal/lock/lease.go, over a client of the API server; Lock/Store/Retry
--                        is what is assumed of retry.RetryOnConflict, Lock/Store/Serial of the server
--   Lock/Collector       cleanup of internal/lock/gc.go
--   Controller/Outside   the Provider interface and PRStatus of internal/git/github.go, and the
--                        other calls of the reconciler, for any type of worlds that answers them
--   Controller/Active    handleActivePR, shrinkPRShouldClose, formatDays of
--                        internal/controller/resourcequota_controller.go
--   Controller/Proposal  handleNewProposal of the same file
--   Controller/Observer  internal/controller/observation.go
--   Controller/Events    mapEventToQuota of internal/controller/resourcequota_utils.go;
--                        Controller/Events/Workloads is calculateWorkloadDeficit and isObjectAlive
--   Controller/Deficits  collectDeficits and resolveQuotaKey of
--                        internal/controller/resourcequota_controller.go
--   Controller/Reconcile Reconcile of the same file, up to the decision
--   Controller/Metrics   recordDecision of internal/controller/metrics.go
--   Controller/OnGithub  the reconciler's Provider when it is GitHubProvider, as cmd/main.go wires it
--   Controller/Dispatch  the end of Reconcile of the same file, from the decision on
--   Startup              the choice of the Provider in cmd/main.go
--   Prelude, Text, GoMap the numbers, Go's strings and strconv as lists of characters, Go's maps as
--                        lists of entries, whose order stands for the order of an iteration
--   Float, Quantity, Clock  interfaces of float64, resource.Quantity and package time with the facts
--                        that the proofs use, each with an instance at which they hold
--
-- An int or int64 is an integer that wraps at 64 bits where the code computes with it; a time is
-- the number of nanoseconds since the zero time. A run of the reconciler leaves the list of the
-- calls that it made; a theorem on it holds for every outside. FindOpenPR reads pages until there is
-- no next one: the model takes a number of rounds, and the theorem says that the number of pages is enough.
--
-- Not modelled: the GitHub API and the Kubernetes API behind the interfaces, the text of YAML and
-- of JSON, the constructors of GitHubProvider, LogOnlyProvider of internal/git/log_provider.go, the
-- flags and the manager of cmd/main.go.
pub mod Prelude
pub mod Text
pub mod GoMap
pub mod Git
pub mod Float
pub mod Quantity
pub mod Clock
pub mod Sizing
pub mod Lock
pub mod Controller
pub mod Startup
