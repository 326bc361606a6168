-- ===== src/Lib.antt =====
-- The gateway operator: its data planes and control planes, the checks of their configuration, and the
-- Kubernetes objects that it keeps for them.
--
-- The program is a set of controllers. Each reconciles one kind of resource: it reads the resource,
-- brings the objects that the resource owns to the wanted state, one write per run at most in the
-- usual case, and writes conditions into the status. The admission webhook answers requests of the
-- API server with the same validation that the data plane controller uses.
--
-- Parts and files (paths from the root of the repository):
-- - Prelude: shared names, Boolean tests with their laws, list lemmas, maps as association lists, and
--   the verb %d of fmt.
-- - Api: apis/v1alpha1, and the fields of the Kubernetes objects that the operator uses. Errors:
--   internal/errors, the reasons of API errors that the code asks for, and wrapping.
-- - Status: internal/utils/kubernetes/status.go. set_condition, get_condition, init_ready, set_ready,
--   is_ready, needs_update and the others are SetCondition, GetCondition, InitReady, SetReady, IsReady
--   and NeedsUpdate; the interface ConditionsAware is a record that each resource fills.
-- - Metadata: internal/utils/kubernetes/metadata.go and ownerrefs.go, the label helpers.
-- - Client: the API server as a parameter, and the monad M of the code that calls it. An action is a
--   function from the calls so far to a result and the calls after it; the answer to a call may depend
--   on every call before it, so that nothing is assumed of the server or of others who write to it.
--   Client.Keeps has rules for what holds of each call that some code makes, with the calls before it,
--   Client.Before for what held earlier, and Client.Answers for what code answers on any server.
-- - Outcomes: ctrl.Result. Lists: internal/utils/kubernetes/lists.go.
-- - Base64: encoding/base64 of Go. Validation: internal/validation/dataplane/validation.go, with the
--   loops of getDBModeFromEnv and getDBModeFromEnvFrom as env_loop and env_from_loop.
-- - Admission: handleValidation of internal/admission/server.go, and validator.go; Serving is ServeHTTP.
-- - Authority: caManager of internal/manager/run.go, which makes the CA that the controllers sign with.
-- - Owners, Signing, Certificates: controllers/utils.go. Keys, PEM blocks, x509 and cfssl are the
--   parameter Crypto; sign_certificate and maybe_create_certificate_secret are the two functions.
-- - DataPlanes: Defaults is internal/utils/dataplane/config.go and envvars.go; Generators, Conditions
--   and Owned are controllers/dataplane_controller_utils.go and dataplane_controller_reconciler_utils.go;
--   Reconciler is Reconcile of controllers/dataplane_controller.go, one definition for each stage.
-- - ControlPlanes: Env and Generators are controllers/controlplane_controller_utils.go. Conditions and
--   Owned are controllers/controlplane_controller_reconciler_utils.go: the status, with updateStatus of
--   controlplane_controller.go, and the ensure operations. Roles is the one for the ClusterRole, with
--   internal/utils/kubernetes/resources/zz_generated_clusterrole_helpers.go; RoleRules has the rules of
--   resources/clusterroles, in parts of one file each. Reconciler is Reconcile of
--   controllers/controlplane_controller.go, one definition for each stage, and Cleanup its branch for a
--   control plane that is being deleted, with the two deletion loops. Watch is
--   controllers/controlplane_controller_watch.go.
-- - Gateways: the lists and tests of internal/utils/gateway. Classes, Owned and ensureGatewayMarkedReady
--   in Readiness are controllers/gateway_controller_reconciler_utils.go. Provision has
--   provisionDataPlane and provisionControlPlane of controllers/gateway_controller.go, and Reconciler
--   its Reconcile. Watch is controllers/gateway_controller_watch.go.
-- - Samples: the cluster and the resources of the tests, which stand in the modules named Tests.
--
-- Conventions. Pointers and nil maps are options; a nil slice and an empty one are the same list. A
-- write through a pointer returns the changed value. Times and durations are numbers of nanoseconds
-- from one origin; a difference that Go caps at about 292 years is not capped, since it is only
-- compared with a shorter one. Sums on machine integers do not occur: all constants fit. The order in
-- which Go ranges over the map of defaults is a parameter. sort.Sort is an insertion sort, which may
-- order variables with equal keys, that is equal name and value put together, in another way. The
-- clock and random choices may depend on the calls so far. The loops are structural; only show_count
-- has fuel, one step more than its number, and each step divides that number by ten.
--
-- The controllers meet in the cluster only: the controller of gateways creates the planes and reads
-- whether they are ready from the status that the other two write. A controller takes what it calls
-- outside of the repository as parameters: semver as Semver, the crypto packages as Crypto, and
-- SetOwnerReference and multierror as fields of Outside, net/http and JSON as Transport. Roles are
-- read by the meaning of rules in Kubernetes, network policies by that of policies.
--
-- Not modelled: logs, events, the registration of the controllers and start-up, the generated clients
-- and deep copies, and the generator of the roles, a program of its own that reads another repository.
pub mod Prelude
pub mod Api
pub mod Errors
pub mod Status
pub mod Metadata
pub mod Client
pub mod Lists
pub mod Base64
pub mod Validation
pub mod Authority
pub mod Outcomes
pub mod Owners
pub mod Signing
pub mod Certificates
pub mod DataPlanes
pub mod ControlPlanes
pub mod Admission
pub mod Gateways
pub mod Samples
