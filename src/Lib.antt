-- ===== src/Lib.antt =====
-- The vSphere provider extension of Gardener: the configurations that it admits, and the NSX-T
-- infrastructure of a shoot cluster.
--
-- A cloud profile, a shoot and a secret are admitted by the validation (pkg/apis/vsphere/validation,
-- pkg/validator). The infrastructure controller (pkg/controller/infrastructure) reads them, prepares
-- the spec of a shoot's network, has the ensurer create or delete it, and keeps the ensurer's state in
-- the status of the infrastructure, from which the other controllers read the places of the zones.
--
-- The ensurer (pkg/vsphere/infrastructure/ensurer/ensurer.go) creates and deletes the network of a
-- shoot cluster on NSX-T: it runs a list of tasks (pkg/vsphere/infrastructure/task) over a state of
-- references to NSX-T objects (pkg/apis/vsphere/types_infrastructure.go), which the caller stores.
-- Each task finds the objects of the tasks before it by these references, ensures its own object
-- through the policy API or the manager ("Advanced") API, and records it. A reference that is lost
-- is recovered by the tags of the object.
--
-- Base: Boolean tests, lists over the native naturals, and the names of the library.
-- Tags: containsTags, mergeTags and TagsToMap of task/helpers.go, containsCommonTags and
--   mergeCommonTags of task/tasks_advanced_dhcp.go.
-- Text: the functions of Go's strings and strconv that the code calls.
-- Cidr: cidrHost, cidrHostAndPrefix and cidrSubnetMask of task/helpers.go, with net.ParseCIDR for IPv4.
-- Authorization: CheckShootAuthorizationByTags of task/taskhelper.go.
-- Fallible: Go's pairs of a result and an error.
-- Profile: pkg/apis/vsphere/types_cloudprofile.go, and the searches of helper/helper.go.
-- Validation: the errors of a field and their lists. Validation/Profile is validation/cloudprofile.go,
--   Validation/ControlPlane controlplane.go, Validation/Infrastructure infrastructure.go,
--   Validation/Secret secrets.go, Validation/Shoot shoot.go, all of pkg/apis/vsphere/validation;
--   Validation/Admission is pkg/validator/shoot_validator.go.
-- LoadBalancer: pkg/apis/vsphere/types_controlplane.go and OverwriteLoadBalancerClasses, which changes
--   the configuration of its caller: functions that call it return the configuration as it is left.
-- Credentials: pkg/vsphere/credentials.go.
-- Actuator: actuator_reconcile.go and actuator_delete.go of pkg/controller/infrastructure. The world
--   beside the status is that of the ensurer; the check of the connection, the patch of the status and
--   the clean-up of load balancers are parameters.
-- Worker: machines.go and machine_images.go of pkg/controller/worker, Worker/Machines being
--   generateMachineConfig; the maps of chart values are records.
-- ControlPlane: the values of the configuration and of the storage classes, of
--   pkg/controller/controlplane/valuesprovider.go.
-- Infra/State, Infra/Object: the state, the spec and the NSX-T objects, a nil pointer being `none`.
--   The ids, paths and counts of NSX-T's answers and the two parts of a tag, which the API always
--   sets, are not options.
-- Infra/Action: what a call does. It takes the outside world and the state and gives both back, after
--   an error too; `panic` is a nil dereference.
-- Infra/Service, Infra/Context: the vendored API clients, the clock, the order in which a map is
--   walked and the generators of ids, all of them parameters.
-- Infra/Lookup, Infra/Dhcp, Infra/Equality, Infra/Resource: task/taskhelper.go, and what the tasks on
--   the policy API have in common.
-- Infra/Gateway, Infra/Locale, Infra/Network, Infra/Realize: the tasks of task/tasks.go.
-- Infra/Managed, Infra/Advanced: the tasks of task/tasks_advanced_dhcp.go.
-- Infra/Task, Infra/Ensurer: the tables of the tasks' methods, and the runs over all tasks.
-- Infra/Converge: a task that finds its object as it updated it.
-- Infra/Deletion: what the deletion leaves in the state.
-- Infra/Safety: what a run over all tasks leaves, from lemmas for each task.
--
-- A second call of a task by itself, after it cleared its own reference, is written as the creation
-- that it comes to. The task of the locale service clears another reference, so its calls of itself
-- run on fuel. So do the loops over pages and the wait for the SNAT address, which the source does
-- not bound by a count; `exhausted` says that the fuel of the context ran out. The bound for
-- the recovery by tags is in Infra/Lookup/Laws, that for the wait in Infra/Realize/Laws; a timeout of
-- 15 seconds needs 151 rounds.
--
-- Answers of the API server, decoders and the functions of Gardener and Kubernetes are parameters. An
-- answer stays the same during one request. The codes of DHCP options are not negative.
--
-- Left out are log lines, texts of errors, the constant descriptions of objects, the connection itself
-- (connector.go, apiclient.go, get_nsxt_version.go, vapilogger.go), generated code, the other values
-- of the control plane, the webhooks, health checks and commands, and the writing of charts and of the worker's
-- status.
pub mod Base
pub mod Fallible
pub mod Tags
pub mod Text
pub mod Cidr
pub mod Authorization
pub mod Infra
pub mod Profile
pub mod Credentials
pub mod LoadBalancer
pub mod Validation
pub mod Actuator
pub mod Worker
pub mod ControlPlane
