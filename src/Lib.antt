-- ===== src/Lib.antt =====
-- A model of csi-test, the conformance suite for drivers of the Container Storage Interface: what
-- its specs ask of a driver, how it keeps track of the volumes and snapshots that it makes, and
-- the mock driver that it is tried on.
--
-- The parts and their files:
--   * Spec: the language of the specs. A spec reads an environment, calls the driver, and is done,
--     failed, skipped or panicked in the end. Spec/Keeps has one invariant rule for each way to
--     build a spec.
--   * Csi, Rpc: the messages, and each remote call as a step of a spec. The driver under test is a
--     record of functions of the calls made so far (Csi/Client), so any deterministic driver, with
--     any state of its own, is one. Messages have the fields that the suite sets or reads.
--   * Config, Setup: pkg/sanity/sanity.go and util.go. Setup/Connections has the connections that
--     Setup opens and reuses and that Finalize closes, Setup/Paths the directories and CheckPath,
--     Setup/Context the steps of Setup and Teardown. Files, YAML, commands and the operating system
--     are parameters.
--   * Connect: utils/grpcutil.go, Connect with its loop; its three outcomes are what Setup and the
--     mock driver go by. net/url, and what a connection of grpc reports, are parameters.
--   * Resources: pkg/sanity/resources.go. Every call that makes or frees a volume or a snapshot
--     goes through it; Resources/Cleanup is Cleanup, which frees what is left from the last to the
--     first. Resources/Refinement has the bag of IDs that the list of managed resources stands for, and
--     Resources/Concurrent the methods of one manager in several goroutines, as a step relation.
--     Resources/Tracking follows what the manager should know, by ID alone, as its list does;
--     Resources/Liveness what exists, by kind and ID, and where a driver that gives a volume and a
--     snapshot one ID makes the two differ, for which Resources/Cleanup/Forgotten has an example.
--   * Requests, Capability, Assert, Controller: pkg/sanity/controller.go; one definition for each
--     spec.
--   * Node: pkg/sanity/node.go; Node/Full/Calls says what each call does to a volume, for the order of
--     the calls in Node/Full/Order. Identity: pkg/sanity/identity.go.
--   * Suite: plans of specs, one after the other, each between the BeforeEach that makes a resource
--     manager and the AfterEach that cleans up. Ginkgo shuffles the top-level Describes, so a plan is
--     any list of specs of the suite, in any order; it also says for each spec whether its manager has a
--     NodeClient, which the one of ExpandVolume has not. Suite/Arguments has the specs that leave
--     out a required field, with what decides their results; Suite/Acceptance what a driver does that
--     keeps to the interface, and the specs about volumes and snapshots with such a driver.
--   * Ginkgo, Registry: pkg/sanity/tests.go, and NewTestContext, GinkgoTest and Test of sanity.go: the
--     tests as trees of hooks and specs, their registration, and the order in which Ginkgo runs the
--     parts of a spec.
--   * Command: cmd/csi-sanity/main.go, the flags, the checks of the configuration and the exit status.
--   * Driver: driver/driver.go, driver-node.go and driver-controller.go, the authentication, the log
--     line of a call and the life cycle of the mock drivers; Driver/Mock is driver/mock.go.
--   * Endpoint: internal/endpoint/endpoint.go, Parse and Listen, on lists of code points.
--   * Proxy: internal/proxy/proxy.go, accept and the loop that joins connections; Proxy/Run is what
--     Run opens before its loop, and Close.
--   * Examples: runs at concrete inputs.
--
-- Correspondence: a Go method `createVolume` is `create_volume` and so on. A spec has a name that
-- says what it asks; the comment of its file names the Describe that it stands in. A pointer that
-- may be nil is an Option, an error is its gRPC code and whether it is a status, an int64 wraps
-- around (Prelude/Int). A volume or snapshot is called live in the results if the last successful
-- call that makes or deletes one of its kind with its ID has made it, where a publication of a volume
-- counts as making it; a deletion of the other kind with the same ID leaves it live.
--
-- Bounds and fuel: the loops of the specs recurse on lists and counts. itoa has fuel, one more
-- than the number, which is at least its count of digits, and the loop of the proxy one more than
-- what comes in at the first endpoint, of which each round but the last takes some. The loop of
-- Connect has a round for each change of the connection's state; its fuel is enough if it is more than
-- the number of changes before the context, which has a minute, is done.
--
-- Not modelled: Ginkgo beyond the order of the hooks within a spec and of the specs within their
-- registration: the random order in which it runs the top-level Describes, its focus, skips by
-- name and reports; a failure of os.Remove in the clean-up of a proxy's socket, whose error the
-- code drops, and any effect of the creation and the removal of directories beyond what they
-- return; contexts and deadlines other than that of Connect; the text of log lines other than
-- those of logGRPC; a Cleanup in the middle of calls from other goroutines; the bytes that the
-- proxy copies; the mocks that mockgen generates (driver/driver.mock.go); the wrapper for gomock
-- of utils/safegoroutinetester.go. The disabled pagination spec of ListVolumes
-- (Controller/Volumes/Pagination) is no part of the suite. The BeforeEach of the node specs makes
-- its resource manager last: where it fails before that, AfterEach cleans up with the manager of
-- the node spec before, while here each spec starts with a new one. The guard in the BeforeEach
-- of a Describe is the first step of its specs.
pub mod Prelude
pub mod Csi
pub mod Config
pub mod Spec
pub mod Rpc
pub mod GoText
pub mod Requests
pub mod Capability
pub mod Resources
pub mod Assert
pub mod Controller
pub mod Identity
pub mod Node
pub mod Suite
pub mod Driver
pub mod Setup
pub mod Examples
pub mod Endpoint
pub mod Proxy
pub mod Connect
pub mod Ginkgo
pub mod Registry
pub mod Command
