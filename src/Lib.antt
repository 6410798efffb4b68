-- ===== src/Lib.antt =====
-- A model of the database-user-operator, a Kubernetes operator that creates a database and a user
-- for each custom resource of kind Database, and stores the credentials in AWS Secrets Manager.
--
-- The parts and how they interact. The controller (internal/controller/database_controller.go)
-- fetches an object, adds its finalizer, and calls reconcileDatabase or, for an object that is
-- being deleted, reconcileDelete. Both read the administrator's connection string, open a client
-- for the database server (internal/database) and work through its interface, and read and write
-- secrets through a client for one AWS region (internal/secrets). The object in memory is changed
-- in place on the way; its status is written at the end.
--
-- Base: shared names of the library, and what the source takes from Go: texts with the functions
--   of the package strings, numbers with strconv, maps as lists of entries, errors and results.
-- Api: the types of api/v1alpha1/database_types.go that the program reads; Api/Schema the
--   validation markers of its fields, as tests.
-- World: every call that leaves the program as a value, and the environment, which gives the
--   reply to each call. A reply may depend on all the calls before it, so that an environment may
--   keep any state, fail at any call and change between two calls. Functions of libraries whose
--   result is only passed on (url.Parse, json, template) are fields of the environment too. Nothing
--   is assumed about an environment but in the hypotheses of single theorems.
-- Effects: functions as state passing actions that return a value or an error, with the calls
--   made so far as their state; Keeps, Avoids, Happened, Chain, Ensures, Triples and Fails are the
--   rules for invariants, kinds of calls, calls that were made, calls one behind the other,
--   postconditions, what an action reaches from what it finds, and failures.
-- Errors: the classification of errors in the controller and the error types of internal/secrets.
-- Database: internal/database. Quote and Sql are the statements of postgres.go and mysql.go with
--   the quoting of names and values, for which Quote/RoundTrip takes the scanners of the servers as
--   a parameter, Password is GeneratePassword, Connection the parsing of connection strings, Client
--   the interface Client of interface.go with its two implementations and NewClient of factory.go.
--   Client/Handles reads off the calls which handles are open, Client/Dropped which databases and
--   users are gone, Client/Granting the statements of a granted right, and Client/Given which
--   password the server accepted for a user.
-- Secrets: internal/secrets/aws_secrets_manager.go. Region is ValidateRegion, Json the JSON of a
--   secret with and without a template, Json/Fields the keys of its fields, Client the methods of
--   AWSSecretsManagerClient; Client/Stored reads off the calls which value a secret has, and
--   Client/Writes what the methods leave there.
-- Controller: internal/controller/database_controller.go. State is the object in memory with the
--   calls; Spec reads defaults; Message is normalizeErrorMessage, and Message/RequestIds is about
--   texts with a request id; Tags are the functions on tags; Source is getConnectionString; Store
--   is storeCredentialsInAWS, with the secret that it leaves in Store/Stored and the move to
--   another region in Store/Moved; Resources is reconcileDatabase; Delete is reconcileDelete,
--   Delete/Gone and Delete/Ended read off the calls what is gone when it ends; Metrics is
--   internal/controller/metrics.go; Admitted is about a spec that passes the markers; Reconcile is
--   Reconcile, and Reconcile/Untouched is about the objects for which it leaves the database server
--   and AWS alone, and Reconcile/Forgotten about what it does behind an error. Lifecycle is the
--   life of one object in the API server: a relation of steps, of which a user takes some (to
--   create, edit and delete the object, and to take its finalizers away) and Reconcile the others,
--   with a flag that says whether a user took that of the operator, and with the documented
--   behaviour of the API server as an interface; a reconciliation is one step, so that a request of
--   a user does not come between its calls. A function of the source that is long is cut into
--   several, at its branches.
-- Manager: main of cmd/manager/main.go and SetupWithManager, as the requests to the libraries
--   that set the manager up, with their replies as a parameter; Coverage is cmd/manager/coverage.go
--   with the goroutines of startCoverageFlusher and coverageRunnable as a relation of steps, a
--   flush being one of them.
-- Tests: runs on concrete inputs.
--
-- Bounds. Generations, lengths and delays in seconds are naturals; ports are integers, as in the
-- source. Loops are structural recursion. The decimal digits of a number are computed on fuel,
-- for which the number itself is enough since each step divides by ten. Maps are lists with their
-- entries in some order, where Go leaves the order open.
--
-- Not modelled: logs, contexts and cancellation, timeouts, flags and the logger of
-- cmd/manager/main.go, the generated deep copies, the Helm chart and the manifests. Concurrent
-- reconciliations are not modelled: the controller works on one object at a time per key, and
-- calls of others show as changes of the environment.
pub mod Base
pub mod Errors
pub mod Api
pub mod Database
pub mod World
pub mod Effects
pub mod Secrets
pub mod Controller
pub mod Manager
mod Tests
