-- ===== src/Lib.antt =====
-- ninja-devx: typed controllers and resource policies for Django Ninja. This library models the
-- parts of the package that decide something: who may act, which request owns an effect, what a
-- worker stores, which objects are built, and which rows an operation changes.
--
-- Permissions (Permissions.antt and its children) models src/ninja_devx/_permission_eval.py, its
-- async twin _permission_eval_async.py, security/permissions.py, security/permission_leaf.py and
-- the two user lookups of security/auth.py.
--   Defs: a permission leaf through the methods that its class overrides, and the leaf checks
--     (`leaf_allows`, `aleaf_allows`). A check is a plain or a coroutine function.
--   Eval: `_evaluate` with its loop, `denied`, `adenied`, `check_permissions`,
--     `check_object_permissions`, `requires_async`. The two evaluators are one text over two leaf
--     checks, and one definition here, `evaluate`, that takes the leaf check.
--   Logic: three-valued truth and the permission to blame, as a description of their own.
--   User, Builtin, Owner: `request_user` and `arequest_user`, the built-in permissions, `IsOwner`.
--   Checks are functions of the request and the object. What `arequest_user` stores on the request
--   is modelled in User, and not threaded through one evaluation. Translation of messages,
--   `PolicyPermission`, and the lookup of a controller's model are not modelled.
--
-- Idempotency (Idempotency.antt) models idempotency/store.py, policy.py and models.py.
--   Store: rows, `Claim.finish`, and `acquire` as its two statements `get_or_create` and `contend`,
--     so that other requests may run between them. A digest, a token and an instant are numbers.
--     A replayed response has Django's default content type where none was stored.
--   Policy: `Policy.before`, `idempotent`. The two SHA-256 hashes are parameters.
--   Ownership: the step relation of concurrent requests. Replay, Separation: what retries
--     get. Headers: the headers of a replayed response, by name.
--   The decorator that calls `finish` after the view is not modelled.
--
-- Jobs (Jobs.antt) models contrib/jobs/runner.py, models.py, the cancel operation of api.py and
-- `devx_jobs retry`.
--   Defs: rows and conditional updates. Run: `run_job`; what the job function does is an argument,
--     for each try the updates made to the row while it runs (progress, cancellation) and its
--     ending. A run is the table that it leaves, also where the error of a result that JSON cannot
--     store leaves `run_job`. The loop recurses on the retries that are left: there is no fuel.
--   Cancel, Outcomes, Verdict, Stops: the theorems. Interrupts: a try in which the job is cancelled.
--
-- Webhooks (Webhooks.antt) models contrib/webhooks/outbox.py and the models of models.py.
--   Defs: rows, subscriptions, the audience check. Publish: `publish`,
--     which stores its deliveries in batches of 500.
--   Deliver: the claim, and `settle`, the transaction of `_attempt`. Loop: `deliver_due`; its loop
--     body `deliver_one` claims, sends and settles. A turn says what other workers change between
--     these statements. An exception carries the outbox as committed by then. The loop recurses on
--     the list of due keys.
--   Kept, Runs: the properties that every change of a row keeps, and that a whole run keeps then.
--   Promises, Lease, Settle, Audience, Patterns, Targets: the theorems. Batches: the batches of
--     `publish` as one list.
--   The transport is a parameter. Signatures, encryption of secrets and the management API are not
--   modelled, and neither is a second database.
--
-- Transitions (Transitions.antt) models crud/transitions.py and `get_object` of crud/controllers.py.
--   Defs: `perform_transition`, `run_transition` with `refresh`, and `allowed_transitions` over a
--     table of rows; the state field, the scope of a request and the permissions of an operation
--     are given. They use the checks of Permissions.
--   Listing, States: the listing against the operations.
--   The async twins and the installation of the routes are not modelled.
--
-- Throttling (Throttling.antt) models http/throttling.py.
--   Defs: `parse_rate` over the code points of a rate, the cache storage, `allow_request`. A cache
--     key is a number, given by a function of the identity, the duration and the window.
--   Rates, Windows: the theorems. The subclasses that find an identity are not modelled.
--
-- Bulk (Bulk.antt) models crud/bulk.py, `refresh` of crud/controllers.py and the transaction of
-- crud/writes.py.
--   Defs: calls that keep what they changed when they raise, `atomic`, and a controller at one
--     request with the methods it may override. Objects: `get_objects`, `refresh_many`, `refresh`.
--     Operations: `bulk_create`, `bulk_update` and `bulk_destroy`, with their partial variants.
--     Lookups and primary keys are numbers; of an error entry the index and the status are kept.
--   Rollback, Results, Fetched: the theorems. The schemas of the payloads, the async twins (which
--     run the sync operations) and the choice of a database are not modelled.
--
-- Dependencies (Dependencies.antt) models dependencies/container.py, engine.py and state.py.
--   Defs: providers and the container's questions. Engine: `ResolutionEngine.resolve`. Checker:
--     `DependencyChecker.check`. Container: `register`, `instance`, `override`, the waiting tasks.
--   A key, a factory and an object are numbers; what Python's inspection says of annotations and
--     signatures is a parameter. The two recursions and the loop of `track_waiter` are on fuel, and
--     Refines, Termination and Waiters show how much is enough. Factories return; what a resolution
--     that raises has changed by then is not modelled, nor is the async resolution but for the
--     table of its waiting tasks.
--   Graph: the dependency graph. Sound, Scopes, Provides, Resolves: the steps to the refinement.
--   Lifetimes, Overrides: what a singleton and an override keep.
--
-- SoftDelete (SoftDelete.antt) models crud/soft_delete.py.
--   Defs: the configuration and its resolution, `perform_destroy` and `perform_restore` on rows that
--     are tables of field values, and the filter of active rows. Restore: the theorems.
--   The restore route and `soft_delete_unique` are not modelled.
--
-- Tenancy (Tenancy.antt) models security/tenancy.py.
--   Defs: the lookup of a request's tenant, sync and async. Cached: the theorems. Resolvers return;
--     what they and the container say is given.
--
-- ApiKeys (ApiKeys.antt) models contrib/apikeys/auth.py, models.py and api.py.
--   Defs: rows, creation, rotation, revocation, `_authenticate`. An instant is a number of
--     microseconds; SHA-256 and a user's `is_active` are parameters, and what the random generators
--     draw is an argument. Scopes: `HasScopes`, and the rate that Throttling's `allow_request`
--     reads. Manage: the operations of `APIKeyController`.
--   Parse, Created, Accepted, Grants, Owners: the theorems on single operations. Steps: the tables
--     that requests go through, from which Revoked and Limits follow.
--
-- Prelude holds what the parts share: outcomes of calls, tests, lists, text, and database tables by
-- primary key (`Table`), where `update` is a queryset's `filter(...).update(...)` on one row.
-- Django, Ninja and the database are not modelled beyond that.
mod Prelude
pub mod Permissions
pub mod Idempotency
pub mod Jobs
pub mod Webhooks
pub mod Transitions
pub mod SoftDelete
pub mod Tenancy
pub mod Throttling
pub mod ApiKeys
pub mod Bulk
pub mod Dependencies
