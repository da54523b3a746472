-- ===== src/Lib.antt =====
-- A verification library for the API of the platform (apps/api): a multi-tenant registry of tribes,
-- persons and their paternal lines, which members change through reviewed requests.
--
-- The parts, and the files that model them:
--   * Domain, Database: the shared vocabulary (packages/shared-types/src, apps/api/prisma/schema.prisma)
--     and the rows of one tenant. Row-level security confines each statement to the tenant, so its
--     column is left out; the assignments of roles, which are outside of it, keep theirs. A table is
--     a list of keys with a partial function from keys to rows.
--   * Lineage: apps/api/src/modules/lineage, the closure table of the paternal lines. Lineage/Chain
--     says what the table stands for, Lineage/Rows and Lineage/Moves follow the SQL statements, and
--     Lineage/Writes the helpers of the service (onCreate, onFatherChange, onSoftDelete).
--     Lineage/Rebuild has the recursive query of rebuildForTenant, Lineage/Reading the read paths
--     getAncestors, getDescendants and getTree.
--   * Persons: apps/api/src/modules/persons. Persons/Fields has the transfer objects, names and
--     dates, Persons/Writes the functions createInTx, updateInTx, softDeleteInTx, and
--     Persons/Consistency what holds of the live data between transactions.
--   * Patches: apps/api/src/common/util/json-patch.ts.
--   * ChangeRequests: apps/api/src/modules/change-requests. Requests, PublishPerson, PublishUnion,
--     PublishUnit and Publisher follow change-request.publisher.ts; Store follows the repository;
--     Service and Review follow change-request.service.ts; Maintenance follows the sweeps of
--     apps/api/src/modules/jobs. Lifecycle has the states of a request as a step
--     relation, each step with the operation that takes it; Calls is about the calls after a commit.
--   * Reputation: apps/api/src/modules/reputation, the counters of contributors.
--   * Auth: apps/api/src/modules/auth, login with lockout and families of refresh tokens.
--   * Unions: apps/api/src/modules/unions, marriages on record.
--   * Imports: apps/api/src/modules/imports. Parsing, Resolving, Cycles and Pipeline follow
--     import-parse.service.ts, Ordering, Transfer and Applying follow import-apply.service.ts, and
--     Service follows import.service.ts; Publication puts the importer into the change request
--     service, and Rollback is about `rollback`.
--   * Subscriptions: apps/api/src/modules/subscriptions, the caps of the plans and who asks for them.
--   * ViewRequests: apps/api/src/modules/view-requests; TribalUnits: apps/api/src/modules/tribal-units.
--   * Visibility: apps/api/src/modules/visibility/visibility.resolver.ts, the decisions on a given
--     context of a viewer; Visibility/Context what buildContext collects from the assignments
--     and the queue of expandSubtrees, Visibility/Assigned what each assignment is for, and
--     Visibility/Viewer the whole of buildContext.
--   * Rbac: apps/api/src/common/rbac and common/guards/policy.guard.ts. Rbac/Guard is the guard,
--     Rbac/Scope its walk up the units, Rbac/Reaching which assignments reach a unit, and
--     Rbac/Granting whom it lets through; the units are given for each tenant.
--
-- How they interact: the publisher writes through the functions of Persons, which keep the closure
-- table of Lineage; the service runs the publisher in a transaction, counts decisions in Reputation
-- and stores notifications. What it calls of the imports module and of the visibility resolver is
-- the record `Ports` of ChangeRequests/Service, a parameter, and so is the error that a call after
-- the outcome of a review may meet; Imports/Publication gives the part of the imports. The importer writes through Persons as the publisher does, and `rollback` deletes
-- persons and rebuilds the table of Lineage. The reads of Lineage ask Visibility whom they may show.
-- The clock, the parser of dates, the sanitizer of biographies and the text similarity of the
-- database are the record `Env`; the two queries for names of the parser are `NameSearch`.
--
-- A call that may throw is a function from the state to a result and the state that it leaves, also
-- where it throws; a transaction puts the old state back (Common/Results). Identifiers are natural
-- numbers that a counter issues, instants are milliseconds, strings are lists of code points, and a
-- rate of the reputation is a fraction where the code has a floating-point quotient.
--
-- Some loops of the code have no bound of their own and are functions on fuel here, with `none` where
-- it runs out: the walk up the tribal units in the guard and the queue of the visibility resolver
-- down them (Rbac/Scope and Visibility/Fuel say how much is enough); the search for cycles in a file,
-- for which the number of the rows is enough (Imports/Cycles/Ends); the queue of the order of the
-- rows, with one step for each row and each edge (Imports/Ordering/Queue); and the rounds of the
-- recursive query, one more than the longest chain of fathers (Lineage/Rebuild). All other loops are
-- over lists.
--
-- Not modelled: lists with paging and search, exports, statistics and documents, the readers of the
-- spreadsheets, the upload of files, the activation of plans, settings of tenants, access tokens, the
-- delivery of notifications and of progress, the checks of the request bodies by the framework,
-- foreign keys of persons to tribal units in the writers of persons, JSON arrays in patches,
-- failures of the database itself (but for the notifications, counts and audit entries that follow
-- the outcome of a review, which may throw), concurrent transactions (each runs on its own here), and
-- the web and mobile clients.
pub mod Common
pub mod Domain
pub mod Imports
pub mod Lineage
pub mod Database
pub mod Persons
pub mod Patches
pub mod ChangeRequests
pub mod Rbac
pub mod Reputation
pub mod Auth
pub mod Subscriptions
pub mod ViewRequests
pub mod TribalUnits
pub mod Unions
pub mod Visibility
