-- ===== src/Lib.antt =====
-- A task service in Go, in layers: entities, use cases over ports, and adapters. Modelled are the
-- parts that decide: what may happen to a task and what of it is kept, who may do what, which
-- sessions stand, what a cache and an event bus keep. Paths are from the root of the repository.
--
-- The files and what they model:
--   Base: lists, tests, texts as bytes, maps as association lists, integers; what the rest shares.
--   Domain/Error: the errors of internal/domain; a Go function that returns a value and an error is a
--     function into `Result`.
--   Domain/Status, Domain/Priority: internal/domain/valueobject/task_status.go and priority.go.
--   Domain/Task: internal/domain/entity/task.go, one function per method (complete for Complete), which
--     returns the new record; with Transitions, Labels and Lifecycle for its theorems.
--   Domain/Role, Domain/User, Domain/Acl: role.go, permission.go, resource_type.go, user.go and
--     acl_entry.go of internal/domain/entity. bcrypt is a parameter.
--   Cache/Memory: internal/infrastructure/cache/memory/cache.go. Each method holds the mutex, so that a
--     call is one step on the store; `cleanup` is one tick of the goroutine.
--   Cache/Keys, Cache/Port: the keys and the port of internal/application/port/output/
--     cache_repository.go. The laws of the port are what the sessions rely on, and `memory_repository`
--     shows that the in-memory cache keeps them.
--   Auth/Rbac: internal/auth/rbac/authorizer.go.
--   Auth/Acl: internal/auth/acl/checker.go over the port ACLRepository, and the port over a table as
--     internal/infrastructure/database/repository/acl_repository.go and its queries read it.
--   Auth/Jwt: internal/infrastructure/auth/jwt/token_service.go. golang-jwt and google/uuid are
--     parameters whose laws say that what was signed or printed is read back.
--   Auth/Sessions: internal/application/usecase/auth/auth_usecase.go over its ports, in Sessions/Ports,
--     with internal/application/dto/user_dto.go: an operation takes
--     the state of the cache, the database and the published events to a new one and a result.
--   Labels: internal/application/usecase/label/label_usecase.go over its port, and the port over a
--     table as internal/infrastructure/database/repository/label_repository.go and its queries read it;
--     the entity is Domain/Label. Rows and Unique hold theorems.
--   Domain/Event, Domain/TaskAttachment: internal/domain/event/task_events.go and
--     internal/domain/entity/task_attachment.go.
--   Cache/Aside: GetJSON and SetJSON of the cache over encoding/json, which Base/Json describes.
--   Tasks: internal/application/usecase/task/task_usecase.go over its ports, in Tasks/Ports: Writing
--     (CreateTask, UpdateTask, DeleteTask), Editing (AssignTask to RemoveLabel), Reading, Attachments
--     and Filename. QueryBuilder is internal/infrastructure/database/querybuilder/task_queries.go on the
--     rows of Schema. Table is the ports over tables as internal/infrastructure/database/repository/
--     task_repository.go and its queries read them, with Uncalled for what no use case calls. Calls,
--     Fresh, Files, ListKeys, Rows, Scanned, Stored, Uploads and Valid hold theorems.
--   Users: internal/application/usecase/user/user_usecase.go, in Operations, Reading and Seeding,
--     with Caches, Fresh and Sessions for its theorems; and Roles for
--     internal/application/usecase/rbac/role_usecase.go.
--   Users/Tables: the rows and queries of users, roles and permissions (internal/infrastructure/
--     database/sqlc/users.sql.go and roles.sql.go), with UserRepository and RoleRepository for
--     internal/infrastructure/database/repository/user_repository.go and role_repository.go. Pairs,
--     Synced and Assigned hold theorems.
--   Workers: internal/application/worker/event_consumer.go and task_attachment_cleanup_handler.go. The
--     loop of a goroutine is a relation, since a stop may end it at any time.
--   Messaging/EventBus: internal/infrastructure/messaging/memory/eventbus.go.
--   Service: the use cases over one state, as internal/infrastructure/factory/factory.go wires them.
--   Rest: internal/transport/rest. Response and Query are presenter/response.go and handler/common.go;
--     Guards is withAuth and the like of router.go, internal/auth/middleware.go and checkACL; Replies
--     has the ends that handlers share; TaskHandlers, UserHandlers, AuthHandlers and LabelHandlers have
--     a function for each method of a handler; Router has the routes of registerRoutes. Refusals,
--     Access, Locked and Pages hold theorems.
--   Graphql: internal/transport/graphql. Mapping is mappers.go, Resolver is resolver.go and handler.go,
--     Mutations and Queries are schema.resolvers.go, and Schema puts them together. Access and
--     Escalation hold theorems.
--   Tests: the theorems at concrete inputs, and concrete functions for the libraries.
--
-- How they meet: the sessions call the token service and the cache port; the claims that a token
-- carries are the names and permissions that RBAC reads; the ACL checker and RBAC read the entities.
-- The use case of tasks calls the methods of the entity, and hands its events to the event bus, from
-- which a worker takes the requests to delete files. The use case of users and the authentication keep
-- their keys in one cache. A request of REST or GraphQL is a function on the state of the whole: it
-- reads the claims by the use case of the authentication, and calls one use case on its part.
--
-- Conventions: `time.Now()`, `uuid.New()` and the salt of bcrypt are arguments, and an operation reads
-- the clock once. Times are nanoseconds since Go's zero time. An id is a number, the nil id 0. A counter
-- of the cache is its bit pattern, below 2 ^ 64. No definition takes fuel: every loop is over a list.
-- A channel of the event bus holds at most 100 events, as in the source.
--
-- Calls of one component come one after another. The cache answers every call: the errors of Redis,
-- which callers drop, are left out. The repository of users writes a user and then its roles without a
-- transaction; here a call that fails has no tables after it, so that a partial write is left out.
-- The index on LOWER(name) of migrations/000002_add_unique_index_for_labels_lower_name.up.sql is a
-- part of the table of labels.
--
-- The tables of users and roles list a join in the order of the pairs, and a query that fails for
-- another reason than a key is left out.
--
-- Not modelled: gRPC, which is left for later, and WebSocket, SSE, Socket.IO and the subscriptions of
-- GraphQL, which keep connections open; the storage and Kafka and Redis clients, generated code,
-- logging and configuration, which move data and decide nothing.
pub mod Base
pub mod Domain
pub mod Cache
pub mod Auth
pub mod Messaging
pub mod Labels
pub mod Tasks
pub mod Users
pub mod Service
pub mod Rest
pub mod Graphql
pub mod Workers
pub mod Tests
