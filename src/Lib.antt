-- ===== src/Lib.antt =====
-- A verification of Linea-server, the multi-tenant gRPC server in front of Linea-core: who may
-- do what with which genealogy, the database of users, genealogies, memberships and bans, the
-- bounded cache of open stores, quotas and rate limits.
--
-- Parts, and where they are modelled:
-- - Result, Result/Exec: Go's `(value, error)` as a sum, with the server's error codes, and
--   handlers as functions from a state to a result and a state. What a handler wrote before it
--   failed stays.
-- - Platform/Types, Platform/Json: internal/platform/types.go; the records, and the JSON of
--   them.
-- - Platform/Badger: what is used of the Badger database: reads, prefix scans and atomic writes,
--   an argument of the model with the laws of a consistent key-value store. Tests/Memory fills
--   it.
-- - Platform/Keys, Platform/Store, Platform/Counters: internal/platform/store.go and
--   counters.go.
-- - Authz: internal/authz/resolver.go, the decision and its cache.
-- - Tenants: internal/tenants/manager.go, the LRU of open stores. Linea-core's stores are an
--   argument.
-- - Quotas: internal/quotas/quotas.go. Ratelimit: internal/ratelimit/ratelimit.go.
-- - Auth: internal/auth/auth.go, with NewVerifier in Auth/Discovery; go-oidc's discovery of an
--   issuer and verification of a token are arguments.
-- - Config: internal/config/config.go; the environment is an argument.
-- - Interceptors: internal/interceptors/interceptors.go, with the chain and the table of roles
--   of internal/server/server.go.
-- - Service: internal/service: deps.go and resolver.go in Service itself, genealogies.go in
--   Service/Genealogies, platform_mappers.go in Service/PlatformMappers, the messages in
--   Service/Proto, proposals.go in Service/Proposals, entities.go in Service/Entities, queries.go
--   in Service/Queries, server.go in Service/Version, mappers.go in Service/Mappers and
--   Service/EntityMappers with the messages in Service/EntityMessages. Linea-core is an argument,
--   Service/Core, whose values are in Service/Model. Service/Consistent carries the invariant of
--   the stored data and the decision cache through the handlers, by the rules of
--   Result/Exec/Triple; Service/Hidden is about what is kept from a caller.
-- - Server: New and Close of internal/server/server.go, and the start of cmd/lineasrv/main.go. What
--   it calls of other libraries is an argument, Calls.
-- - Tests: the interfaces filled by concrete stores, and the theorems at concrete inputs.
--
-- How the parts meet: a call passes the interceptors, which give its handler an identity. A
-- handler of Service resolves the caller's role with Authz, which reads the Platform store, then
-- writes that store, drops cached decisions, and opens or drops stores with Tenants; quotas are
-- counters of the Platform store.
--
-- Conventions. Each reading of a clock is an argument, since two readings in one handler may
-- differ; a platform time is its Unix seconds. A map of Go is a list of pairs with no promise on
-- its order. Strings are compared and cut as Go does, by bytes that are valid UTF-8. Machine
-- integers wrap as written (`u64_mod`). A handler of Service runs as a whole, no two handlers
-- interleave; in Tenants the critical sections of its calls interleave in every order. Loops are
-- structural; evictLocked's runs for one round per cached store at most, which is enough since
-- each round removes one. The token bucket counts in
-- `float64`, whose operations are an argument (Prelude/Float64) with the laws of IEEE 754; its
-- theorems are about one reading of the clock, where the roundings of the refill play no part.
--
-- Not modelled: the generated code of gen/, Run of internal/server, which waits for its
-- listeners, and the signals of cmd/lineasrv; logging; what go-oidc, Badger and the gateway do
-- when they are called; and what Linea-core does in a store.
pub mod Prelude
pub mod Result
pub mod Config
pub mod Platform
pub mod Authz
pub mod Tenants
pub mod Quotas
pub mod Ratelimit
pub mod Auth
pub mod Interceptors
pub mod Service
pub mod Server
pub mod Tests
