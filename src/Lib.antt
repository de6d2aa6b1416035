-- ===== src/Lib.antt =====
-- The backend of an authentication API in Go: users register, log in and hold a session by a short
-- access token and a refresh token, and administrators list users and read summaries of their
-- recent activity.
--
-- How the parts fit. A request passes the chain of its route (internal/router/router.go): guards
-- (internal/middleware), a handler (internal/handler), the services (internal/service), which use
-- the repositories (internal/repository) over Gorm. The limiter (pkg/ratelimit) and the cache
-- (pkg/cache) keep their state in Redis; summaries come from a language model (pkg/llm). Before every
-- chain stand Recovery, RequestLogger and Audit. cmd/api/main.go reads the configuration (config),
-- opens the connections, ensures an administrator (internal/bootstrap) and serves until a signal.
--
-- How code is modelled. What is outside the program (database, Redis, clock, random source) is a
-- type W, and a call is a function of W that returns a result and the next W (Base/Calls): what was
-- done before an error stays done. The database shows itself to the theorems by a view of its four
-- tables and by its clock (Database/Contract).
--
-- Which file models which part:
--   Domain, Domain/Errors         internal/domain: entities, sentinel errors, repository interfaces
--   Database, Database/Contract   what the code uses of Gorm, the clock, google/uuid, bcrypt, SHA-256
--                                 and crypto/rand: parameters, with their documented behaviour
--   Repository                    internal/repository, one function for each method; Contract is what
--                                 the services rely on, Correct relates the two
--   Hash, Jwt                     pkg/hash/hash.go, internal/service/jwt_service.go; Jwt/Contract is what
--                                 golang-jwt documents, Jwt/Issued is about the tokens that are issued
--   Auth                          internal/service/auth_service.go: Register is register, Login is
--                                 login, and so on; parts of a method have a name of their own where
--                                 a proof speaks of them. Steps is the specification of what calls may
--                                 do to the tables, Trace and Sessions relate the code to it. Access is about
--                                 the access tokens that it gives out, Backends and Works about what it
--                                 grants while its backends answer, Failure about a refresh that fails
--   Auth/Concurrent               the same methods as programs of single statements (Base/Programs), so that
--                                 register_program is Register, and so on. System is how their statements
--                                 come in any order, Rely what a request does and promises then, Alone
--                                 relates the programs to the methods
--   Limiter, Limiter/Script       pkg/ratelimit: RedisLimiter.Allow and the script in Redis; Limiter/Contract
--                                 is what Redis documents, Shared is about the keys of all users at a time
--   Bootstrap                     internal/bootstrap/bootstrap.go
--   Http                          internal/handler/response.go; Guard is auth.go, rbac.go, ratelimit.go
--                                 and brute_force.go of internal/middleware, Handlers is
--                                 internal/handler/auth_handler.go and dto.go, Cache is pkg/cache and
--                                 response_cache.go with what it promises in Isolation, Visits and Fresh,
--                                 Keys and Quota are about the keys of users and their quotas,
--                                 Capture and Replay are its writers, Writer is what Gin documents of
--                                 one, Audit is audit.go, RequestLog is
--                                 request_logger.go, Engine is recovery.go and the three before every
--                                 route, Routes, Probes and Api are internal/router/router.go
--   Llm                           pkg/llm/ollama.go
--   Config                        config/config.go
--   Process                       cmd/api/main.go is Startup, internal/server/server.go is Server, and
--                                 Connect is pkg/database, pkg/redis and pkg/logger
--   Threat                        internal/service/threat_service.go and internal/handler/threat_handler.go
--   Tests and the modules Tests   a database and a platform in memory that meet every contract, and runs
--
-- Choices. A time is a number of nanoseconds and a UUID is the number of its bytes. A token of the
-- limiter is 60000 parts, so that the refill of a millisecond at a rate per minute is exact; the
-- source computes the same in floating point. Calls of the limiter come one after another, on a
-- clock that does not run back. The database keeps times as they are, where TIMESTAMPTZ keeps
-- microseconds. Gin runs a chain until a handler aborts, which is here the bind of calls whose error
-- is the answer. Loops are recursions on the lists they read, and no definition needs fuel.
-- A panic of a handler is a request without a response, and whether what runs behind Auth panics is
-- a parameter. http.Server.Shutdown is a parameter that is given its 10 seconds and returns. What
-- Run waits for is a sequence of events.
-- Requests at the same time are modelled for the authentication service: each call of a repository
-- and each reading of the clock is one statement, which the database runs whole, and hashing and
-- signing are one statement each; between statements any other request may run, new ones arrive, and
-- the process may die (Auth/Concurrent). A system is serving if its threads have arrived and write as
-- the programs do, which every one that this leads to from the start of the process does. Elsewhere
-- calls are sequences.
--
-- Not modelled: Gin's matching of a path to a route, the page of the API documents and docs/docs.go,
-- which swag generates; the texts of log lines but for the fields of the request log, and the response
-- header that repeats the id of a request; negative integers in the configuration; interleavings
-- outside the authentication service, so also callers of the limiter whose clocks differ or who overtake
-- each other; a shutdown that does not return.
mod Base
pub mod Domain
pub mod Database
pub mod Repository
pub mod Hash
pub mod Jwt
pub mod Auth
mod Tests
pub mod Limiter
pub mod Bootstrap
pub mod Http
pub mod Config
pub mod Llm
pub mod Threat
pub mod Process
