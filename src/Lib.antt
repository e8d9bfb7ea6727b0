-- ===== src/Lib.antt =====
-- A model of the document API: uploads, their storage and their processing by a worker.
--
-- A client uploads a document (internal/service/document_service.go). The service checks it, stores
-- its bytes through an object storage (internal/storage), writes a row of the table documents
-- (internal/repository) and sends a job through a queue of Redis lists (internal/queue/redis.go). A
-- worker (internal/service/document_worker.go) takes the job, claims the row, hashes the object and
-- marks the row ready or failed. Requests come in through internal/router: a user logs in
-- (internal/service/auth_service.go) and gets an access token (internal/auth/jwt.go), which the
-- middleware asks for, and a refresh token, which is traded for a new pair once.
--
--   * Prelude: numbers, lists, integers (Prelude/Int) and maps that the parts share.
--   * Text: byte texts, with the functions of strings, path and strconv that the source calls
--     (Text/Segments, Text/Path, Text/Decimal,
--     Text/Numeral, Text/Hex).
--   * Errors: pkg/errors/errors.go, the chains of errors and the catalogue of codes.go.
--   * Exec: calls that change a state and may return an error; what was written before the error stays.
--   * Domain: internal/domain, with Domain/Pagination and Domain/Status.
--   * Ports: the interfaces of internal/domain/ports.go, over the state of the world behind them.
--   * Upload: `maxBytesReader` and `countingReader` of document_service.go over scripted readers, and
--     io.Copy over any reader.
--   * Sql: the tables of migrations/list, and the queries of internal/repository/db/documents.sql.go
--     (Sql/Documents) as functions on the table.
--   * Repository: internal/repository/document_repository.go over these queries.
--   * Storage: `validateKey`, `validS3Prefix` of internal/config/config.go, the storage in a directory
--     of internal/storage/local.go (Storage/Local) and the adapter internal/storage/s3.go.
--   * Documents: `DocumentService`. `create` is Create, `get` is Get, and so on.
--   * Queue: `RedisQueue` over a list backend.
--   * Worker: `DocumentWorker`; `process` is Process, `run` is Run.
--   * Sql/Auth and Repository/Auth: the users and refresh sessions of internal/repository/db/auth.sql.go
--     and internal/repository/auth_repository.go, with the transaction of the rotation.
--   * Tokens: `JWTManager` and ExtractBearerToken of internal/auth/jwt.go, and the passwords of
--     internal/auth/password.go. `sign`, `validate` and the others have the source's names.
--   * Validator: pkg/validator/validator.go.
--   * Accounts: `AuthService`; `register`, `login`, `refresh`, `logout` and `me` are its methods.
--   * Http: pkg/errors/gin.go, internal/middleware and internal/handler (Http/Documents, Http/Auth). A
--     handler maps a state to a response and the state after it.
--   * Router: internal/router/router.go, the table of the routes.
--   * Resources: internal/app/resources.go, the connections of a process and their release.
--   * Config: internal/config/config.go; Config/Load is Load, Config/Check is Validate.
--   * Migrations: cmd/migration/main.go and migrations/list, over a table of migrations and a schema.
--   * Tests: the theorems at concrete inputs.
--
-- Code outside the repository is a parameter: the random keys, the hash function, the texts of
-- the errors of PostgreSQL, the Unicode tables of strings.ToLower, the decoder of encoding/json,
-- the Redis lists (their documented behaviour is Queue/Laws), the S3 client, golang-jwt (its
-- documented behaviour is Tokens/Pairs), the files of os (theirs is Storage/Local/Laws), bcrypt,
-- SHA-256, mail.ParseAddress, the random bytes and the clock. An object storage that the upload
-- theorem is about is asked to store what it copies off its reader.
--
-- A statement of SQL fails as a schedule in the database says, or runs; a theorem on a database holds
-- for any schedule, unless it asks for one that is used up. A Commit of Repository/Auth that fails may
-- have taken effect: the entry of the schedule after it says so. A reader is a script of chunks that ends
-- in an error, io.EOF where all went well. io.Copy recurses on fuel, one unit for a read; the number
-- of the script's bytes and chunks is enough, and the theorems on copies prove that it is.
-- `run` takes the number of passes of its loop. A Go int64 is an integer; int32 and the wrap of an int
-- are written where the code converts or multiplies.
--
-- PostgreSQL refuses a text that is not UTF-8 or has a NUL; that is modelled for the table documents,
-- and the texts of users and sessions are taken to be accepted.
--
-- Not modelled: the choice of a storage and the set-up of its client, what the SQL of a migration
-- does to the schema, the matching of paths by gin and CORS, the wiring of the services, signals
-- and logs.
pub mod Accounts
pub mod Config
pub mod Documents
pub mod Domain
pub mod Errors
pub mod Exec
pub mod Http
pub mod Migrations
pub mod Ports
pub mod Prelude
pub mod Queue
pub mod Repository
pub mod Resources
pub mod Router
pub mod Sql
pub mod Storage
pub mod Tests
pub mod Text
pub mod Tokens
pub mod Upload
pub mod Validator
pub mod Worker
