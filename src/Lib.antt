-- ===== src/Lib.antt =====
-- Verification library of the master data service (Go), the fleet register of Karlo's products.
--
-- The program and the files that model it, with paths from the repository's root:
--
-- - internal/platform/normalise/normalise.go: the canonical forms behind the unique indexes.
--   Normalise (plate = Plate, serial = Serial, imei = IMEI, name = Name, optional = Optional).
-- - internal/platform/revocation/revocation.go: the list of ended sessions and cut-offs that every
--   request asks. Revocation (revoked = Revoked, apply = Apply, replace = Replace, prune = Prune).
-- - internal/platform/authctx: what a token's holder may do. Authctx (has_permission, role_in,
--   grantable_permissions, is_sellable_feature and so on), with the catalogues as tables;
--   Authctx/Middleware is middleware.go and grpc.go (require_auth, require_module, unary_server).
-- - internal/platform/cache/keys.go and redis.go: Cache (key = Key, prefix = Prefix, pattern = what
--   DeleteByPrefix scans for).
-- - internal/platform/query/query.go: what a list request asks for. Query (parse = Parse,
--   from_proto = FromProto, offset, total_pages).
-- - internal/models: the documents and what BeforeWrite, Validate and Stamp do to them. Models and
--   Errors.
-- - internal/repository/repository.go: the typed store. Repository (create, update, find_by_id,
--   soft_delete), over the interface Mongo of the driver. Repository/Devices is devices.go
--   (imeis_at, vehicle_at, periods_for).
-- - internal/services/catalog.go, catalog_write.go and helpers.go: the reference lists. Catalog has
--   the state (documents, cache, vehicles, notices) and the keys; Catalog/Kinds the table
--   of lists, Catalog/Documents what the models do before a write, Catalog/Writers the writers,
--   Catalog/Writes the service's Create, Update and Delete, Catalog/Reads Get and List through the
--   cache, Catalog/References Resolve and Validate. Catalog/Scopes and Catalog/Coherence relate the cache to the
--   documents.
-- - internal/services/registry.go: the register. Registry holds the state (a record of
--   collections and of published notices) and the lookups; Registry/Inputs and
--   Registry/DeviceInputs the `apply` methods; Registry/Vehicles, Registry/Drivers,
--   Registry/Devices and Registry/Documents the operations of each; Registry/Fitting has Fit and
--   Unfit. An operation maps a state to a result and the state after, also when it fails.
-- - internal/services/site_write.go: a company's sites. Sites has a site and its people
--   (apply_pics = ApplyPICs), Sites/Requests the three operations (create_site, update_site,
--   delete_site), Sites/Writes the new contents of a site, Sites/Collection all sites.
-- - internal/platform/safeconv/safeconv.go and internal/config/guard.go: Safeconv (int32 = Int32)
--   and Guard (guard_target = guardTarget).
--
-- Shared has the tests, lists, texts, maps and results that the others use.
--
-- Choices. A text is the list of its bytes. An object id is a number, printed and read by the
-- interface Mongo; a time is a number of nanoseconds since the zero time. No operation on these
-- overflows; the offset of a page does, and Query writes its wrap-around out. Loops are structural
-- recursion: there is no fuel. The MongoDB driver is a parameter: a record of the calls that the
-- code makes, each of which may fail at any time, with what their documentation promises of a call
-- that succeeds. Mongo/Memory is an instance. A deployment without transactions, or with commits
-- that fail, is an argument of Fit and Unfit. Go maps are association lists. A zero value stands
-- where Go has one.
--
-- The JWT library, the remote validator, the JSON and BSON decoders, Atoi, the hash of a key, the
-- printer of numbers and times and the matcher of patterns are parameters too, and so is the page
-- of documents that a find with an order returns. The cache is a map from keys to answers, which a
-- read gives back as they were written; it may lose any of them at any time. What a sweep leaves of it
-- is a parameter, so a sweep may fail; where a theorem needs sweeps that succeed, it says so. A
-- `float64` of a coordinate is a whole number of units, an infinity or not a number.
--
-- Not modelled: the handlers, the Redis client, key files and signing, the configuration, logging,
-- the list queries of the register and the views that it resolves for display, and writes of
-- other requests between the steps of one operation.
pub mod Shared
pub mod Normalise
pub mod Revocation
pub mod Authctx
pub mod Cache
pub mod Query
pub mod Catalog
pub mod Sites
pub mod Safeconv
pub mod Guard
pub mod Errors
pub mod Models
pub mod Mongo
pub mod Repository
pub mod Registry
