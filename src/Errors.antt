-- ===== src/Errors.antt =====
-- The errors that the services and the store return, by the sentinel that `errors.Is` finds:
-- internal/services/catalog.go, catalog_write.go and registry.go, internal/repository/repository.go
-- and internal/models/errors.go. Their texts are left out; `failure` is any error of the driver.
pub data Error : Type 0 where
  not_found validation unknown_kind forbidden conflict : Error
  duplicate : Error
  plate_required driver_name_required driver_status : Error
  failure : Error
