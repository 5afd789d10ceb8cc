-- ===== src/Models.antt =====
-- The rows of app/models.py, the configuration payloads of app/schemas.py and the failures of
-- app/services/errors.py. UUIDs are 128-bit numbers, instants are microseconds.
pub mod Json
pub mod Equality
pub mod Errors
pub mod Schemas
pub mod Rows
