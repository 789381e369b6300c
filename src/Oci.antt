-- ===== src/Oci.antt =====
-- The OCI registry client and provider (internal/task/oci).
pub mod Search
