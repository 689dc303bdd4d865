-- ===== src/Api/Dto.antt =====
-- src/api/dto: one module for each header.
pub mod ApiVersions
pub mod Describe
pub mod Fetch
pub mod Produce
pub mod Request
pub mod Response
