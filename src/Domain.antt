-- ===== src/Domain.antt =====
-- app/domain: the data that the services and the analysis share.
pub mod Enums
pub mod Dates
