-- ===== src/Config.antt =====
-- The configuration of a service.
pub mod Yaml
pub mod Loader
pub mod Runtime
