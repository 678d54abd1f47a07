-- ===== src/Config.antt =====
-- internal/config: what the operator has configured, and who may send and receive.
pub mod Types
pub mod Address
pub mod Env
pub mod Urls
pub mod Loader
pub mod Choices
pub mod Settings
pub mod Services
pub mod File
pub mod Load
pub mod Examples
