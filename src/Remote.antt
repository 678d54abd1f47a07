-- ===== src/Remote.antt =====
-- The clients of the remote services: internal/msapi, internal/docintel, and the uploads of
-- internal/graphmail.
pub mod Retry
pub mod Upload
pub mod Recognize
