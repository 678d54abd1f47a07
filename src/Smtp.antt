-- ===== src/Smtp.antt =====
-- internal/smtpin: the SMTP session, from MAIL to the reply to DATA.
pub mod Session
pub mod Auth
pub mod Examples
