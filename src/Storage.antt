-- ===== src/Storage.antt =====
-- app/storage: the tables that the services share, and the repositories over them.
pub mod Models
pub mod Tables
pub mod Payloads
pub mod Writer
pub mod Claims
