-- ===== src/Service.antt =====
-- internal/service: the parts of the daemon that are modelled.
pub mod Dedup
pub mod Replay
pub mod Catchup
pub mod Enroll
pub mod Forward
pub mod Outbound
pub mod Propagation
pub mod Fields
pub mod Attachments
pub mod Rewrite
pub mod Inbox
