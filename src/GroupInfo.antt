-- ===== src/GroupInfo.antt =====
-- internal/groupinfo/groupinfo.go: the group's description and its pinned messages.
-- The file's contents stand for its JSON; a write goes through a parameter `save`, whose result
-- is the error, and an error leaves the file as it was.
pub mod Truncate
pub mod Store
pub mod Render
pub mod Bounds
