-- ===== src/Examples.antt =====
-- The theorems at concrete inputs, with the data they are run on.
mod Rosters
mod Chats
mod Stores
mod Limits
mod Queues
mod Inboxes
mod Settings
