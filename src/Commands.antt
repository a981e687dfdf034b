-- ===== src/Commands.antt =====
-- internal/commands: what a member or a stranger can ask for by a slash command, and what each
-- command does to the roster and the group info. The children up to `Dispatch` hold the code, the
-- others what is proved of it.
pub mod Parser
pub mod Nickname
pub mod Model
pub mod Membership
pub mod Moderation
pub mod Info
pub mod Listing
pub mod Dispatch
pub mod Safety
pub mod Privilege
