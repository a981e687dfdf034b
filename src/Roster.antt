-- ===== src/Roster.antt =====
-- internal/roster/roster.go and store.go: the members, the ban list and their state file.
-- Times count from Go's zero `time.Time`, in nanoseconds, and do not wrap; a duration that the
-- program reads as "off" when it is not positive is 0 here.
-- A write to the state file goes through a parameter `save`, the outcome of `Store.Save` on a
-- state: `none` is nil, and an error leaves the file as it was (atomicWrite renames a complete file).
-- The children up to `Bans` hold the code, the others what is proved of it.
pub mod Model
pub mod Members
pub mod Settings
pub mod Listing
pub mod Bans
pub mod Laws
pub mod Steps
pub mod Durable
pub mod Pruning
pub mod Activity
pub mod Resolving
pub mod Effects
pub mod OnlySelf
