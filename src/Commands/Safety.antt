-- ===== src/Commands/Safety.antt =====
-- Proofs on internal/commands: the members, the ban list and the cap under the commands.
pub mod Step
pub mod Members
pub mod Mods
pub mod Infos
pub mod Dispatching
