-- ===== src/Lib.antt =====
-- A model of fwdsvc, the daemon that runs a group chat over Reticulum and LXMF.
--
-- The program keeps a roster of members in a state file, answers slash commands that change it,
-- and forwards every other message to the members. An LXMF message reaches the inbox
-- (internal/service/inbox.go), which asks the roster whether the sender is banned, drops
-- redeliveries by the duplicate table, hands commands to the dispatcher, and otherwise appends to
-- the history and fans out. The dispatcher works on the roster and on the store of the group's
-- description and pins; a member who joins is sent the history and the pins, within the limits of
-- the replay limiter.
--
-- What models what (paths from the repository's root):
--   Base          Go's strings, slices and maps: bytes as numbers below 256, a map as an association
--                 list, tests as Booleans. Base.Text has the functions of package strings that the
--                 code calls, for ASCII letters and white space; Base.Decimal prints and Base.Int
--                 reads numbers.
--   Hex           encoding/hex as internal/roster/roster.go uses it, and mustHexBytes and hexNibble
--                 of internal/commands/handlers.go.
--   Roster        internal/roster/roster.go and the State of internal/roster/store.go. Model has
--                 User, Roster, New (load), persistLocked (persist), deferPersistLocked and Flush;
--                 Members, Settings, Listing and Bans have the other operations, by the names of the
--                 source in lower case. Laws, Steps, Durable, Pruning, Activity, Resolving, Effects
--                 and OnlySelf have proofs.
--   Sanitize      scrub of internal/groupinfo/render.go, scrubControlBytes of
--                 internal/commands/handlers.go, sanitizeForward of internal/service/sanitize.go.
--   Config        internal/config/config.go: normalize; Roles is on the admins and mods.
--   GroupInfo     internal/groupinfo/groupinfo.go: Truncate has TruncateText, Store the
--                 store, Render internal/groupinfo/render.go.
--   Commands      internal/commands: Parser has parser.go, Info info.go, and Model, Nickname,
--                 Membership, Moderation, Listing and Dispatch have handlers.go, a function for each
--                 handler. Safety, Privilege and Info.Packet have proofs on all commands.
--   History       internal/history/log.go.
--   Service       Dedup has internal/service/dedup.go, Replay the limiter and
--                 Catchup the catch-up of internal/service/replay.go, Enroll
--                 enrollConfigRoles of internal/service/service.go, Forward forwardToRoster of
--                 internal/service/forward.go. Outbound has the queue of internal/service/outbound.go: Queue its data, enqueue, Load and Flush, Pick
--                 pickDue, Attempt attempt; Steps has the workers and the flush loop as steps in
--                 any order, and Fairness, Numbering, Holding, Retries, Durable, Order, Waits,
--                 Draining and Loading proofs.
--                 Propagation has internal/service/propagation.go, Attachments attachments.go and
--                 Rewrite rewrite.go of the same folder, on the field maps of Fields. Inbox has
--                 inbox.go: on_lxmf_received is onLXMFReceived, which calls all the others, cut at
--                 its early returns into accepted_message, command_received, message_received,
--                 chat_received and relay.
--   IdMap         internal/idmap/idmap.go, with proofs in Bounds, Views and Expiry.
--   Examples      the data of the tests.
--
-- How it is modelled. Code that changes a struct is a function from the old value to the new one and
-- the results. A lock makes each method one step, so a run is a list of operations in any order.
-- The write of a file is a parameter, a function that gives the error of this write, if any; an
-- operation gets one for its own write, so that any pattern of failures is covered. A file is what
-- the last successful write put there. Times are natural numbers, nanoseconds since Go's zero time;
-- a duration that is not positive, which turns a feature off, is 0. A difference of times that is
-- compared is written as a sum, so nothing is cut off at 0. A reply is a constructor with the values
-- that its text shows; where the code measures the text (/info, list replies) it is written out.
-- The order in which Go's maps are walked is not used: what depends on it is sorted by the code, or
-- is a set. The hooks of the dispatcher (announced names, paths, announces) and the size of one LXMF
-- packet are fields of Env, which is a parameter of each command.
-- Fuel: the loops over the id map's list and over the propagation nodes get its length, as each turn
-- takes one element out; processOnce gets one turn more than the nanoseconds from the next attempt of
-- each message until it is past maxQueueAge, as each attempt takes one out or puts its next attempt later, and
-- a message past that age is not picked. Its turns say what the clock reads and the sender answers.
-- decimal has one more than the number it prints, which is above the number of its digits.
--
-- Not modelled: the adapter of the queue to the LXMF library, the announce cache, start-up and the
-- sweeps, and of the configuration ParseDuration, the defaults and the warnings. The Reticulum and
-- LXMF libraries, JSON, TOML, msgpack, file locks and goroutines are outside the model.
pub mod Base
pub mod Config
pub mod Hex
pub mod Roster
pub mod Sanitize
pub mod GroupInfo
pub mod Commands
pub mod History
pub mod IdMap
pub mod Service
pub mod Examples
