-- ===== src/Examples/Rosters.antt =====
-- The roster's theorems on a state file of two members.
use reticulum_group_chat.Base.{◌≡◌, refl, true, none, some, List, [], ◌∷◌, All, arith, nat_eq, keep}
use reticulum_group_chat.Base.Maps.{lookup, has, contains, Distinct, values}
use reticulum_group_chat.Base.Text.{Bytes, bytes_eq, bytes_beq, text, lower, to_lower, trim_space}
use reticulum_group_chat.Hex.{must_hex_bytes, decode_pairs, hex_nibble}
use reticulum_group_chat.Roster.Model.{
  User, State, Roster, Save, io, load, restore_users, new_user, flush, last_spoke,
}
use reticulum_group_chat.Commands.Model.{Config}
use reticulum_group_chat.Service.Enroll.{Extends, enroll_config_roles, enroll_config_roles_lem}
use reticulum_group_chat.Service.Forward.{IsDue, forward_to_roster, forward_to_roster-IsDue}
use reticulum_group_chat.Roster.Members.{prune}
use reticulum_group_chat.Roster.Listing.{resolve}
use reticulum_group_chat.Roster.Laws.{WellFormed}
use reticulum_group_chat.Roster.Steps.{
  Op, joins, speaks, announces, touches, bans, flushes, run, run-WellFormed,
}
use reticulum_group_chat.Roster.Durable.{
  IsDurable, load-WellFormed, run-load-IsDurable, flush-flush_failed,
}
use reticulum_group_chat.Roster.Pruning.{PrunedAs, prune_exact}
use reticulum_group_chat.Roster.Activity.{lurker_swept}
use reticulum_group_chat.Roster.Resolving.{Picks, resolve_sound}

abbrev pub raw_alice : Bytes
raw_alice = 1 ∷ 2 ∷ 3 ∷ 4 ∷ 5 ∷ 6 ∷ 7 ∷ 8 ∷ 9 ∷ 10 ∷ 11 ∷ 12 ∷ 13 ∷ 14 ∷ 15 ∷ 16 ∷ []

abbrev pub alice_hash : Bytes
alice_hash = text "0102030405060708090a0b0c0d0e0f10"

abbrev pub bob_hash : Bytes
bob_hash = text "b0b00000000000000000000000000000"

abbrev pub carol_hash : Bytes
carol_hash = text "CA400000000000000000000000000000"

abbrev pub alice : User
alice = record (new_user alice_hash 100) { nickname = text "Alice" }

abbrev pub bob : User
bob = record (new_user bob_hash 200) { nickname = text "bob"; last_message_at = 900 }

abbrev pub two_members : State
two_members = record {
  users = (alice_hash, alice) ∷ (bob_hash, bob) ∷ [];
  banlist = carol_hash ∷ [];
}

abbrev writes : Save
writes st = none

abbrev fails : Save
fails st = some (io (text "disk full"))

abbrev busy : List (Save × Op)
busy =
    (writes, joins raw_alice 300)
    ∷ (writes, bans bob_hash)
    ∷ (writes, speaks raw_alice 400)
    ∷ (writes, flushes)
    ∷ []

two_members-Distinct : Distinct two_members.users
unfolding text lookup bytes_beq
two_members-Distinct = (refl, (refl, tt))

abbrev pub at_start : Roster
at_start = load two_members

pub at_start-WellFormed : WellFormed at_start
at_start-WellFormed = load-WellFormed two_members two_members-Distinct

run-WellFormed_example : WellFormed (run at_start busy)
run-WellFormed_example = run-WellFormed at_start busy at_start-WellFormed

run-load-IsDurable_example : IsDurable (run (load two_members) busy)
run-load-IsDurable_example =
    run-load-IsDurable two_members busy two_members-Distinct
      ((λ st. refl), ((λ st. refl), ((λ st. refl), ((λ st. refl), tt))))

abbrev changed : Roster
changed = record at_start { dirty = true }

flush-flush_failed_example :
    ((flush fails changed).1 ≡ some (io (text "disk full")))
    × (flush writes (flush fails changed).0 ≡ ((flush fails changed).0, none))
    × ((flush fails changed).0.store ≡ some two_members)
    × ((flush fails changed).0.users ≡ changed.users)
unfolding load
flush-flush_failed_example =
    flush-flush_failed fails writes changed two_members (io (text "disk full")) refl refl refl

prune_exact_example :
    PrunedAs fails at_start 1000 500 0 at_start-WellFormed alice_hash
      (lookup alice_hash at_start.users)
    × ((prune fails at_start 1000 500 0).0.banlist ≡ at_start.banlist)
prune_exact_example = prune_exact fails at_start 1000 500 0 at_start-WellFormed alice_hash

lurker_swept_example :
    lookup alice_hash
      (prune writes
        (run at_start ((writes, touches raw_alice 950) ∷ (writes, announces raw_alice 960) ∷ []))
        1000
        0
        500).0.users
    ≡ none
unfolding text lookup bytes_beq load restore_users new_user last_spoke
lurker_swept_example =
    lurker_swept at_start ((writes, touches raw_alice 950) ∷ (writes, announces raw_alice 960) ∷ [])
      writes alice_hash alice 1000 0 500 at_start-WellFormed (tt, (tt, tt)) refl refl (omega arith)
      (omega arith)

resolve_sound_example : Picks at_start (to_lower (trim_space (text " ALICE "))) alice
unfolding text lookup bytes_beq load restore_users new_user resolve to_lower lower trim_space keep
    values
resolve_sound_example = resolve_sound at_start at_start-WellFormed (text " ALICE ") alice refl

-- The configuration names a hash that is banned, and one that is a member.
abbrev roles : Config
roles = record {
  admins = text "ca400000000000000000000000000000" ∷ [];
  mods = bob_hash ∷ [];
  locked = true;
  max_members = 0;
  display_name = text "Park";
}

abbrev raw_carol : Bytes
raw_carol = 0xca ∷ 0x40 ∷ 0 ∷ 0 ∷ 0 ∷ 0 ∷ 0 ∷ 0 ∷ 0 ∷ 0 ∷ 0 ∷ 0 ∷ 0 ∷ 0 ∷ 0 ∷ 0 ∷ []

enroll_config_roles_lem_example :
    (has
        (text "ca400000000000000000000000000000")
        (enroll_config_roles fails at_start roles 1000).0.users
      ≡ true)
    × Extends at_start (enroll_config_roles fails at_start roles 1000).0
unfolding text contains bytes_beq must_hex_bytes decode_pairs hex_nibble to_lower lower
enroll_config_roles_lem_example =
    enroll_config_roles_lem fails at_start roles 1000 (text "ca400000000000000000000000000000")
      raw_carol refl refl refl

abbrev pub raw_bob : Bytes
raw_bob = 0xb0 ∷ 0xb0 ∷ 0 ∷ 0 ∷ 0 ∷ 0 ∷ 0 ∷ 0 ∷ 0 ∷ 0 ∷ 0 ∷ 0 ∷ 0 ∷ 0 ∷ 0 ∷ 0 ∷ []

forward_to_roster-IsDue_example :
    All
      (IsDue Bytes at_start alice_hash (text "hi"))
      (forward_to_roster Bytes at_start alice_hash (text "hi") none none)
forward_to_roster-IsDue_example =
    forward_to_roster-IsDue Bytes at_start alice_hash (text "hi") none none at_start-WellFormed
