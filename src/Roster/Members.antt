-- ===== src/Roster/Members.antt =====
-- roster.go: who is a member, and what was last heard from them.
use reticulum_group_chat.Base.{
  ℕ, ◌+◌, Bool, true, false, ◌&&◌, ◌||◌, not, Option, none, some, List, [], ◌∷◌, length, ltb,
  if◌then◌else◌,
}
use reticulum_group_chat.Base.Maps.{lookup, has, delete, keys, select}
use reticulum_group_chat.Base.Text.{Bytes, bytes_eq, to_lower}
use reticulum_group_chat.Roster.Model.{
  User, Roster, Save, Error, bad_hash_length, new_user, last_seen, last_spoke, persist, persisted,
  put_user, defer_persist, normalize_hash,
}

unfoldable pub add_or_update : Save → Roster → Bytes → ℕ → Roster × Bool × Option Error
add_or_update save r b now = elim (normalize_hash b) [
  | none ↦ (r, false, some (bad_hash_length (length b)))
  | some h ↦ elim (lookup h r.users) [
    | none ↦
        persisted true
          (persist save (put_user h (record (new_user h now) { last_message_at = now }) r))
    | some u ↦ persisted false (persist save (put_user h (record u { last_message_at = now }) r))
  ]
]

unfoldable pub add_invited : Save → Roster → Bytes → ℕ → Roster × Bool × Option Error
add_invited save r b now = elim (normalize_hash b) [
  | none ↦ (r, false, some (bad_hash_length (length b)))
  | some h ↦
      if has h r.users
      then (r, false, none)
      else persisted true (persist save (put_user h (record (new_user h now) { invited = true }) r))
]

unfoldable pub touch : Roster → Bytes → ℕ → Roster × Bool × Option Error
touch r b now = elim (normalize_hash b) [
  | none ↦ (r, false, some (bad_hash_length (length b)))
  | some h ↦ elim (lookup h r.users) [
    | none ↦ (r, false, none)
    | some u ↦ (
      defer_persist (put_user h (record u { last_command_at = now; invited = false }) r),
      true,
      none,
    )
  ]
]

unfoldable pub mark_message : Roster → Bytes → ℕ → Roster × Bool × Option Error
mark_message r b now = elim (normalize_hash b) [
  | none ↦ (r, false, some (bad_hash_length (length b)))
  | some h ↦ elim (lookup h r.users) [
    | none ↦ (r, false, none)
    | some u ↦ (
      defer_persist (put_user h (record u { last_message_at = now; invited = false }) r),
      true,
      none,
    )
  ]
]

unfoldable pub update_last_announce : Roster → Bytes → ℕ → Roster × Option Error
update_last_announce r b at = elim (normalize_hash b) [
  | none ↦ (r, some (bad_hash_length (length b)))
  | some h ↦ elim (lookup h r.users) [
    | none ↦ (r, none)
    | some u ↦ if not (ltb u.last_announce_at at) then (r, none) else (
      defer_persist (put_user h (record u { last_announce_at = at; invited = false }) r),
      none,
    )
  ]
]

-- `t.Before(now.Add(-cutoff))`, with the cutoff on the left side; a silent cutoff of 0 is off.
unfoldable pub is_inactive : ℕ → ℕ → ℕ → User → Bool
unfolding last_seen last_spoke
is_inactive now idle_cutoff silent_cutoff u =
    if u.invited
    then false
    else ltb (last_seen u + idle_cutoff) now
      || (ltb 0 silent_cutoff && ltb (last_spoke u + silent_cutoff) now)

-- The hashes pruned, then the error of the write.
unfoldable pub prune : Save → Roster → ℕ → ℕ → ℕ → Roster × List Bytes × Option Error
prune save r now idle_cutoff silent_cutoff =
    elim (keys (select (λ _. is_inactive now idle_cutoff silent_cutoff) r.users)) [
      | [] ↦ (r, [], none)
      | h ∷ hs ↦
          let stay = select (λ _ u. not (is_inactive now idle_cutoff silent_cutoff u)) r.users in
          let (r', e) = persist save (record r { users = stay }) in (r', h ∷ hs, e)
    ]

unfoldable pub remove : Save → Roster → Bytes → Roster × Bool × Option Error
remove save r hash_hex =
    let h = to_lower hash_hex in
    if not (has h r.users)
    then (r, false, none)
    else persisted true (persist save (record r { users = delete h r.users }))

unfoldable pub has_member : Roster → Bytes → Bool
has_member r b = elim (normalize_hash b) [ none ↦ false | some h ↦ has h r.users ]

unfoldable pub get : Roster → Bytes → Option User
get r hash_hex = lookup (to_lower hash_hex) r.users

unfoldable pub active_hashes : Roster → List Bytes
active_hashes r = keys (select (λ _ u. not u.paused) r.users)

unfoldable pub hashes : Roster → List Bytes
hashes r = keys r.users

unfoldable pub len : Roster → ℕ
len r = length r.users
