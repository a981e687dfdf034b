-- ===== src/Roster/Settings.antt =====
-- roster.go: the setters and their tests.
use reticulum_group_chat.Base.{Bool, false, ◌||◌, Option, none, some, [], ◌==◌, if◌then◌else◌}
use reticulum_group_chat.Base.Maps.{lookup}
use reticulum_group_chat.Base.Text.{Bytes, text, bytes_eq, to_lower}
use reticulum_group_chat.Roster.Model.{
  User, Roster, Save, Error, not_in_roster, invalid_role, persist, put_user,
}

-- The shape that the setters share: the user must be there, and the write is made at once.
unfoldable pub update_user : Save → Roster → Bytes → (User → User) → Roster × Option Error
update_user save r hash_hex f = elim (lookup (to_lower hash_hex) r.users) [
  | none ↦ (r, some not_in_roster)
  | some u ↦ persist save (put_user (to_lower hash_hex) (f u) r)
]

unfoldable pub set_paused : Save → Roster → Bytes → Bool → Roster × Option Error
unfolding update_user
set_paused save r hash_hex on = update_user save r hash_hex (λ u. record u { paused = on })

unfoldable pub is_paused : Roster → Bytes → Bool
is_paused r hash_hex = elim (lookup (to_lower hash_hex) r.users) [
  | none ↦ false
  | some u ↦ u.paused
]

unfoldable pub set_text_only : Save → Roster → Bytes → Bool → Roster × Option Error
unfolding update_user
set_text_only save r hash_hex on = update_user save r hash_hex (λ u. record u { text_only = on })

unfoldable pub set_role : Save → Roster → Bytes → Bytes → Roster × Option Error
unfolding update_user
set_role save r hash_hex role =
    if role == [] || (role == text "mod" || role == text "admin")
    then update_user save r hash_hex (λ u. record u { role = role })
    else (r, some (invalid_role role))

unfoldable pub is_text_only : Roster → Bytes → Bool
is_text_only r hash_hex = elim (lookup (to_lower hash_hex) r.users) [
  | none ↦ false
  | some u ↦ u.text_only
]

unfoldable pub set_nickname : Save → Roster → Bytes → Bytes → Roster × Option Error
unfolding update_user
set_nickname save r hash_hex nick = update_user save r hash_hex (λ u. record u { nickname = nick })
