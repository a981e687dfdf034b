-- ===== src/Roster/Bans.antt =====
-- roster.go: the ban list.
use reticulum_group_chat.Base.{Bool, true, false, not, Option, none, some, List, if◌then◌else◌}
use reticulum_group_chat.Base.Maps.{has, insert, delete, keys}
use reticulum_group_chat.Base.Text.{Bytes, bytes_eq, to_lower, bytes_ltb, sort}
use reticulum_group_chat.Roster.Model.{Roster, Save, Error, persist, persisted, normalize_hash}

unfoldable pub ban : Save → Roster → Bytes → Roster × Option Error
ban save r hash_hex =
    let h = to_lower hash_hex in
    persist save (record r { banlist = insert h tt r.banlist; users = delete h r.users })

unfoldable pub unban : Save → Roster → Bytes → Roster × Bool × Option Error
unban save r hash_hex =
    let h = to_lower hash_hex in
    if not (has h r.banlist)
    then (r, false, none)
    else persisted true (persist save (record r { banlist = delete h r.banlist }))

unfoldable pub is_banned : Roster → Bytes → Bool
is_banned r b = elim (normalize_hash b) [ none ↦ false | some h ↦ has h r.banlist ]

-- Banlist
unfoldable pub banned_hashes : Roster → List Bytes
banned_hashes r = sort bytes_ltb (keys r.banlist)
