-- ===== src/Roster/Laws.antt =====
-- Well-formedness of the roster of internal/roster/roster.go, and how it passes through writes.
use reticulum_group_chat.Base.{◌≡◌, arith}
use reticulum_group_chat.Base.Maps.{Distinct, Entries, insert-Distinct, insert-Entries}
use reticulum_group_chat.Base.Text.{Bytes, bytes_eq, to_lower}
use reticulum_group_chat.Roster.Model.{User, Roster, Save, persist, put_user, defer_persist}

module _ (save : Save) (r : Roster) where
  pub users-persist : (persist save r).0.users ≡ r.users
  unfolding persist
  users-persist = ground arith

  pub banlist-persist : (persist save r).0.banlist ≡ r.banlist
  unfolding persist
  banlist-persist = ground arith

module _ (r : Roster) where
  pub users-defer_persist : (defer_persist r).users ≡ r.users
  unfolding defer_persist
  users-defer_persist = ground arith

  pub banlist-defer_persist : (defer_persist r).banlist ≡ r.banlist
  unfolding defer_persist
  banlist-defer_persist = ground arith

pub ruleset write_laws =
    (users-persist, banlist-persist, users-defer_persist, banlist-defer_persist)

abbrev pub IsKeyed : Bytes → User → Type 0
IsKeyed h u = u.hash ≡ h

abbrev pub IsLowered : Bytes → Unit {0} → Type 0
IsLowered h _ = to_lower h ≡ h

-- Each hash has one entry, which names it; banned hashes are in lower case.
pub record WellFormed (r : Roster) : Type 0 where
  pub distinct : Distinct r.users
  pub keyed : Entries IsKeyed r.users
  pub lowered : Entries IsLowered r.banlist

module _ {r s : Roster} (users : s.users ≡ r.users) (bans : s.banlist ≡ r.banlist) where
  WellFormed-same : WellFormed r → WellFormed s
  WellFormed-same w = record {
    distinct = rw users w.distinct;
    keyed = rw users w.keyed;
    lowered = rw bans w.lowered;
  }

pub persist-WellFormed : (save : Save) (r : Roster) → WellFormed r → WellFormed (persist save r).0
persist-WellFormed save r =
    WellFormed-same {r = r} {s = (persist save r).0} (users-persist save r) (banlist-persist save r)

pub defer_persist-WellFormed : (r : Roster) → WellFormed r → WellFormed (defer_persist r)
defer_persist-WellFormed r =
    WellFormed-same {r = r} {s = defer_persist r} (users-defer_persist r) (banlist-defer_persist r)

pub put_user-WellFormed :
    (h : Bytes) (u : User) (r : Roster) → u.hash ≡ h → WellFormed r → WellFormed (put_user h u r)
put_user-WellFormed h u r e w = record {
  distinct = insert-Distinct h u r.users w.distinct;
  keyed = insert-Entries IsKeyed h u r.users e w.keyed;
  lowered = w.lowered;
}
