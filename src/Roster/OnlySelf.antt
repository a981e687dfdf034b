-- ===== src/Roster/OnlySelf.antt =====
-- Operations of internal/roster/roster.go that touch one entry: what else they may touch.
use reticulum_group_chat.Base.{
  ℕ, ◌≡◌, refl, sym, ap, ◌∙◌, subst, Bool, false, Option, none, some, [], arith, Option-cases, inl,
  inr, not, ◌==◌, if_cases, option_cases, beq_refl,
}
use reticulum_group_chat.Base.Maps.{lookup, has, lookup-insert, lookup-delete}
use reticulum_group_chat.Base.Text.{Bytes, bytes_eq, to_lower}
use reticulum_group_chat.Roster.Model.{
  User, Roster, Save, Error, persist, put_user, normalize_hash, new_user,
}
use reticulum_group_chat.Roster.Members.{add_or_update, remove}
use reticulum_group_chat.Roster.Settings.{update_user}
use reticulum_group_chat.Roster.Laws.{users-persist, banlist-persist}

-- The role of an entry; none where there is no entry.
abbrev pub role_in : Option User → Option Bytes
role_in none = none
role_in (some u) = some u.role

-- The own role after a step: kept, or gone with the entry, or the empty role of a new one.
abbrev pub NoGrant : Option User → Option User → Type 0
NoGrant old none = Unit
NoGrant none (some u) = u.role ≡ []
NoGrant (some v) (some u) = u.role ≡ v.role

-- From `r` to `s` only the entry of `h` changes, and its role is not granted.
pub record OnlySelf (h : Bytes) (r s : Roster) : Type 0 where
  pub others : (j : Bytes) → (h == j) ≡ false → lookup j s.users ≡ lookup j r.users
  pub role : NoGrant (lookup h r.users) (lookup h s.users)
  pub bans : s.banlist ≡ r.banlist

pub NoGrant-refl : (o : Option User) → NoGrant o o
NoGrant-refl none = tt
NoGrant-refl (some u) = refl

pub NoGrant-kept : (a b c : Option User) → NoGrant a b → role_in c ≡ role_in b → NoGrant a c
NoGrant-kept a b none p q = tt
NoGrant-kept none none (some w) p q = cc
NoGrant-kept none (some v) (some w) p q = ground arith
NoGrant-kept (some u) none (some w) p q = cc
NoGrant-kept (some u) (some v) (some w) p q = ground arith

pub OnlySelf-refl : (h : Bytes) (r : Roster) → OnlySelf h r r
OnlySelf-refl h r = record {
  others = λ j e. refl;
  role = NoGrant-refl (lookup h r.users);
  bans = refl;
}

-- A write to the file, and a change of the entry that keeps its role.
pub OnlySelf-persist :
    (save : Save) (h : Bytes) (r s : Roster) → OnlySelf h r s → OnlySelf h r (persist save s).0
OnlySelf-persist save h r s o = record {
  others = λ j e. rw (users-persist save s) (o.others j e);
  role = rw (users-persist save s) o.role;
  bans = rw (banlist-persist save s) o.bans;
}

pub put_user-OnlySelf :
    (h : Bytes) (u : User) (r s : Roster)
    → OnlySelf h r s
    → NoGrant (lookup h r.users) (some u)
    → OnlySelf h r (put_user h u s)
put_user-OnlySelf h u r s o g = record {
  others = λ j e. lookup-insert h j u s.users ∙ (rw e (o.others j e));
  role = rw (lookup-insert h h u s.users, beq_refl h) g;
  bans = o.bans;
}

-- At the key that the setters use.
update_user-at-key :
    (save : Save) (h : Bytes) (r s : Roster) (f : User → User)
    → ((u : User) → (f u).role ≡ u.role)
    → OnlySelf (to_lower h) r s
    → OnlySelf (to_lower h) r (update_user save s h f).0
unfolding update_user
update_user-at-key save h r s f keeps o =
    option_cases {B = Roster × Option Error} (λ x. OnlySelf (to_lower h) r x.0)
      (lookup (to_lower h) s.users) (λ _. o)
      λ u e. OnlySelf-persist save (to_lower h) r _ (
        put_user-OnlySelf (to_lower h) (f u) r s o (
          NoGrant-kept (lookup (to_lower h) r.users) (some u) (some (f u))
            (subst (NoGrant (lookup (to_lower h) r.users)) e o.role) (ap some (keeps u))))

pub update_user-OnlySelf :
    (save : Save) (h : Bytes) (r s : Roster) (f : User → User)
    → to_lower h ≡ h
    → ((u : User) → (f u).role ≡ u.role)
    → OnlySelf h r s
    → OnlySelf h r (update_user save s h f).0
update_user-OnlySelf save h r s f low keeps o =
    subst (λ k. OnlySelf k r (update_user save s h f).0) low
      (update_user-at-key save h r s f keeps (subst (λ k. OnlySelf k r s) (sym low) o))

pub add_or_update-OnlySelf :
    (save : Save) (r : Roster) (b h : Bytes) (now : ℕ)
    → normalize_hash b ≡ some h
    → OnlySelf h r (add_or_update save r b now).0
unfolding add_or_update new_user
add_or_update-OnlySelf save r b h now e = elim (Option-cases (lookup h r.users)) [
  | inl f ↦
      rw (e, f, add_or_update)
        (OnlySelf-persist save h r _ (put_user-OnlySelf h _ r r (OnlySelf-refl h r) (rw f refl)))
  | inr (u, f) ↦
      rw (e, f, add_or_update)
        (OnlySelf-persist save h r _ (put_user-OnlySelf h _ r r (OnlySelf-refl h r) (rw f refl)))
]

pub remove-OnlySelf :
    (save : Save) (r : Roster) (h : Bytes) → to_lower h ≡ h → OnlySelf h r (remove save r h).0
unfolding remove
remove-OnlySelf save r h low =
    rw (low, remove)
      (if_cases {A = Roster × Bool × Option Error} (λ x. OnlySelf h r x.0) (not (has h r.users))
        (λ _. OnlySelf-refl h r)
        λ _. OnlySelf-persist save h r _ (record {
          others = λ j e. lookup-delete h j r.users ∙ (rw e refl);
          role = rw (lookup-delete h h r.users, beq_refl h) tt;
          bans = refl;
        }))
