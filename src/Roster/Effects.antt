-- ===== src/Roster/Effects.antt =====
-- What each operation of the roster can do to the other members, to who is a member, and to the
-- ban list; the commands are proved from these.
use reticulum_group_chat.Base.{
  ℕ, ◌+◌, ◌≡◌, ◌≤◌, refl, ap, subst, true, false, ◌||◌, none, some, [], arith, Option-cases,
  Bool-cases, inl, inr, ◌==◌, length, beq→eq,
}
use reticulum_group_chat.Base.Maps.{
  lookup, has, insert, delete, lookup-insert, lookup-delete, length-insert, length-delete-le,
}
use reticulum_group_chat.Base.Text.{Bytes, bytes_eq, text, to_lower}
use reticulum_group_chat.Roster.Model.{User, Roster, Save, persist, put_user, normalize_hash}
use reticulum_group_chat.Roster.Members.{add_or_update, add_invited, remove}
use reticulum_group_chat.Roster.Settings.{update_user, set_role, set_nickname}
use reticulum_group_chat.Roster.Bans.{ban, unban, is_banned}
use reticulum_group_chat.Roster.Laws.{users-persist, banlist-persist}

-- `s` has no member and no ban that `r` lacks, and no more entries.
pub record Within (r s : Roster) : Type 0 where
  pub members_in : (h : Bytes) → has h s.users ≡ true → has h r.users ≡ true
  pub bans_in : (h : Bytes) → has h s.banlist ≡ true → has h r.banlist ≡ true
  pub no_longer : length s.users ≤ length r.users

pub Within-refl : (r : Roster) → Within r r
Within-refl r = record { members_in = λ h e. e; bans_in = λ h e. e; no_longer = omega arith }

pub Within-trans : {r s t : Roster} → Within r s → Within s t → Within r t
Within-trans a b = record {
  members_in = λ h e. a.members_in h (b.members_in h e);
  bans_in = λ h e. a.bans_in h (b.bans_in h e);
  no_longer = omega (arith, a.no_longer, b.no_longer);
}

pub Within-persist : (save : Save) (r s : Roster) → Within r s → Within r (persist save s).0
Within-persist save r s w = record {
  members_in = λ h e. w.members_in h (subst (λ m. has h m ≡ true) (users-persist save s) e);
  bans_in = λ h e. w.bans_in h (subst (λ m. has h m ≡ true) (banlist-persist save s) e);
  no_longer = rw (users-persist save s) w.no_longer;
}

-- A write to a member's entry.
put_user-Within :
    (h : Bytes) (u v : User) (r : Roster) → lookup h r.users ≡ some v → Within r (put_user h u r)
put_user-Within h u v r e = record {
  members_in = λ j f. ground (arith, lookup-insert h j u r.users, bytes_eq.beq_iff h j);
  bans_in = λ j f. f;
  no_longer = ground (arith, length-insert h u r.users);
}

pub update_user-Within :
    (save : Save) (r : Roster) (h : Bytes) (f : User → User) → Within r (update_user save r h f).0
unfolding update_user
update_user-Within save r h f = elim (Option-cases (lookup (to_lower h) r.users)) [
  | inl e ↦ rw (e, update_user) (Within-refl r)
  | inr (u, e) ↦
      rw (e, update_user) (Within-persist save r _ (put_user-Within (to_lower h) (f u) u r e))
]

pub set_nickname-Within :
    (save : Save) (r : Roster) (h nick : Bytes) → Within r (set_nickname save r h nick).0
unfolding set_nickname
set_nickname-Within save r h nick = update_user-Within save r h _

pub set_role-Within :
    (save : Save) (r : Roster) (h role : Bytes) → Within r (set_role save r h role).0
unfolding set_role
set_role-Within save r h role =
    elim (Bool-cases (role == [] || (role == text "mod" || role == text "admin"))) [
      | inl e ↦ rw e (update_user-Within save r h _)
      | inr e ↦ rw e (Within-refl r)
    ]

pub remove-Within : (save : Save) (r : Roster) (h : Bytes) → Within r (remove save r h).0
unfolding remove
remove-Within save r h = elim (Bool-cases (has (to_lower h) r.users)) [
  | inl e ↦
      rw (e, remove)
        (Within-persist save r _ (record {
          members_in = λ j f. ground (arith, lookup-delete (to_lower h) j r.users);
          bans_in = λ j f. f;
          no_longer = length-delete-le (to_lower h) r.users;
        }))
  | inr e ↦ rw (e, remove) (Within-refl r)
]

pub unban-Within : (save : Save) (r : Roster) (h : Bytes) → Within r (unban save r h).0
unfolding unban
unban-Within save r h = elim (Bool-cases (has (to_lower h) r.banlist)) [
  | inl e ↦
      rw (e, unban)
        (Within-persist save r _ (record {
          members_in = λ j f. f;
          bans_in = λ j f. ground (arith, lookup-delete (to_lower h) j r.banlist);
          no_longer = omega arith;
        }))
  | inr e ↦ rw (e, unban) (Within-refl r)
]

-- `s` has at most the one member `h` that `r` lacks, and no other ban.
pub record Admits (h : Bytes) (r s : Roster) : Type 0 where
  pub members_in : (j : Bytes) → has j s.users ≡ true → (h == j || has j r.users) ≡ true
  pub bans_in : (j : Bytes) → has j s.banlist ≡ true → has j r.banlist ≡ true
  pub one_longer : length s.users ≤ length r.users + 1

put_user-Admits :
    (save : Save) (h : Bytes) (u : User) (r : Roster) → Admits h r (persist save (put_user h u r)).0
put_user-Admits save h u r = record {
  members_in =
      λ j f. ground (arith, lookup-insert h j u r.users, users-persist save (put_user h u r));
  bans_in = λ j f. ground (arith, banlist-persist save (put_user h u r));
  one_longer = ground (arith, length-insert h u r.users, users-persist save (put_user h u r));
}

-- No member is banned.
pub record BansHold (r : Roster) : Type 0 where
  pub out : (h : Bytes) → has h r.banlist ≡ true → has h r.users ≡ false

pub Within-BansHold : {r s : Roster} → Within r s → BansHold r → BansHold s
Within-BansHold {r} {s} w b = record {
  out = λ h e. ground (arith, w.members_in h, w.bans_in h e, b.out h);
}

pub Admits-BansHold :
    {h : Bytes} {r s : Roster} → Admits h r s → has h r.banlist ≡ false → BansHold r → BansHold s
Admits-BansHold {h} {r} {s} a free b = record {
  out = λ j e. elim (Bool-cases (h == j)) [
    | inl same ↦ cc (free, a.bans_in j e, ap (λ x. has x r.banlist) (beq→eq h j same))
    | inr other ↦ ground (arith, a.members_in j, a.bans_in j e, b.out j)
  ];
}

pub ban-BansHold : (save : Save) (r : Roster) (h : Bytes) → BansHold r → BansHold (ban save r h).0
unfolding ban
ban-BansHold save r h b =
    let k = to_lower h in
    let s : Roster = record r { banlist = insert k tt r.banlist; users = delete k r.users } in
    record {
      out = λ j e. ground (
        arith,
        users-persist save s,
        banlist-persist save s,
        lookup-insert k j tt r.banlist,
        lookup-delete k j r.users,
        b.out j,
      );
    }

pub length-ban-le :
    (save : Save) (r : Roster) (h : Bytes) → length (ban save r h).0.users ≤ length r.users
unfolding ban
length-ban-le save r h =
    let k = to_lower h in
    let s : Roster = record r { banlist = insert k tt r.banlist; users = delete k r.users } in
    rw (users-persist save s) (length-delete-le k r.users)

pub add_or_update-Admits :
    (save : Save) (r : Roster) (b h : Bytes) (now : ℕ)
    → normalize_hash b ≡ some h
    → Admits h r (add_or_update save r b now).0
unfolding add_or_update
add_or_update-Admits save r b h now e = elim (Option-cases (lookup h r.users)) [
  | inl f ↦ rw (e, f, add_or_update) (put_user-Admits save h _ r)
  | inr (u, f) ↦ rw (e, f, add_or_update) (put_user-Admits save h _ r)
]

pub add_invited-Admits :
    (save : Save) (r : Roster) (b h : Bytes) (now : ℕ)
    → normalize_hash b ≡ some h
    → Admits h r (add_invited save r b now).0
unfolding add_invited
add_invited-Admits save r b h now e = elim (Bool-cases (has h r.users)) [
  | inl f ↦
      rw (e, f, add_invited)
        (record { members_in = λ j g. ground arith; bans_in = λ j g. g; one_longer = omega arith })
  | inr f ↦ rw (e, f, add_invited) (put_user-Admits save h _ r)
]

-- A hash of the wrong length changes nothing.
pub add_or_update_malformed :
    (save : Save) (r : Roster) (b : Bytes) (now : ℕ)
    → normalize_hash b ≡ none
    → (add_or_update save r b now).0 ≡ r
unfolding add_or_update
add_or_update_malformed save r b now e = rw (e, add_or_update)

pub add_invited_malformed :
    (save : Save) (r : Roster) (b : Bytes) (now : ℕ)
    → normalize_hash b ≡ none
    → (add_invited save r b now).0 ≡ r
unfolding add_invited
add_invited_malformed save r b now e = rw (e, add_invited)

pub is_banned_lem :
    (r : Roster) (b h : Bytes) → normalize_hash b ≡ some h → is_banned r b ≡ has h r.banlist
unfolding is_banned
is_banned_lem r b h e = rw (e, is_banned) refl
