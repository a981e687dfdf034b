-- ===== src/Service/Enroll.antt =====
-- internal/service/service.go: the enrolment of the configuration's admins and mods at start-up.
-- `hex.DecodeString` with a result of 16 bytes accepts what `must_hex_bytes` accepts.
use reticulum_group_chat.Base.{
  ℕ, ◌+◌, ◌≡◌, refl, sym, ◌∙◌, ap, subst, Bool, true, false, Option, none, some, List, [], ◌∷◌,
  ◌++◌, if◌then◌else◌, ◌==◌, if_cases, option_cases, Bool-cases, Option-cases, inl, inr, beq→eq,
  beq_refl, arith,
}
use reticulum_group_chat.Base.Maps.{lookup, has, contains, lookup-insert}
use reticulum_group_chat.Base.Text.{Bytes, bytes_eq, to_lower}
use reticulum_group_chat.Hex.{must_hex_bytes, encode-must_hex_bytes}
use reticulum_group_chat.Roster.Model.{User, Roster, Save, Error, normalize_hash, put_user}
use reticulum_group_chat.Roster.Members.{add_invited, has_member}
use reticulum_group_chat.Roster.Laws.{users-persist, banlist-persist}
use reticulum_group_chat.Commands.Model.{Config}

abbrev counted : ℕ → Roster × Bool × Option Error → Roster × ℕ
counted n (r, added, none) = (r, n + 1)
counted n (r, added, some e) = (r, n)

unfoldable pub enroll_one : Save → ℕ → Roster × ℕ → Bytes → Roster × ℕ
enroll_one save now (r, n) h = elim (must_hex_bytes h) [
  | none ↦ (r, n)
  | some hb ↦ if has_member r hb then (r, n) else counted n (add_invited save r hb now)
]

unfoldable pub enroll_all : Save → ℕ → Roster × ℕ → List Bytes → Roster × ℕ
unfolding enroll_one
enroll_all save now x [] = x
enroll_all save now x (h ∷ hs) = enroll_all save now (enroll_one save now x h) hs

unfoldable pub enroll_config_roles : Save → Roster → Config → ℕ → Roster × ℕ
unfolding enroll_all
enroll_config_roles save r cfg now = enroll_all save now (r, 0) (cfg.admins ++ cfg.mods)

-- From `r` to `s` entries are added at most.
pub record Extends (r s : Roster) : Type 0 where
  pub kept : (h : Bytes) (u : User) → lookup h r.users ≡ some u → lookup h s.users ≡ some u
  pub bans : s.banlist ≡ r.banlist

Extends-refl : (r : Roster) → Extends r r
Extends-refl r = record { kept = λ h u e. e; bans = refl }

Extends-trans : (r s t : Roster) → Extends r s → Extends s t → Extends r t
Extends-trans r s t a b = record {
  kept = λ h u e. b.kept h u (a.kept h u e);
  bans = b.bans ∙ a.bans;
}

-- A new key leaves the entries that are there.
elsewhere :
    (h : Bytes) (v : User) (r : Roster)
    → has h r.users ≡ false
    → (j : Bytes) (u : User) → lookup j r.users ≡ some u
    → (if h == j then some v else lookup j r.users) ≡ some u
elsewhere h v r new j u e = elim (Bool-cases (h == j)) [
  | inl same ↦
      let there : has h r.users ≡ true = rw (beq→eq h j same, e) refl in
      let bad : true ≡ false = sym there ∙ new in ground arith
  | inr other ↦ rw other e
]

add_invited-Extends :
    (save : Save) (r : Roster) (b : Bytes) (now : ℕ) → Extends r (add_invited save r b now).0
unfolding add_invited
add_invited-Extends save r b now =
    option_cases {B = Roster × Bool × Option Error} (λ x. Extends r x.0) (normalize_hash b)
      (λ _. Extends-refl r)
      λ h _.
        if_cases {A = Roster × Bool × Option Error} (λ x. Extends r x.0) (has h r.users)
          (λ _. Extends-refl r)
          λ new. record {
            kept = λ j u e.
                rw (users-persist save (put_user h _ r), lookup-insert h j _ r.users)
                  (elsewhere h _ r new j u e);
            bans = banlist-persist save (put_user h _ r);
          }

roster-counted : (n : ℕ) (x : Roster × Bool × Option Error) → (counted n x).0 ≡ x.0
roster-counted n (r, added, none) = refl
roster-counted n (r, added, some e) = refl

enroll_one-Extends :
    (save : Save) (now : ℕ) (x : Roster × ℕ) (h : Bytes) → Extends x.0 (enroll_one save now x h).0
unfolding enroll_one
enroll_one-Extends save now (r, n) h =
    option_cases {B = Roster × ℕ} (λ x. Extends r x.0) (must_hex_bytes h) (λ _. Extends-refl r)
      λ hb _.
        if_cases {A = Roster × ℕ} (λ x. Extends r x.0) (has_member r hb) (λ _. Extends-refl r)
          λ _.
            subst (Extends r) (sym (roster-counted n (add_invited save r hb now)))
              (add_invited-Extends save r hb now)

enroll_all-Extends :
    (save : Save) (now : ℕ) (x : Roster × ℕ) (hs : List Bytes)
    → Extends x.0 (enroll_all save now x hs).0
unfolding enroll_all
enroll_all-Extends save now x [] = Extends-refl x.0
enroll_all-Extends save now x (h ∷ hs) =
    Extends-trans x.0 (enroll_one save now x h).0
      (enroll_all save now (enroll_one save now x h) hs).0 (enroll_one-Extends save now x h)
      (enroll_all-Extends save now (enroll_one save now x h) hs)

-- The address of `h` is a member of what `/adduser` and the enrolment build.
has-add_invited :
    (save : Save) (r : Roster) (b h : Bytes) (now : ℕ)
    → normalize_hash b ≡ some h
    → has h (add_invited save r b now).0.users ≡ true
unfolding add_invited
has-add_invited save r b h now e = elim (Bool-cases (has h r.users)) [
  | inl f ↦ rw (e, f, add_invited) f
  | inr f ↦
      rw (e, f, add_invited, users-persist save (put_user h _ r))
        (rw (lookup-insert h h _ r.users, beq_refl h) refl)
]

has_member_lem :
    (r : Roster) (b h : Bytes) → normalize_hash b ≡ some h → has_member r b ≡ has h r.users
unfolding has_member
has_member_lem r b h e = rw (e, has_member) refl

has-enroll_one :
    (save : Save) (now : ℕ) (x : Roster × ℕ) (h b : Bytes)
    → must_hex_bytes h ≡ some b
    → normalize_hash b ≡ some h
    → has h (enroll_one save now x h).0.users ≡ true
unfolding enroll_one
has-enroll_one save now (r, n) h b d e =
    rw (d, enroll_one)
      (if_cases {A = Roster × ℕ} (λ x. has h x.0.users ≡ true) (has_member r b)
        (λ f. sym (has_member_lem r b h e) ∙ f)
        (λ _. rw (roster-counted n (add_invited save r b now)) (has-add_invited save r b h now e)))

has-Extends : (r s : Roster) (h : Bytes) → Extends r s → has h r.users ≡ true → has h s.users ≡ true
has-Extends r s h x e = elim (Option-cases (lookup h r.users)) [
  | inl f ↦ ground arith
  | inr (u, f) ↦ rw (x.kept h u f) refl
]

has-enroll_all :
    (save : Save) (now : ℕ) (x : Roster × ℕ) (hs : List Bytes) (h b : Bytes)
    → contains hs h ≡ true
    → must_hex_bytes h ≡ some b
    → normalize_hash b ≡ some h
    → has h (enroll_all save now x hs).0.users ≡ true
unfolding enroll_all contains
has-enroll_all save now x [] h b m d e = ground arith
has-enroll_all save now x (j ∷ hs) h b m d e = elim (Bool-cases (j == h)) [
  | inl same ↦
      let here : has h (enroll_one save now x j).0.users ≡ true =
        subst (λ k. has h (enroll_one save now x k).0.users ≡ true) (sym (beq→eq j h same))
          (has-enroll_one save now x h b d e) in
      has-Extends (enroll_one save now x j).0 (enroll_all save now (enroll_one save now x j) hs).0 h
        (enroll_all-Extends save now (enroll_one save now x j) hs) here
  | inr other ↦ has-enroll_all save now (enroll_one save now x j) hs h b (ground arith) d e
]

-- After the enrolment each admin and mod of the configuration whose hash is 32 hex digits in lower case
-- is a member, every entry that was there is unchanged, and so is the ban list; failing writes do not
-- change that.
pub enroll_config_roles_lem :
    (save : Save) (r : Roster) (cfg : Config) (now : ℕ) (h b : Bytes)
    → contains (cfg.admins ++ cfg.mods) h ≡ true
    → must_hex_bytes h ≡ some b
    → to_lower h ≡ h
    → (has h (enroll_config_roles save r cfg now).0.users ≡ true)
      × Extends r (enroll_config_roles save r cfg now).0
unfolding enroll_config_roles normalize_hash
enroll_config_roles_lem save r cfg now h b m d low =
    let (p, n) = encode-must_hex_bytes h b d low in
    let e : normalize_hash b ≡ some h = rw n (ap some p) in
    (
      has-enroll_all save now (r, 0) (cfg.admins ++ cfg.mods) h b m d e,
      enroll_all-Extends save now (r, 0) (cfg.admins ++ cfg.mods),
    )
