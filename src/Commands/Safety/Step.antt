-- ===== src/Commands/Safety/Step.antt =====
-- Proofs on internal/commands/handlers.go: one step of the roster, and how the parts of a handler
-- make it.
use reticulum_group_chat.Base.{
  ℕ, ◌≡◌, ◌≤◌, ◌<◌, ◌⊎◌, refl, sym, ◌∙◌, Bool, true, false, ◌||◌, ◌&&◌, Option, none, some, [],
  arith, Option-cases, inl, inr, if_cases, option_cases, ◌==◌, length, ltb, leb,
}
use reticulum_group_chat.Base.Maps.{has}
use reticulum_group_chat.Base.Text.{Bytes, bytes_eq}
use reticulum_group_chat.Roster.Model.{Roster, Error, normalize_hash}
use reticulum_group_chat.Roster.Members.{add_or_update, add_invited, get, len}
use reticulum_group_chat.Roster.Bans.{is_banned}
use reticulum_group_chat.Roster.Effects.{
  Within, Within-refl, Within-BansHold, Admits, Admits-BansHold, BansHold, add_or_update-Admits,
  add_invited-Admits, add_or_update_malformed, add_invited_malformed, is_banned_lem,
  set_nickname-Within,
}
use reticulum_group_chat.Commands.Nickname.{sanitize_nickname}
use reticulum_group_chat.Commands.Model.{Env, Event, Chat}
use reticulum_group_chat.Commands.Membership.{
  adopt_announced_name, adopt_missing_name, answer, tell, is_full, without_flag,
}

-- One step from `r` to `s` under a cap; 0 is no cap.
pub record IsSafeStep (cap : ℕ) (r s : Roster) : Type 0 where
  pub bans : BansHold r → BansHold s
  pub capped : 0 < cap → (length s.users ≤ length r.users) ⊎ (length s.users ≤ cap)

pub Within-IsSafeStep : {cap : ℕ} {r s : Roster} → Within r s → IsSafeStep cap r s
Within-IsSafeStep w = record { bans = Within-BansHold w; capped = λ _. inl w.no_longer }

pub same-IsSafeStep : (cap : ℕ) (r : Roster) → IsSafeStep cap r r
same-IsSafeStep cap r = Within-IsSafeStep (Within-refl r)

pub then-Within : {cap : ℕ} {r s t : Roster} → IsSafeStep cap r s → Within s t → IsSafeStep cap r t
then-Within {cap} {r} {s} {t} a w = record {
  bans = λ b. Within-BansHold w (a.bans b);
  capped = λ p. elim (a.capped p) [
    | inl x ↦ inl (omega (arith, w.no_longer))
    | inr x ↦ inr (omega (arith, w.no_longer))
  ];
}

-- A new member who is not banned, in a group that is not full.
pub Admits-IsSafeStep :
    {cap : ℕ} {h : Bytes} {r s : Roster}
    → Admits h r s
    → has h r.banlist ≡ false
    → (ltb 0 cap && leb cap (length r.users)) ≡ false
    → IsSafeStep cap r s
Admits-IsSafeStep {cap} {h} {r} {s} a free room = record {
  bans = Admits-BansHold a free;
  capped = λ p. inr (ground (arith, a.one_longer));
}

pub adopt_announced_name-Within :
    (env : Env) (hash hb : Bytes) (r : Roster) → Within r (adopt_announced_name env hash hb r)
unfolding adopt_announced_name
adopt_announced_name-Within env hash hb r =
    option_cases (Within r) env.lookup_announced_name (λ _. Within-refl r)
      λ f _.
        if_cases (Within r) (f hb == [] || sanitize_nickname (f hb) == []) (λ _. Within-refl r)
          (λ _. set_nickname-Within env.save r hash (sanitize_nickname (f hb)))

pub adopt_missing_name-Within :
    (env : Env) (hash hb : Bytes) (r : Roster) → Within r (adopt_missing_name env hash hb r)
unfolding adopt_missing_name
adopt_missing_name-Within env hash hb r =
    option_cases (Within r) (get r hash) (λ _. Within-refl r)
      λ u _.
        if_cases (Within r) (u.nickname == []) (λ _. adopt_announced_name-Within env hash hb r)
          (λ _. Within-refl r)

pub roster-answer {ℓ} :
    {R : Type ℓ} (chat : Chat) (x : Roster × Option Error) (done : R) (f : Error → R)
    → (answer chat x done f).0.roster ≡ x.0
roster-answer chat (r, none) done f = refl
roster-answer chat (r, some e) done f = refl

module _ (env : Env) (chat : Chat) where
  abbrev pub Safe : Roster → Type 0
  Safe = IsSafeStep env.cfg.max_members chat.roster

  pub unchanged : Safe chat.roster
  unchanged = same-IsSafeStep env.cfg.max_members chat.roster

  pub answer-Safe {ℓ} :
      {R : Type ℓ} (x : Roster × Option Error) (done : R) (f : Error → R)
      → Within chat.roster x.0
      → Safe (answer chat x done f).0.roster
  answer-Safe x done f w = rw (roster-answer chat x done f) (Within-IsSafeStep w)

  pub admit-Safe :
      (hb : Bytes)
      → is_banned chat.roster hb ≡ false
      → is_full env chat.roster ≡ false
      → Safe (add_or_update env.save chat.roster hb env.now).0
  admit-Safe hb free room = elim (Option-cases (normalize_hash hb)) [
    | inl e ↦ rw (add_or_update_malformed env.save chat.roster hb env.now e) unchanged
    | inr (h, e) ↦
        Admits-IsSafeStep (add_or_update-Admits env.save chat.roster hb h env.now e)
          (sym (is_banned_lem chat.roster hb h e) ∙ free) (unfold len in room)
  ]

  pub invite-Safe :
      (hb : Bytes)
      → is_banned chat.roster hb ≡ false
      → is_full env chat.roster ≡ false
      → Safe (add_invited env.save chat.roster hb env.now).0
  invite-Safe hb free room = elim (Option-cases (normalize_hash hb)) [
    | inl e ↦ rw (add_invited_malformed env.save chat.roster hb env.now e) unchanged
    | inr (h, e) ↦
        Admits-IsSafeStep (add_invited-Admits env.save chat.roster hb h env.now e)
          (sym (is_banned_lem chat.roster hb h e) ∙ free) (unfold len in room)
  ]

  -- A result of a handler, with any type of reply.
  abbrev pub After {ℓ} : {R : Type ℓ} → Chat × R → Type 0
  After x = Safe x.0.roster

  pub roster-tell : (wired : Bool) (e : Event) (c : Chat) → (tell wired e c).roster ≡ c.roster
  roster-tell true e c = refl
  roster-tell false e c = refl

  pub flag-answer {ℓ} :
      {R : Type ℓ} (x : Roster × Bool × Option Error) (done : R) (f : Error → R)
      → Within chat.roster x.0
      → Safe (answer chat (without_flag x) done f).0.roster
  flag-answer (r, b, e) done f w = answer-Safe (r, e) done f w
