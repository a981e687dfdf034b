-- ===== src/Roster/Steps.antt =====
-- Every operation of the roster, as one step: it leaves the roster alone, or builds a well-formed
-- one and writes it at once, or builds one and leaves the write to the next flush.
use reticulum_group_chat.Base.{
  ℕ, ◌≡◌, refl, Bool, true, false, none, some, List, [], ◌∷◌, Option-cases, Bool-cases, inl, ltb,
  ◌∙◌, if◌then◌else◌, inr, not, ◌==◌, ◌||◌,
}
use reticulum_group_chat.Base.Maps.{
  lookup, has, delete, delete-Distinct, select-Distinct, insert-Entries, delete-Entries,
  select-Entries, lookup-Entries, select, keys,
}
use reticulum_group_chat.Base.Text.{Bytes, text, bytes_eq, to_lower, to_lower_idem}
use reticulum_group_chat.Roster.Model.{
  User, Roster, Save, new_user, persist, put_user, defer_persist, normalize_hash, flush,
}
use reticulum_group_chat.Roster.Members.{
  add_or_update, add_invited, touch, mark_message, update_last_announce, prune, is_inactive, remove,
}
use reticulum_group_chat.Roster.Settings.{
  update_user, set_paused, set_text_only, set_role, set_nickname,
}
use reticulum_group_chat.Roster.Bans.{ban, unban}
use reticulum_group_chat.Roster.Laws.{
  WellFormed, IsKeyed, IsLowered, put_user-WellFormed, persist-WellFormed, defer_persist-WellFormed,
}

pub data Op : Type 0 where
  joins invites touches speaks announces : Bytes → ℕ → Op
  prunes : ℕ → ℕ → ℕ → Op
  removes bans unbans : Bytes → Op
  pauses narrows : Bytes → Bool → Op
  grants names : Bytes → Bytes → Op
  flushes : Op

unfoldable pub apply : Save → Roster → Op → Roster
apply save r (joins b now) = (add_or_update save r b now).0
apply save r (invites b now) = (add_invited save r b now).0
apply save r (touches b now) = (touch r b now).0
apply save r (speaks b now) = (mark_message r b now).0
apply save r (announces b at) = (update_last_announce r b at).0
apply save r (prunes now idle silent) = (prune save r now idle silent).0
apply save r (removes h) = (remove save r h).0
apply save r (bans h) = (ban save r h).0
apply save r (unbans h) = (unban save r h).0
apply save r (pauses h on) = (set_paused save r h on).0
apply save r (narrows h on) = (set_text_only save r h on).0
apply save r (grants h role) = (set_role save r h role).0
apply save r (names h nick) = (set_nickname save r h nick).0
apply save r flushes = (flush save r).0

pub data Writes (save : Save) (r : Roster) : Roster → Type 0 where
  same : Writes save r r
  at_once : (s : Roster) → WellFormed s → s.store ≡ r.store → Writes save r (persist save s).0
  later : (s : Roster) → WellFormed s → s.store ≡ r.store → Writes save r (defer_persist s)

module _ (save : Save) (r : Roster) (w : WellFormed r) where
  put : (h : Bytes) (u : User) → u.hash ≡ h → Writes save r (persist save (put_user h u r)).0
  put h u e = at_once (put_user h u r) (put_user-WellFormed h u r e w) refl

  put_later : (h : Bytes) (u : User) → u.hash ≡ h → Writes save r (defer_persist (put_user h u r))
  put_later h u e = later (put_user h u r) (put_user-WellFormed h u r e w) refl

  hash-lookup : (h : Bytes) (u : User) → lookup h r.users ≡ some u → u.hash ≡ h
  hash-lookup h u e = lookup-Entries IsKeyed h u r.users w.keyed e

  add_or_update-Writes : (b : Bytes) (now : ℕ) → Writes save r (add_or_update save r b now).0
  unfolding add_or_update new_user
  add_or_update-Writes b now = elim (Option-cases (normalize_hash b)) [
    | inl e ↦ rw (e, add_or_update) same
    | inr (h, e) ↦ elim (Option-cases (lookup h r.users)) [
      | inl f ↦ rw (e, f, add_or_update) (put h _ refl)
      | inr (u, f) ↦ rw (e, f, add_or_update) (put h _ (hash-lookup h u f))
    ]
  ]

  add_invited-Writes : (b : Bytes) (now : ℕ) → Writes save r (add_invited save r b now).0
  unfolding add_invited new_user
  add_invited-Writes b now = elim (Option-cases (normalize_hash b)) [
    | inl e ↦ rw (e, add_invited) same
    | inr (h, e) ↦ elim (Bool-cases (has h r.users)) [
      | inl f ↦ rw (e, f, add_invited) same
      | inr f ↦ rw (e, f, add_invited) (put h _ refl)
    ]
  ]

  touch-Writes : (b : Bytes) (now : ℕ) → Writes save r (touch r b now).0
  unfolding touch
  touch-Writes b now = elim (Option-cases (normalize_hash b)) [
    | inl e ↦ rw (e, touch) same
    | inr (h, e) ↦ elim (Option-cases (lookup h r.users)) [
      | inl f ↦ rw (e, f, touch) same
      | inr (u, f) ↦ rw (e, f, touch) (put_later h _ (hash-lookup h u f))
    ]
  ]

  mark_message-Writes : (b : Bytes) (now : ℕ) → Writes save r (mark_message r b now).0
  unfolding mark_message
  mark_message-Writes b now = elim (Option-cases (normalize_hash b)) [
    | inl e ↦ rw (e, mark_message) same
    | inr (h, e) ↦ elim (Option-cases (lookup h r.users)) [
      | inl f ↦ rw (e, f, mark_message) same
      | inr (u, f) ↦ rw (e, f, mark_message) (put_later h _ (hash-lookup h u f))
    ]
  ]

  update_last_announce-Writes : (b : Bytes) (at : ℕ) → Writes save r (update_last_announce r b at).0
  unfolding update_last_announce
  update_last_announce-Writes b at = elim (Option-cases (normalize_hash b)) [
    | inl e ↦ rw (e, update_last_announce) same
    | inr (h, e) ↦ elim (Option-cases (lookup h r.users)) [
      | inl f ↦ rw (e, f, update_last_announce) same
      | inr (u, f) ↦ elim (Bool-cases (ltb u.last_announce_at at)) [
        | inl g ↦ rw (e, f, g, update_last_announce) (put_later h _ (hash-lookup h u f))
        | inr g ↦ rw (e, f, g, update_last_announce) same
      ]
    ]
  ]

  select-WellFormed : (t : Bytes → User → Bool) → WellFormed (record r { users = select t r.users })
  select-WellFormed t = record {
    distinct = select-Distinct t r.users w.distinct;
    keyed = select-Entries IsKeyed t r.users w.keyed;
    lowered = w.lowered;
  }

  delete-WellFormed : (h : Bytes) → WellFormed (record r { users = delete h r.users })
  delete-WellFormed h = record {
    distinct = delete-Distinct h r.users w.distinct;
    keyed = delete-Entries IsKeyed h r.users w.keyed;
    lowered = w.lowered;
  }

  prune-Writes : (now idle silent : ℕ) → Writes save r (prune save r now idle silent).0
  unfolding prune
  prune-Writes now idle silent = go (keys (select (λ _. is_inactive now idle silent) r.users)) refl
    where
      stay : Roster
      stay = record r { users = select (λ _ u. not (is_inactive now idle silent u)) r.users }

      go :
          (l : List Bytes)
          → keys (select (λ _. is_inactive now idle silent) r.users) ≡ l
          → Writes save r (prune save r now idle silent).0
      go [] e = rw (e, prune) same
      go (h ∷ hs) e =
          rw (e, prune)
            (at_once stay (select-WellFormed (λ _ u. not (is_inactive now idle silent u))) refl)

  remove-Writes : (h : Bytes) → Writes save r (remove save r h).0
  unfolding remove
  remove-Writes h = elim (Bool-cases (has (to_lower h) r.users)) [
    | inl e ↦ rw (e, remove) (at_once _ (delete-WellFormed (to_lower h)) refl)
    | inr e ↦ rw (e, remove) same
  ]

  ban-Writes : (h : Bytes) → Writes save r (ban save r h).0
  unfolding ban
  ban-Writes h =
      at_once _
        (record {
          distinct = delete-Distinct (to_lower h) r.users w.distinct;
          keyed = delete-Entries IsKeyed (to_lower h) r.users w.keyed;
          lowered = insert-Entries IsLowered (to_lower h) tt r.banlist (to_lower_idem h) w.lowered;
        })
        refl

  unban-Writes : (h : Bytes) → Writes save r (unban save r h).0
  unfolding unban
  unban-Writes h = elim (Bool-cases (has (to_lower h) r.banlist)) [
    | inl e ↦
        rw (e, unban)
          (at_once _
            (record {
              distinct = w.distinct;
              keyed = w.keyed;
              lowered = delete-Entries IsLowered (to_lower h) r.banlist w.lowered;
            })
            refl)
    | inr e ↦ rw (e, unban) same
  ]

  update_user-Writes :
      (h : Bytes) (f : User → User)
      → ((u : User) → (f u).hash ≡ u.hash)
      → Writes save r (update_user save r h f).0
  unfolding update_user
  update_user-Writes h f keeps = elim (Option-cases (lookup (to_lower h) r.users)) [
    | inl e ↦ rw (e, update_user) same
    | inr (u, e) ↦
        rw (e, update_user) (put (to_lower h) (f u) (keeps u ∙ hash-lookup (to_lower h) u e))
  ]

  set_role-Writes : (h role : Bytes) → Writes save r (set_role save r h role).0
  unfolding set_role
  set_role-Writes h role =
      elim (Bool-cases (role == [] || (role == text "mod" || role == text "admin"))) [
        | inl e ↦ rw e (update_user-Writes h (λ u. record u { role = role }) (λ u. refl))
        | inr e ↦ rw e same
      ]

  flush-Writes : Writes save r (flush save r).0
  unfolding flush
  flush-Writes = go r.dirty
    where
      go : (b : Bool) → Writes save r ((if not b then (r, none) else persist save r).0)
      go true = at_once r w refl
      go false = same

  pub apply-Writes : (o : Op) → Writes save r (apply save r o)
  unfolding apply set_paused set_text_only set_nickname
  apply-Writes (joins b now) = add_or_update-Writes b now
  apply-Writes (invites b now) = add_invited-Writes b now
  apply-Writes (touches b now) = touch-Writes b now
  apply-Writes (speaks b now) = mark_message-Writes b now
  apply-Writes (announces b at) = update_last_announce-Writes b at
  apply-Writes (prunes now idle silent) = prune-Writes now idle silent
  apply-Writes (removes h) = remove-Writes h
  apply-Writes (bans h) = ban-Writes h
  apply-Writes (unbans h) = unban-Writes h
  apply-Writes (pauses h on) = update_user-Writes h (λ u. record u { paused = on }) (λ u. refl)
  apply-Writes (narrows h on) = update_user-Writes h (λ u. record u { text_only = on }) (λ u. refl)
  apply-Writes (grants h role) = set_role-Writes h role
  apply-Writes (names h nick) = update_user-Writes h (λ u. record u { nickname = nick }) (λ u. refl)
  apply-Writes flushes = flush-Writes

Writes-WellFormed : {save : Save} {r s : Roster} → WellFormed r → Writes save r s → WellFormed s
Writes-WellFormed w same = w
Writes-WellFormed {save} w (at_once s v e) = persist-WellFormed save s v
Writes-WellFormed w (later s v e) = defer_persist-WellFormed s v

pub apply-WellFormed :
    (save : Save) (r : Roster) (o : Op) → WellFormed r → WellFormed (apply save r o)
apply-WellFormed save r o w = Writes-WellFormed w (apply-Writes save r w o)

-- Operations with the outcome of each one's write.
unfoldable pub run : Roster → List (Save × Op) → Roster
run r [] = r
run r ((save, o) ∷ ops) = run (apply save r o) ops

-- From a well-formed roster, any operations, with failing writes too, lead to one: each hash has one
-- entry, which names it, and every banned hash is in lower case.
pub run-WellFormed : (r : Roster) (ops : List (Save × Op)) → WellFormed r → WellFormed (run r ops)
unfolding run
run-WellFormed r [] w = w
run-WellFormed r ((save, o) ∷ ops) w =
    run-WellFormed (apply save r o) ops (apply-WellFormed save r o w)
