-- ===== src/Roster/Activity.antt =====
-- Proofs on the clocks of a member, of internal/roster/roster.go: speech, presence and announces.
use reticulum_group_chat.Base.{
  ℕ, ◌+◌, ◌≡◌, ◌<◌, ◌≤◌, ◌==◌, refl, sym, ap, ◌∙◌, true, false, none, some, List, [], ◌∷◌, arith,
  Option-cases, Bool-cases, inl, inr, ltb, nat_eq, if◌then◌else◌, All, subst, beq→eq, beq_refl,
}
use reticulum_group_chat.Base.Maps.{lookup, lookup-insert, contains}
use reticulum_group_chat.Base.Text.{Bytes, bytes_eq}
use reticulum_group_chat.Roster.Model.{
  User, Roster, Save, last_spoke, normalize_hash, defer_persist, put_user,
}
use reticulum_group_chat.Roster.Members.{is_inactive, prune, touch, update_last_announce}
use reticulum_group_chat.Roster.Laws.{WellFormed, users-defer_persist}
use reticulum_group_chat.Roster.Steps.{Op, touches, announces, apply, run, run-WellFormed}
use reticulum_group_chat.Roster.Pruning.{lookup-prune}

-- A member heard from at some time, who last spoke at `t`.
record LastSpoke (h : Bytes) (t : ℕ) (r : Roster) : Type 0 where
  user : User
  there : lookup h r.users ≡ some user
  heard : user.invited ≡ false
  spoke : last_spoke user ≡ t

-- Commands, paused messages and announces: presence without speech.
abbrev pub IsPresence : Op → Type 0
IsPresence (touches b now) = Unit
IsPresence (announces b at) = Unit
IsPresence _ = ⊥

lookup-put_later :
    (k h : Bytes) (u : User) (r : Roster)
    → lookup h (defer_persist (put_user k u r)).users
      ≡ (if k == h then some u else lookup h r.users)
lookup-put_later k h u r = rw (users-defer_persist (put_user k u r)) (lookup-insert k h u r.users)

module _ (h : Bytes) (t : ℕ) (r : Roster) (l : LastSpoke h t r) where
  put_later-LastSpoke :
      (k : Bytes) (u : User)
      → (k ≡ h → (u.invited ≡ false) × (last_spoke u ≡ t))
      → LastSpoke h t (defer_persist (put_user k u r))
  put_later-LastSpoke k u keeps = elim (Bool-cases (k == h)) [
    | inl e ↦
        let (i, s) = keeps (beq→eq k h e) in
        record { user = u; there = lookup-put_later k h u r ∙ (rw e); heard = i; spoke = s }
    | inr e ↦ record {
      user = l.user;
      there = lookup-put_later k h u r ∙ (rw e l.there);
      heard = l.heard;
      spoke = l.spoke;
    }
  ]

  -- Two entries found under one hash are one entry.
  spoke-lookup : (k : Bytes) (u : User) → lookup k r.users ≡ some u → k ≡ h → last_spoke u ≡ t
  spoke-lookup k u e same_key =
      let same_user : u ≡ l.user = cc (l.there) in ap last_spoke same_user ∙ l.spoke

  touch-LastSpoke : (b : Bytes) (now : ℕ) → LastSpoke h t (touch r b now).0
  unfolding touch last_spoke
  touch-LastSpoke b now = elim (Option-cases (normalize_hash b)) [
    | inl e ↦ rw (e, touch) l
    | inr (k, e) ↦ elim (Option-cases (lookup k r.users)) [
      | inl f ↦ rw (e, f, touch) l
      | inr (u, f) ↦
          rw (e, f, touch)
            (put_later-LastSpoke k _ (λ same_key. (refl, spoke-lookup k u f same_key)))
    ]
  ]

  update_last_announce-LastSpoke :
      (b : Bytes) (at : ℕ) → LastSpoke h t (update_last_announce r b at).0
  unfolding update_last_announce last_spoke
  update_last_announce-LastSpoke b at = elim (Option-cases (normalize_hash b)) [
    | inl e ↦ rw (e, update_last_announce) l
    | inr (k, e) ↦ elim (Option-cases (lookup k r.users)) [
      | inl f ↦ rw (e, f, update_last_announce) l
      | inr (u, f) ↦ elim (Bool-cases (ltb u.last_announce_at at)) [
        | inl g ↦
            rw (e, f, g, update_last_announce)
              (put_later-LastSpoke k _ (λ same_key. (refl, spoke-lookup k u f same_key)))
        | inr g ↦ rw (e, f, g, update_last_announce) l
      ]
    ]
  ]

apply-LastSpoke :
    (h : Bytes) (t : ℕ) (save : Save) (r : Roster) (o : Op)
    → IsPresence o
    → LastSpoke h t r
    → LastSpoke h t (apply save r o)
unfolding apply
apply-LastSpoke h t save r (touches b now) p l = touch-LastSpoke h t r l b now
apply-LastSpoke h t save r (announces b at) p l = update_last_announce-LastSpoke h t r l b at
apply-LastSpoke h t save r _ p l = absurd p

run-LastSpoke :
    (h : Bytes) (t : ℕ) (r : Roster) (ops : List (Save × Op))
    → All (λ o. IsPresence o.1) ops
    → LastSpoke h t r
    → LastSpoke h t (run r ops)
unfolding run
run-LastSpoke h t r [] p l = l
run-LastSpoke h t r ((save, o) ∷ ops) p l =
    run-LastSpoke h t (apply save r o) ops p.1 (apply-LastSpoke h t save r o p.0 l)

silent_goes :
    (now idle silent : ℕ) (u : User)
    → u.invited ≡ false
    → 0 < silent
    → last_spoke u + silent < now
    → is_inactive now idle silent u ≡ true
unfolding is_inactive
silent_goes now idle silent u i s q = ground arith

-- In a well-formed roster, with a silent cutoff above 0: a member who is not a mere invitee and
-- last sent a message, or joined, more than the cutoff ago is swept by a prune, however often commands
-- and announces, of anybody, came in since.
pub lurker_swept :
    (r : Roster) (ops : List (Save × Op)) (save : Save) (h : Bytes) (u : User) (now idle silent : ℕ)
    → WellFormed r
    → All (λ o. IsPresence o.1) ops
    → lookup h r.users ≡ some u
    → u.invited ≡ false
    → 0 < silent
    → last_spoke u + silent < now
    → lookup h (prune save (run r ops) now idle silent).0.users ≡ none
lurker_swept r ops save h u now idle silent w p e i s q =
    let l =
      run-LastSpoke h (last_spoke u) r ops p
        (record { user = u; there = e; heard = i; spoke = refl }) in
    rw
      (
        lookup-prune save (run r ops) now idle silent (run-WellFormed r ops w) h,
        l.there,
        silent_goes now idle silent l.user l.heard s (rw l.spoke q),
      )
      refl

-- The greatest of the times so far, as the announces come in.
abbrev pub latest : ℕ → List ℕ → ℕ
latest t [] = t
latest t (a ∷ ats) = latest (if ltb t a then a else t) ats

unfoldable pub announce_all : Roster → Bytes → List ℕ → Roster
announce_all r b [] = r
announce_all r b (a ∷ ats) = announce_all (update_last_announce r b a).0 b ats

record AnnouncedAt (h : Bytes) (t m : ℕ) (r : Roster) : Type 0 where
  user : User
  there : lookup h r.users ≡ some user
  announced : user.last_announce_at ≡ t
  silent_since : user.last_message_at ≡ m

announce-AnnouncedAt :
    (h b : Bytes) (t m at : ℕ) (r : Roster)
    → normalize_hash b ≡ some h
    → AnnouncedAt h t m r
    → AnnouncedAt h (if ltb t at then at else t) m (update_last_announce r b at).0
unfolding update_last_announce
announce-AnnouncedAt h b t m at r e l = elim (Bool-cases (ltb l.user.last_announce_at at)) [
  | inl g ↦
      rw (e, l.there, g, update_last_announce, ← l.announced, g)
        (record {
          user = record l.user { last_announce_at = at; invited = false };
          there = lookup-put_later h h _ r ∙ (rw (beq_refl h));
          announced = refl;
          silent_since = l.silent_since;
        })
  | inr g ↦
      rw (e, l.there, g, update_last_announce, ← l.announced, g)
        (record { user = l.user; there = l.there; announced = refl; silent_since = l.silent_since })
]

announce_all-AnnouncedAt :
    (h b : Bytes) (t m : ℕ) (ats : List ℕ) (r : Roster)
    → normalize_hash b ≡ some h
    → AnnouncedAt h t m r
    → AnnouncedAt h (latest t ats) m (announce_all r b ats)
unfolding announce_all
announce_all-AnnouncedAt h b t m [] r e l = l
announce_all-AnnouncedAt h b t m (a ∷ ats) r e l =
    announce_all-AnnouncedAt h b (if ltb t a then a else t) m ats (update_last_announce r b a).0 e
      (announce-AnnouncedAt h b t m a r e l)

latest-ge : (t : ℕ) (ats : List ℕ) → t ≤ latest t ats
latest-ge t [] = omega arith
latest-ge t (a ∷ ats) = ground (arith, latest-ge (if ltb t a then a else t) ats)

latest_greatest : (t : ℕ) (ats : List ℕ) → All (λ a. a ≤ latest t ats) ats
latest_greatest t [] = tt
latest_greatest t (a ∷ ats) = (
  ground (arith, latest-ge (if ltb t a then a else t) ats),
  latest_greatest (if ltb t a then a else t) ats,
)

latest-is_one : (t : ℕ) (ats : List ℕ) → contains (t ∷ ats) (latest t ats) ≡ true
unfolding contains
latest-is_one t [] = ground arith
latest-is_one t (a ∷ ats) = ground (arith, latest-is_one (if ltb t a then a else t) ats)

-- However announces of a member with a 16-byte address come in, replayed or out of order, the
-- member's announce time ends as the greatest of them and the time before, and the time of the
-- last message stays.
announce_all_greatest :
    (r : Roster) (b h : Bytes) (u : User) (ats : List ℕ)
    → normalize_hash b ≡ some h
    → lookup h r.users ≡ some u
    → (v : User) × (lookup h (announce_all r b ats).users ≡ some v)
      × (All (λ a. a ≤ v.last_announce_at) (u.last_announce_at ∷ ats))
      × (contains (u.last_announce_at ∷ ats) v.last_announce_at ≡ true)
      × (v.last_message_at ≡ u.last_message_at)
announce_all_greatest r b h u ats e f =
    let t = u.last_announce_at in
    let l =
      announce_all-AnnouncedAt h b t u.last_message_at ats r e
        (record { user = u; there = f; announced = refl; silent_since = refl }) in
    let end = latest t ats in
    (
      l.user,
      l.there,
      subst (λ x. All (λ a. a ≤ x) (t ∷ ats)) (sym l.announced)
          (latest-ge t ats, latest_greatest t ats),
      subst (λ x. contains (t ∷ ats) x ≡ true) (sym l.announced) (latest-is_one t ats),
      l.silent_since,
    )
