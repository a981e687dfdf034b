-- ===== src/Roster/Pruning.antt =====
-- Proofs on `Prune` of internal/roster/roster.go.
use reticulum_group_chat.Base.{
  ℕ, ◌+◌, ◌<◌, ◌≡◌, ◌↔◌, ◌⊎◌, inl, inr, refl, sym, ◌∙◌, Bool, true, false, ltb, ◌&&◌, Bool-cases,
  Option, none, some, List, [], ◌∷◌, arith, not, if◌then◌else◌,
}
use reticulum_group_chat.Base.Maps.{
  Map, lookup, contains, contains-keys, keys, select, lookup-select,
}
use reticulum_group_chat.Base.Text.{Bytes, bytes_eq}
use reticulum_group_chat.Roster.Model.{User, Roster, Save, last_seen, last_spoke}
use reticulum_group_chat.Roster.Members.{is_inactive, prune}
use reticulum_group_chat.Roster.Laws.{WellFormed, users-persist, banlist-persist}

no_keys : (m : Map Bytes User) (h : Bytes) → keys m ≡ [] → lookup h m ≡ none
unfolding keys lookup
no_keys [] h e = refl
no_keys ((j, u) ∷ m) h e = cc

-- What a sweep makes of an entry.
abbrev pub unless_inactive : ℕ → ℕ → ℕ → Option User → Option User
unless_inactive now idle silent none = none
unless_inactive now idle silent (some u) = if is_inactive now idle silent u then none else some u

abbrev pub goes : ℕ → ℕ → ℕ → Option User → Bool
goes now idle silent none = false
goes now idle silent (some u) = is_inactive now idle silent u

-- Nothing of the member, not even the join, is within the cutoff.
abbrev pub IsGone : ℕ → ℕ → User → Type 0
IsGone now cutoff u =
    (u.joined_at + cutoff < now)
    × (u.last_message_at + cutoff < now)
    × (u.last_announce_at + cutoff < now)
    × (u.last_command_at + cutoff < now)

-- The member joined before the cutoff, and said nothing since.
abbrev pub IsSilent : ℕ → ℕ → User → Type 0
IsSilent now cutoff u =
    (0 < cutoff) × (u.joined_at + cutoff < now) × (u.last_message_at + cutoff < now)

abbrev pub IsSwept : ℕ → ℕ → ℕ → User → Type 0
IsSwept now idle silent u = (u.invited ≡ false) × (IsGone now idle u ⊎ IsSilent now silent u)

seen_before_cutoff :
    (u : User) (now cutoff : ℕ) → (ltb (last_seen u + cutoff) now ≡ true) ↔ IsGone now cutoff u
unfolding last_seen
seen_before_cutoff u now cutoff = (λ h. ground arith, λ g. ground arith)

spoke_before_cutoff :
    (u : User) (now cutoff : ℕ)
    → ((ltb 0 cutoff && ltb (last_spoke u + cutoff) now) ≡ true) ↔ IsSilent now cutoff u
unfolding last_spoke
spoke_before_cutoff u now cutoff = (λ h. ground arith, λ g. ground arith)

is_inactive_iff :
    (now idle silent : ℕ) (u : User)
    → (is_inactive now idle silent u ≡ true) ↔ IsSwept now idle silent u
unfolding is_inactive
is_inactive_iff now idle silent u =
    let gone = seen_before_cutoff u now idle in
    let quiet = spoke_before_cutoff u now silent in
    (
      λ h. (
        ground arith,
        elim (Bool-cases (ltb (last_seen u + idle) now)) [
          | inl g ↦ inl (gone.0 g)
          | inr n ↦ inr (quiet.0 (ground arith))
        ],
      ),
      λ s.
          let heard = s.0 in
          elim (s.1) [
            | inl g ↦ let g' = gone.1 g in ground (arith, heard, g')
            | inr q ↦ let q' = quiet.1 q in ground (arith, heard, q')
          ],
    )

module _ (save : Save) (r : Roster) (now idle silent : ℕ) (w : WellFormed r) where
  abbrev swept : Map Bytes User
  swept = select (λ _. is_inactive now idle silent) r.users

  abbrev stay : Map Bytes User
  stay = select (λ _ u. not (is_inactive now idle silent u)) r.users

  nothing_swept :
      (h : Bytes)
      → keys swept ≡ []
      → lookup h r.users ≡ unless_inactive now idle silent (lookup h r.users)
  nothing_swept h e = ground (
    arith,
    no_keys swept h e,
    lookup-select (λ _. is_inactive now idle silent) h r.users w.distinct,
  )

  users-prune :
      (l : List Bytes) (h : Bytes)
      → keys swept ≡ l
      → lookup h (prune save r now idle silent).0.users
        ≡ unless_inactive now idle silent (lookup h r.users)
  unfolding prune
  users-prune [] h e = rw (e, prune) (nothing_swept h e)
  users-prune (j ∷ l) h e =
      rw (e, prune, users-persist save (record r { users = stay }))
        (ground
          (arith, lookup-select (λ _ u. not (is_inactive now idle silent u)) h r.users w.distinct))

  pub lookup-prune :
      (h : Bytes)
      → lookup h (prune save r now idle silent).0.users
        ≡ unless_inactive now idle silent (lookup h r.users)
  lookup-prune h = users-prune (keys swept) h refl

  reported_keys : (l : List Bytes) → keys swept ≡ l → (prune save r now idle silent).1 ≡ keys swept
  unfolding prune
  reported_keys [] e = rw (e, prune) refl
  reported_keys (j ∷ l) e = rw (e, prune) refl

  reported_lem :
      (h : Bytes)
      → contains (prune save r now idle silent).1 h ≡ goes now idle silent (lookup h r.users)
  reported_lem h =
      rw
        (
          reported_keys (keys swept) refl,
          contains-keys h swept,
          lookup-select (λ _. is_inactive now idle silent) h r.users w.distinct,
        )
        (ground arith)

  banlist-prune_go :
      (l : List Bytes) → keys swept ≡ l → (prune save r now idle silent).0.banlist ≡ r.banlist
  unfolding prune
  banlist-prune_go [] e = rw (e, prune) refl
  banlist-prune_go (j ∷ l) e = rw (e, prune) (banlist-persist save (record r { users = stay }))

  -- What a prune does with the entry under a hash: absent stays absent, and of two kinds of members it takes
  -- out and reports the one, and leaves the other as it is.
  abbrev pub PrunedAs : Bytes → Option User → Type 0
  PrunedAs h none =
      (lookup h (prune save r now idle silent).0.users ≡ none)
      × (contains (prune save r now idle silent).1 h ≡ false)
  PrunedAs h (some u) =
      (IsSwept now idle silent u
        × (lookup h (prune save r now idle silent).0.users ≡ none)
        × (contains (prune save r now idle silent).1 h ≡ true))
      ⊎ ((IsSwept now idle silent u → ⊥)
          × (lookup h (prune save r now idle silent).0.users ≡ some u)
          × (contains (prune save r now idle silent).1 h ≡ false))

  pruned_as :
      (h : Bytes) (o : Option User)
      → lookup h (prune save r now idle silent).0.users ≡ unless_inactive now idle silent o
      → contains (prune save r now idle silent).1 h ≡ goes now idle silent o
      → PrunedAs h o
  pruned_as h none e f = (e, f)
  pruned_as h (some u) e f = elim (Bool-cases (is_inactive now idle silent u)) [
    | inl gone ↦ inl ((is_inactive_iff now idle silent u).0 gone, e ∙ (rw gone refl), f ∙ gone)
    | inr stays ↦ inr (
      λ swept. true_is_false (sym ((is_inactive_iff now idle silent u).1 swept) ∙ stays),
      e ∙ (rw stays refl),
      f ∙ stays,
    )
  ]
    where
      true_is_false : true ≡ false → ⊥
      true_is_false bad = ground arith

  -- From a well-formed roster, a prune takes out and reports exactly the members that are no mere invitees
  -- and either were not heard from by a message, command, announce or join within the idle cutoff or,
  -- where the silent cutoff is above 0, neither sent a message nor joined within it. It leaves every
  -- other entry as it is and reports no other hash, and the ban list stays; that holds however the write
  -- ends.
  pub prune_exact :
      (h : Bytes)
      → PrunedAs h (lookup h r.users) × ((prune save r now idle silent).0.banlist ≡ r.banlist)
  prune_exact h = (
    pruned_as h (lookup h r.users) (lookup-prune h) (reported_lem h),
    banlist-prune_go (keys swept) refl,
  )
