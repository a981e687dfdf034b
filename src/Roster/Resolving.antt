-- ===== src/Roster/Resolving.antt =====
-- Proofs on `Resolve` of internal/roster/roster.go: which member it picks.
use reticulum_group_chat.Base.{
  ◌≡◌, ◌⊎◌, refl, sym, ap, ◌∙◌, subst, Bool, true, false, ◌&&◌, some, List, [], ◌∷◌, arith,
  Bool-cases, inl, inr, keep, length, leb, ◌==◌, beq→eq, beq_refl,
}
use reticulum_group_chat.Base.Maps.{Map, lookup, has, values, Distinct, lookup-Entries}
use reticulum_group_chat.Base.Text.{Bytes, bytes_eq, to_lower, trim_space, has_prefix}
use reticulum_group_chat.Roster.Model.{User, Roster}
use reticulum_group_chat.Roster.Listing.{
  resolve, resolve_nick, resolve_hash, by_nick, by_hash, is_hex_prefix, found,
}
use reticulum_group_chat.Roster.Laws.{WellFormed, IsKeyed}

module _ (p : User → Bool) where
  nobody :
      (m : Map Bytes User) (h : Bytes) (v : User)
      → keep p (values m) ≡ []
      → lookup h m ≡ some v
      → p v ≡ false
  unfolding keep values lookup
  nobody [] h v e f = cc
  nobody ((j, w) ∷ m) h v e f = ground (arith, nobody m h v)

  -- The head of the candidates is a member that the test accepts.
  candidate :
      (m : Map Bytes User) (u : User) (us : List User)
      → Distinct m
      → keep p (values m) ≡ u ∷ us
      → (h : Bytes) × (lookup h m ≡ some u) × (p u ≡ true)
  unfolding keep values lookup
  candidate [] u us d e = cc
  candidate ((j, w) ∷ m) u us d e = elim (Bool-cases (p w)) [
    | inl a ↦ (j, ground (arith, beq_refl j), ground arith)
    | inr a ↦
        let (h, l, q) = candidate m u us d.1 (ground arith) in
        elim (Bool-cases (j == h)) [
          | inl s ↦ cc (d.0, ap (λ x. has x m) (beq→eq j h s), l)
          | inr s ↦ (h, rw s l, q)
        ]
  ]

  only :
      (m : Map Bytes User) (u v : User) (h : Bytes)
      → keep p (values m) ≡ u ∷ []
      → lookup h m ≡ some v
      → p v ≡ true
      → v ≡ u
  unfolding keep values lookup
  only [] u v h e f q = cc
  only ((j, w) ∷ m) u v h e f q = ground (arith, only m u v h, nobody m h v)

-- `u` is a member, nobody else has the nickname `q`, and `u` has it, or nobody has it and `u` is
-- the one member whose hash begins with `q`, four hex digits or more.
pub record Picks (r : Roster) (q : Bytes) (u : User) : Type 0 where
  pub member : lookup u.hash r.users ≡ some u
  pub one_nick :
      (h : Bytes) (v : User) → lookup h r.users ≡ some v → (to_lower v.nickname == q) ≡ true → v ≡ u
  pub matches :
      ((to_lower u.nickname == q) ≡ true)
      ⊎ ((has_prefix u.hash q ≡ true)
          × ((is_hex_prefix q && leb 4 (length q)) ≡ true)
          × ((h : Bytes) (v : User)
              → lookup h r.users ≡ some v
              → has_prefix v.hash q ≡ true
              → v ≡ u))

module _ (r : Roster) (w : WellFormed r) where
  at_hash : (h : Bytes) (u : User) → lookup h r.users ≡ some u → lookup u.hash r.users ≡ some u
  at_hash h u e =
      subst (λ x. lookup x r.users ≡ some u) (sym (lookup-Entries IsKeyed h u r.users w.keyed e)) e

  nick-Picks : (q : Bytes) (u : User) → by_nick q r ≡ u ∷ [] → Picks r q u
  unfolding by_nick
  nick-Picks q u e =
      let (h, l, t) = candidate (λ v. to_lower v.nickname == q) r.users u [] w.distinct e in
      record {
        member = at_hash h u l;
        one_nick = λ j v f g. only (λ x. to_lower x.nickname == q) r.users u v j e f g;
        matches = inl t;
      }

  hash-Picks :
      (q : Bytes) (u : User)
      → by_nick q r ≡ []
      → by_hash q r ≡ u ∷ []
      → (is_hex_prefix q && leb 4 (length q)) ≡ true
      → Picks r q u
  unfolding by_nick by_hash
  hash-Picks q u n e x =
      let (h, l, t) = candidate (λ v. has_prefix v.hash q) r.users u [] w.distinct e in
      record {
        member = at_hash h u l;
        one_nick = λ j v f g. cc (nobody (λ y. to_lower y.nickname == q) r.users j v n f);
        matches = inr (t, x, λ j v f g. only (λ y. has_prefix y.hash q) r.users u v j e f g);
      }

  resolve_hash-Picks :
      (query q : Bytes) (u : User) (us : List User)
      → by_nick q r ≡ []
      → by_hash q r ≡ us
      → (is_hex_prefix q && leb 4 (length q)) ≡ true
      → resolve_hash query q us ≡ found u
      → Picks r q u
  unfolding resolve_hash
  resolve_hash-Picks query q u [] n e x f = cc
  resolve_hash-Picks query q u (v ∷ []) n e x f =
      let s : v ≡ u = ground arith in hash-Picks q u n (e ∙ ap (λ y. y ∷ []) s) x
  resolve_hash-Picks query q u (v ∷ v' ∷ vs) n e x f = cc

  resolve_nick-Picks :
      (query q : Bytes) (u : User) (us : List User)
      → by_nick q r ≡ us
      → resolve_nick query q r us ≡ found u
      → Picks r q u
  unfolding resolve_nick
  resolve_nick-Picks query q u [] n f = elim (Bool-cases (is_hex_prefix q && leb 4 (length q))) [
    | inl x ↦ resolve_hash-Picks query q u (by_hash q r) n refl x (rw x at f)
    | inr x ↦ cc (rw x at f)
  ]
  resolve_nick-Picks query q u (v ∷ []) n f =
      let s : v ≡ u = ground arith in nick-Picks q u (n ∙ ap (λ y. y ∷ []) s)
  resolve_nick-Picks query q u (v ∷ v' ∷ vs) n f = cc

  -- In a well-formed roster, whoever `Resolve` returns is a member, and the one candidate for the
  -- trimmed, lower-case query: the only bearer of that nickname, or, where nobody bears it, the
  -- only member whose hash begins with it, given at least four hex digits.
  pub resolve_sound :
      (query : Bytes) (u : User)
      → resolve r query ≡ found u
      → Picks r (to_lower (trim_space query)) u
  unfolding resolve
  resolve_sound query u f =
      let q = to_lower (trim_space query) in
      resolve_nick-Picks query q u (by_nick q r) refl (ground arith)
