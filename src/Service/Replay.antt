-- ===== src/Service/Replay.antt =====
-- internal/service/replay.go: the limiter of the join catch-ups.
-- `now.Sub(t) > replayCooldown` on signed durations is `t + replay_cooldown < now` here.
use reticulum_group_chat.Base.{
  ℕ, ◌+◌, ◌<◌, ◌≡◌, refl, sym, ap, ◌∙◌, Bool, true, false, not, Option, none, some, List, [], ◌∷◌,
  ltb, ◌==◌, if◌then◌else◌, if_cases, lt→ltb, arith, beq_refl, beq→eq, All,
}
use reticulum_group_chat.Base.Maps.{Map, lookup, insert, select, lookup-insert, lookup-select-kept}
use reticulum_group_chat.Base.Text.{Bytes, bytes_eq}

-- Ten minutes, in nanoseconds.
abbrev pub replay_cooldown : ℕ
replay_cooldown = 600000000000

-- replayLimiter.last
abbrev pub ReplayLimiter : Type 0
ReplayLimiter = Map Bytes ℕ

unfoldable pub swept : ReplayLimiter → ℕ → ReplayLimiter
swept l now = select (λ k t. not (ltb (t + replay_cooldown) now)) l

abbrev cools_down : ℕ → Option ℕ → Bool
cools_down now none = false
cools_down now (some t) = ltb now (t + replay_cooldown)

unfoldable pub allow : ReplayLimiter → Bytes → ℕ → ReplayLimiter × Bool
unfolding swept
allow l dest now =
    if cools_down now (lookup dest (swept l now))
    then (swept l now, false)
    else (insert dest now (swept l now), true)

-- A call of `allow`: the destination and the time.
unfoldable pub run_allow : ReplayLimiter → List (Bytes × ℕ) → ReplayLimiter
run_allow l [] = l
run_allow l ((dest, now) ∷ calls) = run_allow (allow l dest now).0 calls

swept-keeps :
    (l : ReplayLimiter) (dest : Bytes) (t now : ℕ)
    → lookup dest l ≡ some t
    → now < t + replay_cooldown
    → lookup dest (swept l now) ≡ some t
unfolding swept
swept-keeps l dest t now e lt = lookup-select-kept _ dest t l e (ground arith)

-- Allowing another destination leaves the time of this one; this one is refused.
allow-keeps :
    (l : ReplayLimiter) (dest d : Bytes) (t now : ℕ)
    → lookup dest l ≡ some t
    → now < t + replay_cooldown
    → lookup dest (allow l d now).0 ≡ some t
unfolding allow
allow-keeps l dest d t now e lt =
    let s : lookup dest (swept l now) ≡ some t = swept-keeps l dest t now e lt in
    if_cases {A = ReplayLimiter × Bool} (λ x. lookup dest x.0 ≡ some t)
      (cools_down now (lookup d (swept l now))) (λ _. s)
      (λ f.
        lookup-insert d dest now (swept l now)
        ∙ if_cases (λ o. o ≡ some t) (d == dest)
            (λ same.
              let bad : true ≡ false =
                sym (lt→ltb now (t + replay_cooldown) lt)
                ∙ sym (ap (cools_down now) (at_key d same s))
                ∙ f in
              ground arith)
            (λ _. s))
  where
    at_key :
        (d : Bytes)
        → (d == dest) ≡ true
        → lookup dest (swept l now) ≡ some t
        → lookup d (swept l now) ≡ some t
    at_key d same s = rw (beq→eq d dest same) s

run_allow-keeps :
    (l : ReplayLimiter) (dest : Bytes) (t : ℕ) (calls : List (Bytes × ℕ))
    → lookup dest l ≡ some t
    → All (λ c. c.1 < t + replay_cooldown) calls
    → lookup dest (run_allow l calls) ≡ some t
unfolding run_allow
run_allow-keeps l dest t [] e a = e
run_allow-keeps l dest t ((d, now) ∷ calls) e a =
    run_allow-keeps (allow l d now).0 dest t calls (allow-keeps l dest d t now e a.0) a.1

allowed-lookup :
    (l : ReplayLimiter) (dest : Bytes) (t : ℕ)
    → (allow l dest t).1 ≡ true
    → lookup dest (allow l dest t).0 ≡ some t
unfolding allow
allowed-lookup l dest t =
    if_cases {A = ReplayLimiter × Bool} (λ x. x.1 ≡ true → lookup dest x.0 ≡ some t)
      (cools_down t (lookup dest (swept l t))) (λ _ bad. ground arith)
      (λ _ _. lookup-insert dest dest t (swept l t) ∙ rw (beq_refl dest) refl)

refused :
    (l : ReplayLimiter) (dest : Bytes) (t now : ℕ)
    → lookup dest l ≡ some t
    → now < t + replay_cooldown
    → (allow l dest now).1 ≡ false
unfolding allow
refused l dest t now e lt =
    rw (swept-keeps l dest t now e lt, lt→ltb now (t + replay_cooldown) lt) refl

-- After a catch-up was allowed at `t`, a call for the same destination before `t` plus the
-- cooldown is refused, whatever calls before that time, for any destination, come between.
pub allow_spaced :
    (l : ReplayLimiter) (dest : Bytes) (t now : ℕ) (calls : List (Bytes × ℕ))
    → (allow l dest t).1 ≡ true
    → All (λ c. c.1 < t + replay_cooldown) calls
    → now < t + replay_cooldown
    → (allow (run_allow (allow l dest t).0 calls) dest now).1 ≡ false
allow_spaced l dest t now calls allowed between lt =
    refused (run_allow (allow l dest t).0 calls) dest t now
      (run_allow-keeps (allow l dest t).0 dest t calls (allowed-lookup l dest t allowed) between) lt
