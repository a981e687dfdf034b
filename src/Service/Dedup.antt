-- ===== src/Service/Dedup.antt =====
-- internal/service/dedup.go: the table of the message ids that were forwarded lately.
-- `now.Sub(t) < ttl` on signed durations is `now < t + ttl` here. The source clears the table by a
-- loop over the map in an unspecified order, which deletes the same keys in each order.
pub mod Once
pub mod Memory
use reticulum_group_chat.Base.{
  ℕ, zero, suc, ◌+◌, ◌≤◌, ◌<◌, ◌≡◌, ◌⊎◌, subst, refl, sym, ap, ◌∙◌, Bool, true, false, not, Option,
  none, some, List, [], ◌∷◌, ltb, nat_beq, length, ◌==◌, if◌then◌else◌, if_cases, option_cases,
  ltb→lt, ltb→ge, lt→ltb, Bool-cases, Option-cases, inl, inr, arith, beq_refl, beq→eq, All,
}
use mathlib.Core.List.{Mem, mem-cons_self, mem-cons_of_mem}
use reticulum_group_chat.Base.Maps.{
  Map, lookup, insert, select, lookup-insert, length-insert, length-select-le, lookup-select-kept,
  Entries, insert-Entries, select-Entries, lookup-Entries,
}
use reticulum_group_chat.Base.Text.{Bytes, bytes_eq}

pub record DedupCache : Type 0 where
  pub seen : Map Bytes ℕ
  pub ttl : ℕ
  pub max : ℕ

unfoldable pub new_dedup_cache : ℕ → ℕ → DedupCache
new_dedup_cache ttl max = record { seen = []; ttl = ttl; max = max }

-- `now.Sub(t) < c.ttl`
abbrev pub is_fresh : ℕ → ℕ → ℕ → Bool
is_fresh ttl now t = ltb now (t + ttl)

unfoldable pub evict : DedupCache → ℕ → DedupCache
evict c now =
    let left = select (λ id t. is_fresh c.ttl now t) c.seen in
    if ltb c.max (length left) then record c { seen = [] } else record c { seen = left }

-- A stored time, if the id is in the table and still fresh.
abbrev pub is_hit : ℕ → ℕ → Option ℕ → Bool
is_hit ttl now none = false
is_hit ttl now (some t) = is_fresh ttl now t

unfoldable pub record_id : DedupCache → Bytes → ℕ → DedupCache
unfolding evict
record_id c id now =
    let c' = record c { seen = insert id now c.seen } in
    if ltb c.max (length c'.seen) then evict c' now else c'

-- A lifetime of 0 turns the table off, as a nil pointer does.
unfoldable pub seen_before : DedupCache → Bytes → ℕ → DedupCache × Bool
unfolding record_id
seen_before c id now =
    if nat_beq c.ttl 0
    then (c, false)
    else if is_hit c.ttl now (lookup id c.seen)
    then (c, true)
    else (record_id c id now, false)

-- A call of `seenBefore`: the id and the time.
abbrev pub Call : Type 0
Call = Bytes × ℕ

unfoldable pub run : DedupCache → List Call → DedupCache
run c [] = c
run c ((id, now) ∷ calls) = run (seen_before c id now).0 calls
