-- ===== src/Service/Dedup/Memory.antt =====
-- Proofs on internal/service/dedup.go: where the entries of the table come from, and their
-- number.
use reticulum_group_chat.Base.{
  ℕ, ◌+◌, ◌≤◌, ◌<◌, ◌≡◌, subst, refl, Bool, true, Option, none, some, List, [], ◌∷◌, ltb, nat_beq,
  length, if_cases, ltb→lt, ltb→ge, arith, All,
}
use mathlib.Core.List.{Mem, mem-cons_self, mem-cons_of_mem}
use reticulum_group_chat.Base.Maps.{
  lookup, insert, select, Entries, insert-Entries, select-Entries, lookup-Entries,
}
use reticulum_group_chat.Base.Text.{Bytes, bytes_eq}
use reticulum_group_chat.Service.Dedup.{
  DedupCache, new_dedup_cache, is_fresh, evict, is_hit, record_id, seen_before, Call, run,
}

-- The table is within its cap, and each entry comes from a delivery of `calls` at the time it holds.
record IsMemory (ttl max : ℕ) (P : Bytes → ℕ → Type 0) (c : DedupCache) : Type 0 where
  pub entries : Entries P c.seen
  pub cap : length c.seen ≤ c.max
  pub lifetime : c.ttl ≡ ttl
  pub maximum : c.max ≡ max

evict-IsMemory :
    (ttl max : ℕ) (P : Bytes → ℕ → Type 0) (c : DedupCache) (now : ℕ)
    → Entries P c.seen
    → c.ttl ≡ ttl
    → c.max ≡ max
    → IsMemory ttl max P (evict c now)
unfolding evict
evict-IsMemory ttl max P c now es e f =
    let left = select (λ id t. is_fresh c.ttl now t) c.seen in
    if_cases (IsMemory ttl max P) (ltb c.max (length left))
      (λ _. record { entries = tt; cap = omega arith; lifetime = e; maximum = f })
      (λ fits. record {
        entries = select-Entries P _ c.seen es;
        cap = ltb→ge c.max (length left) fits;
        lifetime = e;
        maximum = f;
      })

seen_before-IsMemory :
    (ttl max : ℕ) (P : Bytes → ℕ → Type 0) (c : DedupCache) (id : Bytes) (now : ℕ)
    → P id now
    → IsMemory ttl max P c
    → IsMemory ttl max P (seen_before c id now).0
unfolding seen_before record_id
seen_before-IsMemory ttl max P c id now p m =
    if_cases {A = DedupCache × Bool} (λ x. IsMemory ttl max P x.0) (nat_beq c.ttl 0) (λ _. m)
      λ _.
        if_cases {A = DedupCache × Bool} (λ x. IsMemory ttl max P x.0)
          (is_hit c.ttl now (lookup id c.seen)) (λ _. m)
          λ _.
            if_cases (IsMemory ttl max P) (ltb c.max (length (insert id now c.seen)))
              (λ _.
                evict-IsMemory ttl max P _ now (insert-Entries P id now c.seen p m.entries)
                  m.lifetime m.maximum)
              (λ fits. record {
                entries = insert-Entries P id now c.seen p m.entries;
                cap = ltb→ge c.max (length (insert id now c.seen)) fits;
                lifetime = m.lifetime;
                maximum = m.maximum;
              })

run-IsMemory :
    (ttl max : ℕ) (P : Bytes → ℕ → Type 0) (c : DedupCache) (calls : List Call)
    → All (λ call. P call.0 call.1) calls
    → IsMemory ttl max P c
    → IsMemory ttl max P (run c calls)
unfolding run
run-IsMemory ttl max P c [] a m = m
run-IsMemory ttl max P c ((id, now) ∷ calls) a m =
    run-IsMemory ttl max P (seen_before c id now).0 calls a.1
      (seen_before-IsMemory ttl max P c id now a.0 m)

each_delivered :
    (calls : List Call) (past : List Call)
    → ((x : Call) → Mem x calls → Mem x past)
    → All (λ call. Mem (call.0, call.1) past) calls
each_delivered [] past f = tt
each_delivered (c ∷ calls) past f =
    (f c mem-cons_self, each_delivered calls past (λ x m. f x (mem-cons_of_mem c m)))

run-new_dedup_cache :
    (ttl max : ℕ) (calls : List Call)
    → IsMemory ttl max (λ id t. Mem (id, t) calls) (run (new_dedup_cache ttl max) calls)
unfolding new_dedup_cache
run-new_dedup_cache ttl max calls =
    run-IsMemory ttl max (λ id t. Mem (id, t) calls) (new_dedup_cache ttl max) calls
      (each_delivered calls calls (λ x m. m)) start
  where
    start : IsMemory ttl max (λ id t. Mem (id, t) calls) (new_dedup_cache ttl max)
    start = record { entries = tt; cap = omega arith; lifetime = refl; maximum = refl }

-- Started empty, the table never holds more ids than its cap, whatever is delivered and when.
length-run-le :
    (ttl max : ℕ) (calls : List Call) → length (run (new_dedup_cache ttl max) calls).seen ≤ max
length-run-le ttl max calls =
    let m = run-new_dedup_cache ttl max calls in
    subst (λ n. length (run (new_dedup_cache ttl max) calls).seen ≤ n) m.maximum m.cap

hit_found :
    (ttl now : ℕ) (o : Option ℕ)
    → is_hit ttl now o ≡ true
    → (t : ℕ) × (o ≡ some t) × (now < t + ttl)
hit_found ttl now none h = ground arith
hit_found ttl now (some t) h = (t, refl, ltb→lt now (t + ttl) h)

seen_before_hit :
    (c : DedupCache) (id : Bytes) (now : ℕ)
    → (seen_before c id now).1 ≡ true
    → (t : ℕ) × (lookup id c.seen ≡ some t) × (now < t + c.ttl)
unfolding seen_before
seen_before_hit c id now =
    if_cases {A = DedupCache × Bool}
      (λ x. x.1 ≡ true → (t : ℕ) × (lookup id c.seen ≡ some t) × (now < t + c.ttl))
      (nat_beq c.ttl 0) (λ _ bad. ground arith)
      λ _.
        if_cases {A = DedupCache × Bool}
          (λ x. x.1 ≡ true → (t : ℕ) × (lookup id c.seen ≡ some t) × (now < t + c.ttl))
          (is_hit c.ttl now (lookup id c.seen))
          (λ hit _. hit_found c.ttl now (lookup id c.seen) hit) (λ _ bad. ground arith)

-- Started empty, a delivery is reported as seen only if the same id was delivered before, less than the
-- lifetime ago.
pub seen_before_sound :
    (ttl max : ℕ) (calls : List Call) (id : Bytes) (now : ℕ)
    → (seen_before (run (new_dedup_cache ttl max) calls) id now).1 ≡ true
    → (t : ℕ) × Mem (id, t) calls × (now < t + ttl)
seen_before_sound ttl max calls id now h =
    let m = run-new_dedup_cache ttl max calls in
    let (t, found, lt) = seen_before_hit (run (new_dedup_cache ttl max) calls) id now h in
    (
      t,
      lookup-Entries (λ id t. Mem (id, t) calls) id t (run (new_dedup_cache ttl max) calls).seen
          m.entries found,
      subst (λ l. now < t + l) m.lifetime lt,
    )
