-- ===== src/Service/Dedup/Once.antt =====
-- Proofs on internal/service/dedup.go: the redelivery of a message.
use reticulum_group_chat.Base.{
  ℕ, suc, ◌+◌, ◌≤◌, ◌<◌, ◌≡◌, subst, refl, sym, ap, ◌∙◌, Bool, true, false, some, List, [], ◌∷◌,
  ltb, nat_beq, length, ◌==◌, if_cases, lt→ltb, Bool-cases, inl, inr, arith, beq_refl, beq→eq, All,
}
use reticulum_group_chat.Base.Maps.{Map, lookup, insert, lookup-insert, length-insert}
use reticulum_group_chat.Base.Text.{Bytes, bytes_eq}
use reticulum_group_chat.Service.Dedup.{
  DedupCache, evict, is_hit, record_id, seen_before, Call, run,
}

-- `id` is known since `t`, and there is room for `n` more ids.
record IsKnown (id : Bytes) (t ttl n : ℕ) (c : DedupCache) : Type 0 where
  pub found : lookup id c.seen ≡ some t
  pub room : length c.seen + n ≤ c.max
  pub lifetime : c.ttl ≡ ttl

record_id-fits :
    (c : DedupCache) (d : Bytes) (now : ℕ)
    → length c.seen < c.max
    → record_id c d now ≡ record c { seen = insert d now c.seen }
unfolding record_id
record_id-fits c d now room = rw fits refl
  where
    fits : ltb c.max (length (insert d now c.seen)) ≡ false
    fits = ground (arith, length-insert d now c.seen)

length-insert-le : (d : Bytes) (now : ℕ) (m : Map Bytes ℕ) → length (insert d now m) ≤ length m + 1
length-insert-le d now m = ground (arith, length-insert d now m)

record_id-IsKnown :
    (id : Bytes) (t n : ℕ) (c : DedupCache) (d : Bytes) (now : ℕ)
    → IsKnown id t c.ttl (suc n) c
    → (d == id) ≡ false
    → IsKnown id t c.ttl n (record_id c d now)
record_id-IsKnown id t n c d now k other =
    let r = k.room in
    let l = length-insert-le d now c.seen in
    subst (IsKnown id t c.ttl n) (sym (record_id-fits c d now (omega arith))) (record {
      found = lookup-insert d id now c.seen ∙ rw other k.found;
      room = omega arith;
      lifetime = refl;
    })

-- A call that finds nothing fresh is for another id.
missed :
    (id d : Bytes) (t now : ℕ) (c : DedupCache)
    → lookup id c.seen ≡ some t
    → now < t + c.ttl
    → is_hit c.ttl now (lookup d c.seen) ≡ false
    → (d == id) ≡ false
missed id d t now c e lt miss = elim (Bool-cases (d == id)) [
  | inl same ↦
      let at_key : lookup d c.seen ≡ some t = rw (beq→eq d id same) e in
      let bad : true ≡ false =
        sym (lt→ltb now (t + c.ttl) lt) ∙ (sym (ap (is_hit c.ttl now) at_key) ∙ miss) in
      ground arith
  | inr other ↦ other
]

ttl-seen_before : (c : DedupCache) (d : Bytes) (now : ℕ) → (seen_before c d now).0.ttl ≡ c.ttl
unfolding seen_before record_id evict
ttl-seen_before c d now = ground arith

seen_before-IsKnown :
    (id : Bytes) (t n : ℕ) (c : DedupCache) (d : Bytes) (now : ℕ)
    → IsKnown id t c.ttl (suc n) c
    → now < t + c.ttl
    → IsKnown id t c.ttl n (seen_before c d now).0
unfolding seen_before
seen_before-IsKnown id t n c d now k lt =
    let r = k.room in
    let same : IsKnown id t c.ttl n c = record {
      found = k.found;
      room = omega arith;
      lifetime = refl;
    } in
    if_cases {A = DedupCache × Bool} (λ x. IsKnown id t c.ttl n x.0) (nat_beq c.ttl 0) (λ _. same)
      λ _.
        if_cases {A = DedupCache × Bool} (λ x. IsKnown id t c.ttl n x.0)
          (is_hit c.ttl now (lookup d c.seen)) (λ _. same)
          λ miss. record_id-IsKnown id t n c d now k (missed id d t now c k.found lt miss)

run-IsKnown :
    (id : Bytes) (t n : ℕ) (c : DedupCache) (calls : List Call)
    → IsKnown id t c.ttl (length calls + n) c
    → All (λ call. call.1 < t + c.ttl) calls
    → IsKnown id t c.ttl n (run c calls)
unfolding run
run-IsKnown id t n c [] k a =
    let r = k.room in record { found = k.found; room = omega arith; lifetime = refl }
run-IsKnown id t n c ((d, now) ∷ calls) k a =
    let r = k.room in
    let k' : IsKnown id t c.ttl (suc (length calls + n)) c = record {
      found = k.found;
      room = omega arith;
      lifetime = refl;
    } in
    let e = ttl-seen_before c d now in
    let next = seen_before-IsKnown id t (length calls + n) c d now k' a.0 in
    subst (λ ttl. IsKnown id t ttl n (run (seen_before c d now).0 calls)) e
      (run-IsKnown id t n (seen_before c d now).0 calls
        (subst (λ ttl. IsKnown id t ttl (length calls + n) (seen_before c d now).0) (sym e) next)
        (subst (λ ttl. All (λ call. call.1 < t + ttl) calls) (sym e) a.1))

first-IsKnown :
    (id : Bytes) (t n : ℕ) (c : DedupCache)
    → 0 < c.ttl
    → (seen_before c id t).1 ≡ false
    → length c.seen + suc n ≤ c.max
    → IsKnown id t c.ttl n (seen_before c id t).0
unfolding seen_before
first-IsKnown id t n c on =
    if_cases {A = DedupCache × Bool}
      (λ x. x.1 ≡ false → length c.seen + suc n ≤ c.max → IsKnown id t c.ttl n x.0)
      (nat_beq c.ttl 0) (λ off _ _. ground arith)
      λ _.
        if_cases {A = DedupCache × Bool}
          (λ x. x.1 ≡ false → length c.seen + suc n ≤ c.max → IsKnown id t c.ttl n x.0)
          (is_hit c.ttl t (lookup id c.seen)) (λ _ bad _. ground arith)
          λ _ _ room.
            let l = length-insert-le id t c.seen in
            subst (IsKnown id t c.ttl n) (sym (record_id-fits c id t (omega arith))) (record {
              found = lookup-insert id id t c.seen ∙ rw (beq_refl id) refl;
              room = omega arith;
              lifetime = refl;
            })

known_hit :
    (id : Bytes) (t ttl now : ℕ) (c : DedupCache)
    → IsKnown id t ttl 0 c
    → 0 < ttl
    → now < t + ttl
    → (seen_before c id now).1 ≡ true
unfolding seen_before
known_hit id t ttl now c k on lt =
    let e = k.lifetime in
    if_cases {A = DedupCache × Bool} (λ x. x.1 ≡ true) (nat_beq c.ttl 0) (λ off. ground arith)
      λ _.
        if_cases {A = DedupCache × Bool} (λ x. x.1 ≡ true) (is_hit c.ttl now (lookup id c.seen))
          (λ _. refl)
          λ miss.
            let hit : is_hit c.ttl now (lookup id c.seen) ≡ true =
              rw k.found (lt→ltb now (t + c.ttl) (omega arith)) in
            sym miss ∙ hit

-- With a lifetime above 0: a message that was let through at `t` is reported as seen on each
-- later delivery before `t` plus the lifetime, whatever deliveries before that time come between,
-- as long as the cap leaves room for one more entry for it and for each of them.
pub forwarded_once :
    (c : DedupCache) (id : Bytes) (t now : ℕ) (calls : List Call)
    → 0 < c.ttl
    → (seen_before c id t).1 ≡ false
    → length c.seen + suc (length calls) ≤ c.max
    → All (λ call. call.1 < t + c.ttl) calls
    → now < t + c.ttl
    → (seen_before (run (seen_before c id t).0 calls) id now).1 ≡ true
forwarded_once c id t now calls on first room between lt =
    let e = ttl-seen_before c id t in
    let start : length c.seen + suc (length calls + 0) ≤ c.max = omega arith in
    let k = first-IsKnown id t (length calls + 0) c on first start in
    known_hit id t c.ttl now (run (seen_before c id t).0 calls)
      (subst (λ ttl. IsKnown id t ttl 0 (run (seen_before c id t).0 calls)) e
        (run-IsKnown id t 0 (seen_before c id t).0 calls
          (subst (λ ttl. IsKnown id t ttl (length calls + 0) (seen_before c id t).0) (sym e) k)
          (subst (λ ttl. All (λ call. call.1 < t + ttl) calls) (sym e) between)))
      on lt
