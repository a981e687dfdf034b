-- ===== src/Service/Outbound/Retries.antt =====
-- Proofs on internal/service/outbound.go: the waits between the attempts, and their end.
use reticulum_group_chat.Base.{
  ℕ, zero, suc, ◌+◌, ◌-◌, ◌*◌, ◌≤◌, ◌<◌, ◌≡◌, refl, sym, ap, ◌∙◌, Bool, true, false, not, ◌&&◌,
  Option, none, some, List, [], ◌∷◌, ltb, leb, if◌then◌else◌, arith, if_cases, Bool-cases, inl, inr,
  ltb→ge,
}
use Prim.Native.Nat.{◌^◌}
use reticulum_group_chat.Service.Outbound.Queue.{
  OutboundMessage, OutboundQueue, max_retry_backoff, second,
}
use reticulum_group_chat.Service.Outbound.Attempt.{
  Outcome, delivered, no_propagation_node, stamp_workers_busy, stamp_cost_too_high,
  recipient_unknown, other_error, doubled, capped_wait, backoff_wait, direct_budget, begun, retried,
  settled,
}

doubled_once : (n w : ℕ) → w * 2 * 2 ^ n ≡ w * 2 ^ suc n
doubled_once n w = grind arith

power-grows : (n w : ℕ) → w ≤ w * 2 ^ n
power-grows zero w = omega arith
power-grows (suc n) w = omega (arith, power-grows n w, power-grows n (w * 2), doubled_once n w)

capped_above : (wait : ℕ) → max_retry_backoff ≤ wait → capped_wait wait ≡ max_retry_backoff
unfolding capped_wait
capped_above wait le = ground arith

doubled_lem : (n wait : ℕ) → capped_wait (doubled n wait) ≡ capped_wait (wait * 2 ^ n)
unfolding doubled
doubled_lem zero wait = ap capped_wait (omega arith)
doubled_lem (suc n) wait = elim (Bool-cases (ltb wait max_retry_backoff)) [
  | inl below ↦ rw below (doubled_lem n (wait * 2) ∙ ap capped_wait (doubled_once n wait))
  | inr above ↦
      let le = ltb→ge wait max_retry_backoff above in
      let grows = power-grows (suc n) wait in
      rw above (capped_above wait le ∙ sym (capped_above (wait * 2 ^ suc n) (omega arith)))
]

-- An attempt on a message: what the send gives, the time, and whether a node can be selected.
pub record Try : Type 0 where
  pub outcome : Outcome
  pub now : ℕ
  pub has_node : Bool

-- Whether the outcome counts against the budget.
abbrev pub is_charged : Outcome → Bool
is_charged no_propagation_node = false
is_charged stamp_workers_busy = false
is_charged _ = true

abbrev pub charged : List Try → ℕ
charged [] = 0
charged (t ∷ ts) = if is_charged t.outcome then suc (charged ts) else charged ts

module _ {F : Type 0} where
  -- The wait after an attempt is the retry wait doubled for each attempt before it, and 60 seconds at most.
  pub backoff_wait_exact :
      (q : OutboundQueue F) (attempts : ℕ)
      → let wait = q.retry_wait * 2 ^ (attempts - 1) in
        backoff_wait q attempts ≡ (if ltb (60 * second) wait then 60 * second else wait)
  unfolding backoff_wait capped_wait
  backoff_wait_exact q attempts = doubled_lem (attempts - 1) q.retry_wait

  -- The message after the attempts, none once it has left the queue.
  unfoldable pub attempted :
      OutboundQueue F → OutboundMessage F → List Try → Option (OutboundMessage F)
  attempted q m [] = some m
  attempted q m (t ∷ ts) = elim (settled q (begun m) t.outcome t.now t.has_node) [
    | none ↦ none
    | some m' ↦ attempted q m' ts
  ]

  -- The attempts that a message has left, those after the other route included.
  abbrev pub left : OutboundQueue F → OutboundMessage F → ℕ
  left q m =
      q.max_attempts
      - m.attempts
      + (if q.propagation_fallback && not m.propagated then q.max_attempts else 0)

  -- What a failed attempt leaves: nothing, or a message with a smaller rest of its budget.
  abbrev Shorter : OutboundQueue F → ℕ → Option (OutboundMessage F) → Type 0
  Shorter q n none = Unit
  Shorter q n (some m) = (m.attempts < q.max_attempts) × (left q m < n)

  retried-Shorter :
      (q : OutboundQueue F) (m : OutboundMessage F) (unknown : Bool) (now : ℕ) (has_node : Bool)
      → m.attempts < q.max_attempts
      → Shorter q (left q m) (retried q (begun m) unknown now has_node)
  unfolding retried
  retried-Shorter q m unknown now has_node lt =
      if_cases (Shorter q (left q m))
        (q.propagation_fallback
          && not m.propagated
          && leb (direct_budget q) (suc m.attempts)
          && has_node)
        (λ route. (omega arith, ground arith))
        λ _.
          if_cases (Shorter q (left q m)) (leb q.max_attempts (suc m.attempts)) (λ _. tt)
            λ more.
              if_cases (Shorter q (left q m)) (unknown && ltb q.pathless_tries (suc m.attempts))
                (λ _. (ground arith, ground arith)) (λ _. (ground arith, ground arith))

  ends_after :
      (q : OutboundQueue F) (n : ℕ) (o : Option (OutboundMessage F)) (ts : List Try)
      → Shorter q n o
      → n ≤ suc (charged ts)
      → ((m : OutboundMessage F)
          → m.attempts < q.max_attempts
          → left q m ≤ charged ts
          → attempted q m ts ≡ none)
      → elim o [ none ↦ none | some m' ↦ attempted q m' ts ] ≡ none
  ends_after q n none ts s le f = refl
  ends_after q n (some m) ts s le f = f m s.0 (omega (arith, s.1))

  one_try :
      (q : OutboundQueue F) (m : OutboundMessage F) (o : Outcome) (now : ℕ) (has_node : Bool)
      (ts : List Try)
      → m.attempts < q.max_attempts
      → left q m ≤ (if is_charged o then suc (charged ts) else charged ts)
      → ((m' : OutboundMessage F)
          → m'.attempts < q.max_attempts
          → left q m' ≤ charged ts
          → attempted q m' ts ≡ none)
      → elim (settled q (begun m) o now has_node) [ none ↦ none | some m' ↦ attempted q m' ts ]
        ≡ none
  unfolding settled
  one_try q m (delivered id) now has_node ts lt le f = refl
  one_try q m no_propagation_node now has_node ts lt le f = f _ (omega arith) (omega arith)
  one_try q m stamp_workers_busy now has_node ts lt le f = f _ (omega arith) (omega arith)
  one_try q m stamp_cost_too_high now has_node ts lt le f = refl
  one_try q m recipient_unknown now has_node ts lt le f =
      ends_after q (left q m) (retried q (begun m) true now has_node) ts
        (retried-Shorter q m true now has_node lt) le f
  one_try q m other_error now has_node ts lt le f =
      ends_after q (left q m) (retried q (begun m) false now has_node) ts
        (retried-Shorter q m false now has_node lt) le f

  -- A message with fewer attempts than the budget leaves the queue within as many counted attempts as it
  -- has left, twice the budget where it can be re-routed; a wait for a node or for a stamp worker is not
  -- charged.
  pub attempted_ends :
      (q : OutboundQueue F) (m : OutboundMessage F) (ts : List Try)
      → m.attempts < q.max_attempts
      → left q m ≤ charged ts
      → attempted q m ts ≡ none
  unfolding attempted
  attempted_ends q m [] lt le = absurd (omega arith)
  attempted_ends q m (t ∷ ts) lt le =
      one_try q m t.outcome t.now t.has_node ts lt le (λ m' lt' le'. attempted_ends q m' ts lt' le')
