-- ===== src/Service/Outbound/Draining.antt =====
-- Proofs on internal/service/outbound.go: `processOnce` ends.
use reticulum_group_chat.Base.{
  ℕ, zero, suc, ◌≤◌, ◌<◌, ◌≡◌, refl, sym, subst, ◌∙◌, Bool, true, not, Option, none, some, List, [],
  ◌∷◌, ltb, length, keep, arith, if_cases, option_cases, is_some, inl, inr, All,
}
use reticulum_group_chat.Base.Text.{Bytes}
use reticulum_group_chat.Service.Outbound.Queue.{OutboundMessage, OutboundQueue, mark_dirty}
use reticulum_group_chat.Service.Outbound.Pick.{
  is_due, is_too_old, is_expired, reap, marked, pick_due,
}
use reticulum_group_chat.Service.Outbound.Attempt.{
  OutboundSender, Turn, replace_message, begun, begin_attempt, settled, after_send, finish_attempt,
  send, attempt, process_once,
}
use reticulum_group_chat.Service.Outbound.Fairness.{pick_due_fair, IsDueIn}
use reticulum_group_chat.Service.Outbound.Order.{
  IsOrdered, Contains, Contains-append, All-Contains, total, total-keep-le, All-keep, put-All,
  keep-IsOrdered, replace_message-IsOrdered, replaced,
}
use reticulum_group_chat.Service.Outbound.Waits.{
  span, settled-Waits, AreTimed, IsPickable, placed-shorter,
}

module _ {F : Type 0} where
  -- The waits are not 0, and the entries have their order and their times.
  record IsRunning (q : OutboundQueue F) : Type 0 where
    pub waits : 0 < q.retry_wait
    pub path_waits : 0 < q.path_wait
    pub timed : AreTimed q.pending

  mark_dirty-kept :
      (P : OutboundQueue F → Type 0) (q : OutboundQueue F)
      → P q
      → P (record q { dirty = true })
      → P (mark_dirty q)
  unfolding mark_dirty
  mark_dirty-kept P q p p' = if_cases P (is_some q.store) (λ _. p') (λ _. p)

  -- A queue that runs, and whose messages can wait less than `n` in all.
  record Remains (n : ℕ) (q : OutboundQueue F) : Type 0 where
    pub running : IsRunning q
    pub shorter : total span q.pending < n

  -- Of a queue with the same waits.
  rebuilt :
      (n : ℕ) (q r : OutboundQueue F)
      → IsRunning q
      → r.retry_wait ≡ q.retry_wait
      → r.path_wait ≡ q.path_wait
      → AreTimed r.pending
      → total span r.pending < n
      → Remains n r
  rebuilt n q r run e f t lt = record {
    running = record {
      waits = subst (λ w. 0 < w) (sym e) run.waits;
      path_waits = subst (λ w. 0 < w) (sym f) run.path_waits;
      timed = t;
    };
    shorter = lt;
  }

  mark_dirty-Remains : (n : ℕ) (q : OutboundQueue F) → Remains n q → Remains n (mark_dirty q)
  mark_dirty-Remains n q r =
      mark_dirty-kept (Remains n) q r
        (rebuilt n q (record q { dirty = true }) r.running refl refl r.running.timed r.shorter)

  reap-Remains : (n now : ℕ) (q : OutboundQueue F) → Remains n q → Remains n (reap q now)
  unfolding reap
  reap-Remains n now q r =
      let stays = λ (m : OutboundMessage F). not (is_expired q.in_flight now m) in
      if_cases (Remains n) (ltb 0 (length (keep (is_expired q.in_flight now) q.pending)))
        (λ _.
          mark_dirty-Remains n (record q { pending = keep stays q.pending })
            (rebuilt n q (record q { pending = keep stays q.pending }) r.running refl refl
              (record {
                ordered = keep-IsOrdered stays q.pending r.running.timed.ordered;
                timed = All-keep (λ m. 0 < m.enqueued_at) stays q.pending r.running.timed.timed;
              })
              (let le = total-keep-le span stays q.pending in let lt = r.shorter in omega arith)))
        (λ _. r)

  marked-Remains :
      (n : ℕ) (q : OutboundQueue F) (o : Option (OutboundMessage F))
      → Remains n q
      → Remains n (marked q o)
  unfolding marked
  marked-Remains n q none r = r
  marked-Remains n q (some m) r =
      rebuilt n q (record q { in_flight = m.id ∷ q.in_flight }) r.running refl refl r.running.timed
        r.shorter

  pick_due-Remains :
      (n now : ℕ) (q : OutboundQueue F) (last_announce : Bytes → Option ℕ)
      → Remains n q
      → Remains n (pick_due q now last_announce).0
  unfolding pick_due
  pick_due-Remains n now q last_announce r =
      marked-Remains n (reap q now) _ (reap-Remains n now q r)

  attempt-Remains :
      (n : ℕ) (s : OutboundSender F) (q : OutboundQueue F) (m : OutboundMessage F) (now later : ℕ)
      → Remains (suc n) q
      → Contains q.pending m
      → IsPickable now m
      → now ≤ later
      → Remains n (attempt s q m later)
  unfolding attempt begin_attempt finish_attempt after_send
  attempt-Remains n s q m now later r c p le =
      let q' = begin_attempt q m in
      let t = r.running.timed in
      let (there, count) = replaced (begun m) m q.pending t.ordered c refl in
      let since = All-Contains (λ y. 0 < y.enqueued_at) q.pending m t.timed c in
      let o = settled q' (begun m) (send s (begun m)) later s.has_propagation_node in
      let (timed, lt) =
        placed-shorter (begun m) o (replace_message (begun m) q.pending) now later
          (settled-Waits q' r.running.waits r.running.path_waits (begun m) (send s (begun m)) later
            s.has_propagation_node)
          (record {
            ordered = replace_message-IsOrdered (begun m) q.pending t.ordered;
            timed = put-All (λ y. 0 < y.enqueued_at) (begun m) q.pending since t.timed;
          })
          there p le in
      let same = count span in
      let before = r.shorter in
      mark_dirty-Remains n (after_send q' (begun m) (send s (begun m)) later s.has_propagation_node)
        (rebuilt n q (after_send q' (begun m) (send s (begun m)) later s.has_propagation_node)
          r.running refl refl timed (omega arith))

  all_kept :
      (p : OutboundMessage F → Bool) (l : List (OutboundMessage F))
      → All (λ x. p x ≡ true) (keep p l)
  unfolding keep
  all_kept p [] = tt
  all_kept p (x ∷ l) =
      if_cases {A = List (OutboundMessage F)} (All (λ y. p y ≡ true)) (p x)
        (λ yes'. (yes', all_kept p l)) (λ _. all_kept p l)

  none_kept :
      (p : OutboundMessage F → Bool) (l : List (OutboundMessage F))
      → length (keep p l) ≡ 0
      → All (λ x. not (p x) ≡ true) l
  unfolding keep
  none_kept p [] e = tt
  none_kept p (x ∷ l) e =
      if_cases {A = List (OutboundMessage F)}
        (λ k. length k ≡ 0 → (not (p x) ≡ true) × All (λ y. not (p y) ≡ true) l) (p x)
        (λ _ bad. absurd (omega arith)) (λ no' f. (ground arith, none_kept p l f)) e

  -- What is left by `reap` has not expired.
  reap-fresh :
      (q : OutboundQueue F) (now : ℕ)
      → All (λ x. not (is_expired q.in_flight now x) ≡ true) (reap q now).pending
        × ((reap q now).in_flight ≡ q.in_flight)
  unfolding reap
  reap-fresh q now =
      let stays = λ (m : OutboundMessage F). not (is_expired q.in_flight now m) in
      if_cases {A = OutboundQueue F}
        (λ r. All (λ x. stays x ≡ true) r.pending × (r.in_flight ≡ q.in_flight))
        (ltb 0 (length (keep (is_expired q.in_flight now) q.pending)))
        (λ _.
          mark_dirty-kept (λ r. All (λ x. stays x ≡ true) r.pending × (r.in_flight ≡ q.in_flight))
            (record q { pending = keep stays q.pending }) (all_kept stays q.pending, refl)
            (all_kept stays q.pending, refl))
        (λ none'. (none_kept (is_expired q.in_flight now) q.pending (ground arith), refl))

  due-IsPickable :
      (in_flight : List Bytes) (now : ℕ) (ahead : List (OutboundMessage F)) (m : OutboundMessage F)
      → is_due in_flight now ahead m ≡ true
      → not (is_expired in_flight now m) ≡ true
      → 0 < m.enqueued_at
      → IsPickable now m
  unfolding is_due is_expired is_too_old
  due-IsPickable in_flight now ahead m due stays since = (ground arith, ground arith)

  same_pending :
      (q : OutboundQueue F) (o : Option (OutboundMessage F)) → (marked q o).pending ≡ q.pending
  unfolding marked
  same_pending q none = refl
  same_pending q (some m) = refl

  pending-pick_due :
      (q : OutboundQueue F) (now : ℕ) (last_announce : Bytes → Option ℕ)
      → (pick_due q now last_announce).0.pending ≡ (reap q now).pending
  unfolding pick_due
  pending-pick_due q now last_announce = same_pending (reap q now) _

  picked-IsPickable :
      (n : ℕ) (q : OutboundQueue F) (now : ℕ) (last_announce : Bytes → Option ℕ)
      (m : OutboundMessage F)
      → Remains n q
      → (pick_due q now last_announce).1 ≡ some m
      → Contains (pick_due q now last_announce).0.pending m × IsPickable now m
  picked-IsPickable n q now last_announce m r e = elim (pick_due_fair last_announce q now) [
    | inl (none', _) ↦ absurd (none_some (sym none' ∙ e))
    | inr (m', e', _, d) ↦
        let same : m' ≡ m = cc in
        let d' = subst (IsDueIn (reap q now).in_flight now (reap q now).pending) same d in
        let left = (reap q now).pending in
        let there : Contains left m =
          subst (λ l. Contains l m) (sym d'.split) (Contains-append d'.ahead d'.behind m) in
        let (fresh, flying) = reap-fresh q now in
        let timed = (reap-Remains n now q r).running.timed.timed in
        (
          subst (λ l. Contains l m) (sym (pending-pick_due q now last_announce)) there,
          due-IsPickable q.in_flight now d'.ahead m
              (subst (λ f. is_due f now d'.ahead m ≡ true) flying d'.due)
              (All-Contains (λ x. not (is_expired q.in_flight now x) ≡ true) left m fresh there)
              (All-Contains (λ x. 0 < x.enqueued_at) left m timed there),
        )
  ]
    where
      none_some : none ≡ some m → ⊥
      none_some bad = cc

  ends_in :
      (n : ℕ) (turns : ℕ → Turn F) (q : OutboundQueue F)
      → ((k : ℕ) → (turns k).picked_at ≤ (turns k).sent_at)
      → Remains n q
      → (process_once n turns q).1 ≡ true
  unfolding process_once
  ends_in zero turns q clock r = let lt = r.shorter in absurd (omega arith)
  ends_in (suc n) turns q clock r =
      let t = turns 0 in
      if_cases {A = OutboundQueue F × Bool} (λ x. x.1 ≡ true) t.cancelled (λ _. refl)
        λ _.
          option_cases {B = OutboundQueue F × Bool} (λ x. x.1 ≡ true)
            (pick_due q t.picked_at t.sender.last_announce_for).1 (λ _. refl)
            λ m e.
              let q' = (pick_due q t.picked_at t.sender.last_announce_for).0 in
              let (there, p) =
                picked-IsPickable (suc n) q t.picked_at t.sender.last_announce_for m r e in
              ends_in n (λ k. turns (suc k)) (attempt t.sender q' m t.sent_at) (λ k. clock (suc k))
                (attempt-Remains n t.sender q' m t.picked_at t.sent_at
                  (pick_due-Remains (suc n) t.picked_at q t.sender.last_announce_for r) there p
                  (clock 0))

  -- The loop of processOnce ends, however long each send takes and whatever it gives, a wait for a node
  -- included: with waits that are not 0, entries in the order of their numbers that have the time at which
  -- they were queued, and a clock that does not go back between a pick and the end of its send, it returns
  -- within one turn more than the nanoseconds from the next attempt of each message until it is past its
  -- age, added up.
  pub process_once_ends :
      (turns : ℕ → Turn F) (q : OutboundQueue F)
      → 0 < q.retry_wait
      → 0 < q.path_wait
      → IsOrdered q.pending
      → All (λ m. 0 < m.enqueued_at) q.pending
      → ((k : ℕ) → (turns k).picked_at ≤ (turns k).sent_at)
      → (process_once (suc (total span q.pending)) turns q).1 ≡ true
  process_once_ends turns q on path_on ordered timed clock =
      ends_in (suc (total span q.pending)) turns q clock (record {
        running = record {
          waits = on;
          path_waits = path_on;
          timed = record { ordered = ordered; timed = timed };
        };
        shorter = omega arith;
      })
