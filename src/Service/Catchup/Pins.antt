-- ===== src/Service/Catchup/Pins.antt =====
-- Proofs on internal/service/replay.go: the messages of a catch-up, the pins at the end.
use reticulum_group_chat.Base.{
  ℕ, suc, ◌+◌, ◌≤◌, ◌<◌, ◌≡◌, refl, sym, ap, ◌∙◌, Bool, true, false, ◌&&◌, Option, none, List, [],
  ◌∷◌, ◌++◌, map, leb, nat_beq, ◌==◌, length, length-append, if_cases, if◌then◌else◌, arith,
  is_some, Bool-cases, inl, inr,
}
use mathlib.Core.List.{append-nil, append_assoc}
use reticulum_group_chat.Base.Text.{Bytes, bytes_eq}
use reticulum_group_chat.Hex.{encode}
use reticulum_group_chat.Sanitize.{sanitize_forward}
use reticulum_group_chat.GroupInfo.Store.{Store}
use reticulum_group_chat.History.{Entry, Log}
use reticulum_group_chat.Service.Replay.{ReplayLimiter, allow}
use reticulum_group_chat.Service.Outbound.Queue.{
  OutboundMessage, OutboundQueue, mark_dirty, max_pending_messages, enqueue, enqueue_plain,
  enqueue_with_fields, enqueue_bubble, enqueue_after_earlier,
}
use reticulum_group_chat.Service.Catchup.{
  ReplayConfig, pinned_text, replayed, replay_body, replay_each, send_pins, send_join_catchup,
}

-- A message as its recipient gets it, and whether it waits for the earlier ones.
pub record Sent : Type 0 where
  pub recipient : Bytes
  pub body : Bytes
  pub waits : Bool

abbrev pub replay_message : Bytes → ℕ → Entry → Sent
replay_message joiner now e = record { recipient = joiner; body = replay_body now e; waits = false }

-- The pins are one message, which waits.
unfoldable pub pins_message : Bytes → Bytes → List Sent
pins_message joiner pinned =
    if pinned == []
    then []
    else (record { recipient = joiner; body = sanitize_forward pinned; waits = true }) ∷ []

abbrev pub catchup : ReplayConfig → Option Store → Log → Bytes → ℕ → List Sent
catchup cfg info log joiner now =
    map (replay_message joiner now) (replayed cfg log now)
    ++ pins_message joiner (pinned_text cfg info now)

catchup_nothing :
    (cfg : ReplayConfig) (info : Option Store) (log : Log) (joiner : Bytes) (now : ℕ)
    → (nat_beq cfg.count 0 && pinned_text cfg info now == []) ≡ true
    → catchup cfg info log joiner now ≡ []
unfolding replayed pins_message
catchup_nothing cfg info log joiner now h =
    let c : nat_beq cfg.count 0 ≡ true = ground arith in
    let p : (pinned_text cfg info now == []) ≡ true = ground arith in rw (c, p) refl

length-replay :
    (joiner : Bytes) (now : ℕ) (es : List Entry)
    → length (map (replay_message joiner now) es) ≡ length es
length-replay joiner now [] = refl
length-replay joiner now (e ∷ es) = ap suc (length-replay joiner now es)

module _ {F : Type 0} where
  abbrev pub as_sent : OutboundMessage F → Sent
  as_sent m = record { recipient = m.recipient; body = m.body; waits = m.after_earlier }

  -- The second queue has the messages of the first, and these behind them.
  abbrev pub Grown : OutboundQueue F → OutboundQueue F → List Sent → Type 0
  Grown q q' more = map as_sent q'.pending ≡ map as_sent q.pending ++ more

  map-append_one :
      (l : List (OutboundMessage F)) (m : OutboundMessage F)
      → map as_sent (l ++ (m ∷ [])) ≡ map as_sent l ++ (as_sent m ∷ [])
  map-append_one [] m = refl
  map-append_one (x ∷ l) m = λ i. as_sent x ∷ map-append_one l m i

  pending-mark_dirty : (q : OutboundQueue F) → (mark_dirty q).pending ≡ q.pending
  unfolding mark_dirty
  pending-mark_dirty q =
      if_cases {A = OutboundQueue F} (λ q'. q'.pending ≡ q.pending) (is_some q.store) (λ _. refl)
        (λ _. refl)

  enqueue-Grown :
      (q : OutboundQueue F) (id recipient body : Bytes) (fields : Option F) (bubble : Option ℕ)
      (after_earlier : Bool) (now : ℕ)
      → length q.pending < max_pending_messages
      → Grown q
          (enqueue q id recipient body fields bubble after_earlier now).0
          ((record { recipient = recipient; body = body; waits = after_earlier }) ∷ [])
  unfolding enqueue
  enqueue-Grown q id recipient body fields bubble after_earlier now room =
      let full : leb max_pending_messages (length q.pending) ≡ false = ground arith in
      rw (full, enqueue) (ap (map as_sent) (pending-mark_dirty _) ∙ map-append_one q.pending _)

  length-map : (l : List (OutboundMessage F)) → length (map as_sent l) ≡ length l
  length-map [] = refl
  length-map (x ∷ l) = ap suc (length-map l)

  length-Grown :
      (q q' : OutboundQueue F) (more : List Sent)
      → Grown q q' more
      → length q'.pending ≡ length q.pending + length more
  length-Grown q q' more g =
      sym (length-map q'.pending)
      ∙ (ap length g
          ∙ (length-append (map as_sent q.pending) more
              ∙ ap (λ n. n + length more) (length-map q.pending)))

  Grown-trans :
      (q q' q'' : OutboundQueue F) (xs ys : List Sent)
      → Grown q q' xs
      → Grown q' q'' ys
      → Grown q q'' (xs ++ ys)
  Grown-trans q q' q'' xs ys g h =
      h ∙ (ap (λ l. l ++ ys) g ∙ append_assoc (map as_sent q.pending) xs ys)

  replay_each-Grown :
      (ids : ℕ → Bytes) (q : OutboundQueue F) (joiner : Bytes) (es : List Entry) (now : ℕ)
      → length q.pending + length es ≤ max_pending_messages
      → Grown q (replay_each ids q joiner es now) (map (replay_message joiner now) es)
  unfolding replay_each enqueue_plain enqueue_with_fields enqueue_bubble
  replay_each-Grown ids q joiner [] now room = sym (append-nil (map as_sent q.pending))
  replay_each-Grown ids q joiner (e ∷ es) now room =
      let q' = (enqueue_plain q (ids q.next_ref) joiner (replay_body now e) now).0 in
      let one : Grown q q' (replay_message joiner now e ∷ []) =
        enqueue-Grown q (ids q.next_ref) joiner (replay_body now e) none none false now
          (omega arith) in
      let longer = length-Grown q q' (replay_message joiner now e ∷ []) one in
      Grown-trans q q' (replay_each ids q' joiner es now) (replay_message joiner now e ∷ [])
        (map (replay_message joiner now) es) one
        (replay_each-Grown ids q' joiner es now (omega arith))

  send_pins-Grown :
      (ids : ℕ → Bytes) (q : OutboundQueue F) (joiner pinned : Bytes) (now : ℕ)
      → length q.pending < max_pending_messages
      → Grown q (send_pins ids q joiner pinned now) (pins_message joiner pinned)
  unfolding send_pins pins_message enqueue_after_earlier
  send_pins-Grown ids q joiner pinned now room = elim (Bool-cases (pinned == [])) [
    | inl none' ↦ rw none' (sym (append-nil (map as_sent q.pending)))
    | inr some' ↦
        rw some' (
          enqueue-Grown q (ids q.next_ref) joiner (sanitize_forward pinned) none none true now room)
  ]

  allowed-Grown :
      (cfg : ReplayConfig) (ids : ℕ → Bytes) (info : Option Store) (log : Log) (q : OutboundQueue F)
      (joiner : Bytes) (now : ℕ)
      → length q.pending + length (replayed cfg log now) < max_pending_messages
      → Grown q
          (send_pins ids
            (replay_each ids q joiner (replayed cfg log now) now)
            joiner
            (pinned_text cfg info now)
            now)
          (catchup cfg info log joiner now)
  allowed-Grown cfg ids info log q joiner now room =
      let es = replayed cfg log now in
      let q' = replay_each ids q joiner es now in
      let more = map (replay_message joiner now) es in
      let g : Grown q q' more = replay_each-Grown ids q joiner es now (omega arith) in
      let longer : length q'.pending ≡ length q.pending + length es =
        length-Grown q q' more g ∙ ap (λ n. length q.pending + n) (length-replay joiner now es) in
      Grown-trans q q' (send_pins ids q' joiner (pinned_text cfg info now) now) more
        (pins_message joiner (pinned_text cfg info now)) g
        (send_pins-Grown ids q' joiner (pinned_text cfg info now) now (omega arith))

  -- With room in the queue for the replay and the pins, a catch-up that the limiter allows adds the
  -- replayed entries of the history in their order and, at the end, one message with the pins that
  -- waits for the earlier ones, if there are any pins to send; one that it refuses adds nothing.
  pub send_join_catchup_exact :
      (cfg : ReplayConfig) (ids : ℕ → Bytes) (info : Option Store) (log : Log)
      (limit : ReplayLimiter) (q : OutboundQueue F) (joiner : Bytes) (now : ℕ)
      → length q.pending + length (replayed cfg log now) < max_pending_messages
      → map as_sent (send_join_catchup cfg ids info log limit q joiner now).1.pending
        ≡ map as_sent q.pending
          ++ (if (allow limit (encode joiner) now).1 then catchup cfg info log joiner now else [])
  unfolding send_join_catchup
  send_join_catchup_exact cfg ids info log limit q joiner now room =
      let pinned = pinned_text cfg info now in
      let allowed = (allow limit (encode joiner) now).1 in
      elim (Bool-cases (nat_beq cfg.count 0 && pinned == [])) [
        | inl nothing ↦
            rw (nothing, send_join_catchup, catchup_nothing cfg info log joiner now nothing)
              (sym (
                ap (λ l. map as_sent q.pending ++ l) (if_same allowed)
                ∙ append-nil (map as_sent q.pending)))
        | inr some' ↦ elim (Bool-cases allowed) [
          | inl yes' ↦
              rw (some', yes', send_join_catchup) (allowed-Grown cfg ids info log q joiner now room)
          | inr no' ↦ rw (some', no', send_join_catchup) (sym (append-nil (map as_sent q.pending)))
        ]
      ]
    where
      if_same : (b : Bool) → if◌then◌else◌ {A = List Sent} b [] [] ≡ []
      if_same true = refl
      if_same false = refl
