-- ===== src/Examples/Queues.antt =====
-- The theorems on the outbound queue, the id map and the propagation nodes at concrete inputs.
use reticulum_group_chat.Base.{
  ℕ, suc, ◌+◌, ◌*◌, ◌≡◌, ◌<◌, ◌≤◌, ◌⊎◌, refl, Bool, true, false, Option, none, some, List, [], ◌∷◌,
  All, arith, length, map, ltb, nat_eq, sym, if◌then◌else◌, ap, keep,
}
use Prim.Native.Nat.{◌^◌}
use mathlib.Core.List.{Mem}
use reticulum_group_chat.Base.Int.{pos}
use reticulum_group_chat.Base.Maps.{lookup, insert, contains, values}
use reticulum_group_chat.Base.Text.{Bytes, bytes_eq, bytes_beq}
use reticulum_group_chat.IdMap.{
  Bubble, Cache, new_cache, new_bubble, views_of, add_view, enforce_cap, enforce_cap_in,
  evict_expired, evict_expired_in, move_to_front, register_view, view_for,
}
use reticulum_group_chat.IdMap.Views.{Reachable, created, relayed, registered, Reachable-capped}
use reticulum_group_chat.Service.Outbound.Queue.{
  OutboundMessage, StoredMessage, OutboundQueue, second, stored, load, load_each, enqueue,
  mark_dirty, begin_flush, finish_flush,
}
use reticulum_group_chat.Service.Outbound.Pick.{reap, pick_due, is_due}
use reticulum_group_chat.Service.Outbound.Attempt.{
  other_error, recipient_unknown, OutboundSender, Turn, backoff_wait, process_once,
}
use reticulum_group_chat.Service.Outbound.Fairness.{candidates, IsFirst, IsDueIn, pick_due_fair}
use reticulum_group_chat.Service.Outbound.Numbering.{IsNumbered, load-IsNumbered}
use reticulum_group_chat.Service.Outbound.Holding.{IsNoHindrance, pick_due_after_earlier}
use reticulum_group_chat.Service.Outbound.Retries.{
  Try, attempted, backoff_wait_exact, attempted_ends,
}
use reticulum_group_chat.Service.Outbound.Steps.{
  Working, idle, Reached, started, enqueued, flushing, flushed, Reached-Fits,
}
use reticulum_group_chat.Service.Outbound.Durable.{Reached-IsDurable}
use reticulum_group_chat.Service.Outbound.Order.{total}
use reticulum_group_chat.Service.Outbound.Waits.{span}
use reticulum_group_chat.Service.Outbound.Draining.{process_once_ends}
use reticulum_group_chat.Service.Outbound.Loading.{demoted, has_address, IsBare, load_restores}
use reticulum_group_chat.Service.Propagation.{
  PropagationNodeState, PropagationTracker, is_candidate, current,
}
use reticulum_group_chat.Service.Propagation.Selection.{IsLongest, current-IsLongest}

abbrev alice : Bytes
alice = 1 ∷ 2 ∷ 3 ∷ 4 ∷ 5 ∷ 6 ∷ 7 ∷ 8 ∷ 9 ∷ 10 ∷ 11 ∷ 12 ∷ 13 ∷ 14 ∷ 15 ∷ 16 ∷ []

abbrev bob : Bytes
bob = 2 ∷ 2 ∷ 3 ∷ 4 ∷ 5 ∷ 6 ∷ 7 ∷ 8 ∷ 9 ∷ 10 ∷ 11 ∷ 12 ∷ 13 ∷ 14 ∷ 15 ∷ 16 ∷ []

-- A message `n` to `to`.
abbrev message : ℕ → Bytes → Bool → OutboundMessage Bytes
message n to held = record {
  ref = n;
  id = n ∷ [];
  recipient = to;
  body = 104 ∷ 105 ∷ [];
  fields = none;
  bubble = none;
  attempts = 0;
  next_attempt = 0;
  enqueued_at = 100;
  propagated = false;
  after_earlier = held;
}

abbrev queue_of : List (OutboundMessage Bytes) → OutboundQueue Bytes
queue_of l = record {
  pending = l;
  in_flight = [];
  dirty = false;
  dropped = 0;
  retry_wait = 10 * second;
  path_wait = 7 * second;
  max_attempts = 5;
  pathless_tries = 1;
  propagation_fallback = true;
  propagation_always = false;
  direct_attempts = 2;
  idmap = none;
  store = some (map stored l);
  next_ref = length l;
}

abbrev two_queued : OutboundQueue Bytes
two_queued = queue_of (message 0 alice false ∷ message 1 bob true ∷ [])

-- Only `bob` has been heard.
abbrev bob_heard : Bytes → Option ℕ
bob_heard h = elim h [ [] ↦ none | x ∷ _ ↦ if ltb 1 x then some 50 else none ]

pick_due_fair_example :
    (((pick_due two_queued 200 bob_heard).1 ≡ none)
      × (candidates (reap two_queued 200).in_flight 200 [] (reap two_queued 200).pending ≡ []))
    ⊎ ((m : OutboundMessage Bytes) × ((pick_due two_queued 200 bob_heard).1 ≡ some m)
        × IsFirst bob_heard
            (candidates (reap two_queued 200).in_flight 200 [] (reap two_queued 200).pending)
            m
        × IsDueIn (reap two_queued 200).in_flight 200 (reap two_queued 200).pending m)
pick_due_fair_example = pick_due_fair bob_heard two_queued 200

-- A start with two messages in the file, and nothing queued since.
abbrev before_start : OutboundQueue Bytes
before_start = record two_queued { next_ref = 0; pending = [] }

abbrev restarted : OutboundQueue Bytes
restarted = (load before_start true).0

restarted-IsNumbered : IsNumbered restarted
restarted-IsNumbered = load-IsNumbered before_start true (tt, tt)

restarted_picked : (pick_due restarted 200 bob_heard).1 ≡ some (message 1 bob true)
unfolding pick_due reap is_due keep contains bytes_beq load load_each
restarted_picked = refl

pick_due_after_earlier_example :
    All (IsNoHindrance restarted 200 (message 1 bob true)) restarted.pending
pick_due_after_earlier_example =
    pick_due_after_earlier restarted (idle restarted) 200 bob_heard (message 1 bob true)
      restarted-IsNumbered started restarted_picked refl

backoff_wait_exact_example :
    backoff_wait two_queued 4
    ≡ (if ltb (60 * second) (10 * second * 2 ^ 3) then 60 * second else 10 * second * 2 ^ 3)
backoff_wait_exact_example = backoff_wait_exact two_queued 4

abbrev failing : Try
failing = record { outcome = other_error; now = 300; has_node = true }

attempted_ends_example :
    attempted two_queued (message 0 alice false) (
      failing ∷ failing ∷ failing ∷ failing ∷ failing ∷ failing ∷ failing ∷ failing ∷ failing
      ∷ failing ∷ [])
    ≡ none
attempted_ends_example =
    attempted_ends two_queued (message 0 alice false)
      (failing ∷ failing ∷ failing ∷ failing ∷ failing ∷ failing ∷ failing ∷ failing ∷ failing
        ∷ failing ∷ [])
      (omega arith) (omega arith)

-- The sender fails every send.
abbrev offline : OutboundSender Bytes
offline = record {
  send_lxmf = λ _ _ _. other_error;
  send_lxmf_propagated = λ _ _ _. recipient_unknown;
  has_propagation_node = true;
  last_announce_for = bob_heard;
}

-- Every send takes 15 seconds, so that a message can be due again in the same call.
abbrev slow_turns : ℕ → Turn Bytes
slow_turns k = record {
  cancelled = false;
  picked_at = 200 + k * (15 * second);
  sent_at = 200 + k * (15 * second) + 15 * second;
  sender = offline;
}

process_once_ends_example :
    (process_once (suc (total span two_queued.pending)) slow_turns two_queued).1 ≡ true
process_once_ends_example =
    process_once_ends slow_turns two_queued (omega arith) (omega arith)
      ((omega arith, tt), (tt, tt)) (omega arith, (omega arith, tt)) (λ k. omega arith)

abbrev flushed_once : Working Bytes
flushed_once = idle (
    finish_flush (begin_flush (enqueue two_queued (9 ∷ []) alice [] none none false 300).0).0
      (map stored (enqueue two_queued (9 ∷ []) alice [] none none false 300).0.pending) true)

-- A message is queued and the queue is written.
flushed_once-Reached : Reached two_queued flushed_once
unfolding begin_flush enqueue mark_dirty
flushed_once-Reached =
    flushed _ (map stored (enqueue two_queued (9 ∷ []) alice [] none none false 300).0.pending) true
      (flushing (idle (enqueue two_queued (9 ∷ []) alice [] none none false 300).0)
        (enqueued (idle two_queued) (9 ∷ []) alice [] none none false 300 started) refl)
      refl

Reached-Fits_example : length flushed_once.queue.pending ≤ 10000
Reached-Fits_example = Reached-Fits two_queued flushed_once (omega arith) flushed_once-Reached

not_flying : flushed_once.queue.in_flight ≡ []
unfolding begin_flush enqueue mark_dirty finish_flush
not_flying = refl

written_clean : flushed_once.queue.dirty ≡ false
unfolding begin_flush enqueue mark_dirty finish_flush
written_clean = refl

in_file :
    flushed_once.queue.store
    ≡ some (map stored (enqueue two_queued (9 ∷ []) alice [] none none false 300).0.pending)
unfolding begin_flush enqueue mark_dirty finish_flush
in_file = refl

same_file :
    (old : List StoredMessage) → two_queued.store ≡ some old → old ≡ map stored two_queued.pending
same_file old e = cc

Reached-IsDurable_example :
    map stored (enqueue two_queued (9 ∷ []) alice [] none none false 300).0.pending
    ≡ map stored flushed_once.queue.pending
Reached-IsDurable_example =
    Reached-IsDurable two_queued flushed_once
      (map stored (enqueue two_queued (9 ∷ []) alice [] none none false 300).0.pending) same_file
      flushed_once-Reached refl not_flying written_clean in_file

load_restores_example :
    (map stored (load two_queued true).0.pending
      ≡ map (demoted true) (keep has_address (map stored two_queued.pending)))
    × All (IsBare Bytes) (load two_queued true).0.pending
    × (load two_queued false ≡ (two_queued, false))
load_restores_example = load_restores Bytes two_queued (map stored two_queued.pending) refl

-- A bubble with one view.
abbrev no_bubbles : Cache
no_bubbles = new_cache 100 (pos 2)

abbrev one_bubble : Cache
one_bubble = (new_bubble no_bubbles 100 5).0

abbrev one_view : Cache
one_view = register_view one_bubble 0 alice (7 ∷ []) 6

new_view :
    (bubble : Bubble) → lookup 0 one_bubble.bubbles ≡ some bubble → view_for bubble alice ≡ none
unfolding new_bubble new_cache insert lookup view_for
new_view bubble e =
    let views : Bubble = record { views = []; expires_at = 105 } in
    let same : views ≡ bubble = cc in ap (λ b. view_for b alice) (sym same)

one_view-Reached : Reachable one_view
one_view-Reached =
    registered one_bubble 0 alice (7 ∷ []) 6 (relayed no_bubbles 100 5 (created 100 (pos 2)))
      new_view

one_view_max : 0 < one_view.max_size
unfolding register_view enforce_cap enforce_cap_in evict_expired evict_expired_in add_view
    new_bubble new_cache insert lookup bytes_beq move_to_front keep
one_view_max = omega arith

Reachable-capped_example :
    (length one_view.by_msg_id ≤ one_view.max_size)
    × ((k : Bytes) (b : ℕ)
        → lookup k one_view.by_msg_id ≡ some b
        → (contains one_view.lru b ≡ true) × (contains (values (views_of one_view b)) k ≡ true))
Reachable-capped_example = Reachable-capped one_view one_view-Reached one_view_max

abbrev a_node : PropagationNodeState
a_node = record {
  dest_hash = alice;
  first_heard = 10;
  last_heard = 20;
  enabled = true;
  stamp_cost = 8;
  transfer_limit_kb = 256;
  usable = true;
}

abbrev one_node : PropagationTracker
one_node = record { pinned = []; nodes = (alice, a_node) ∷ [] }

current-IsLongest_example :
    ((0 < length one_node.pinned) × (current one_node 50 ≡ some one_node.pinned))
    ⊎ ((length one_node.pinned ≡ 0)
        × (((current one_node 50 ≡ none)
              × All (λ other. is_candidate 50 other ≡ false) (values one_node.nodes))
            ⊎ ((n : PropagationNodeState) × (current one_node 50 ≡ some n.dest_hash)
                × IsLongest 50 n one_node.nodes
                × Mem n (values one_node.nodes)
                × (is_candidate 50 n ≡ true))))
current-IsLongest_example = current-IsLongest 50 one_node
