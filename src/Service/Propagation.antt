-- ===== src/Service/Propagation.antt =====
-- internal/service/propagation.go: the propagation nodes that were heard, and the one to use.
-- Times are nanoseconds. `info` stands for what ParsePropagationNodeAppData gives, none for an error, a
-- negative cost or limit as 0, which the tests treat alike; `max_stamp_cost` is
-- lxmf.MaxPropagationStampCost. Go leaves the order of the loops over the map open: it decides
-- between nodes that were heard at the same time, as the order of the list does here. A destination hash
-- is not empty, so no key is the empty string, which stands for no node there.
pub mod Selection
use reticulum_group_chat.Base.{
  ℕ, zero, suc, ◌+◌, ◌-◌, ◌*◌, Bool, true, false, not, ◌&&◌, Option, none, some, List, [], ◌∷◌, ltb,
  leb, ◌==◌, if◌then◌else◌, length, is_some,
}
use reticulum_group_chat.Base.Maps.{Map, lookup, insert, delete, select}
use reticulum_group_chat.Base.Text.{Bytes, bytes_eq}
use reticulum_group_chat.Hex.{encode}

pub record PropagationNodeInfo : Type 0 where
  pub enabled : Bool
  pub stamp_cost : ℕ
  pub per_transfer_limit_kb : ℕ

pub record PropagationNodeState : Type 0 where
  pub dest_hash : Bytes
  pub first_heard : ℕ
  pub last_heard : ℕ
  pub enabled : Bool
  pub stamp_cost : ℕ
  pub transfer_limit_kb : ℕ
  pub usable : Bool

pub record PropagationTracker : Type 0 where
  pub pinned : Bytes
  pub nodes : Map Bytes PropagationNodeState

abbrev pub max_tracked_nodes : ℕ
max_tracked_nodes = 256

abbrev pub node_stale_after : ℕ
node_stale_after = 30 * 60 * 1000000000

abbrev pub min_transfer_limit_kb : ℕ
min_transfer_limit_kb = 16

unfoldable pub new_propagation_tracker : Bytes → PropagationTracker
new_propagation_tracker pinned = record { pinned = pinned; nodes = [] }

unfoldable pub acceptable_node : ℕ → PropagationNodeInfo → Bool
acceptable_node max_stamp_cost info =
    if not info.enabled
    then false
    else if ltb max_stamp_cost info.stamp_cost
    then false
    else if ltb 0 info.per_transfer_limit_kb && ltb info.per_transfer_limit_kb min_transfer_limit_kb
    then false
    else true

abbrev pub is_stale : ℕ → PropagationNodeState → Bool
is_stale now n = ltb node_stale_after (now - n.last_heard)

-- The node heard least recently, among those of the map and the one so far.
unfoldable pub oldest : Option (Bytes × ℕ) → Map Bytes PropagationNodeState → Option (Bytes × ℕ)
oldest so_far [] = so_far
oldest none ((k, n) ∷ m) = oldest (some (k, n.last_heard)) m
oldest (some (key, at)) ((k, n) ∷ m) =
    oldest (if ltb n.last_heard at then some (k, n.last_heard) else some (key, at)) m

-- The loop that makes room, on fuel.
unfoldable pub make_room : ℕ → Map Bytes PropagationNodeState → Map Bytes PropagationNodeState
unfolding oldest
make_room zero m = m
make_room (suc fuel) m = elim (oldest none m) [
  | none ↦ m
  | some (key, _) ↦
      let rest = make_room fuel (delete key m) in
      if leb max_tracked_nodes (length m) then rest else m
]

-- Each turn of the second loop deletes a node, so there are at most as many turns as nodes.
unfoldable pub evict_stale : Map Bytes PropagationNodeState → ℕ → Map Bytes PropagationNodeState
unfolding make_room
evict_stale m now =
    let fresh = select (λ _ n. not (is_stale now n)) m in make_room (length fresh) fresh

abbrev pub since : ℕ → Option PropagationNodeState → ℕ
since now none = now
since now (some prev) = prev.first_heard

unfoldable pub heard_node :
    ℕ → Bytes → PropagationNodeInfo → ℕ → Option PropagationNodeState → PropagationNodeState
unfolding acceptable_node
heard_node max_stamp_cost dest_hash info now prev = record {
  dest_hash = dest_hash;
  first_heard = since now prev;
  last_heard = now;
  enabled = info.enabled;
  stamp_cost = info.stamp_cost;
  transfer_limit_kb = info.per_transfer_limit_kb;
  usable = acceptable_node max_stamp_cost info;
}

unfoldable pub on_announce :
    ℕ → PropagationTracker → Bytes → Option PropagationNodeInfo → ℕ → PropagationTracker
unfolding evict_stale heard_node
on_announce max_stamp_cost t dest_hash none now = t
on_announce max_stamp_cost t dest_hash (some info) now =
    let key = encode dest_hash in
    let prev = lookup key t.nodes in
    let kept = if is_some prev then t.nodes else evict_stale t.nodes now in
    record t { nodes = insert key (heard_node max_stamp_cost dest_hash info now prev) kept }

-- The two tests that skip a node.
abbrev pub is_candidate : ℕ → PropagationNodeState → Bool
is_candidate now n = n.usable && not (is_stale now n)

unfoldable pub longest_known :
    ℕ → Option PropagationNodeState → Map Bytes PropagationNodeState → Option PropagationNodeState
longest_known now best [] = best
longest_known now none ((_, n) ∷ m) =
    longest_known now (if is_candidate now n then some n else none) m
longest_known now (some best) ((_, n) ∷ m) =
    longest_known now
      (if is_candidate now n && ltb n.first_heard best.first_heard then some n else some best) m

unfoldable pub current : PropagationTracker → ℕ → Option Bytes
unfolding longest_known
current t now =
    if ltb 0 (length t.pinned)
    then some t.pinned
    else elim (longest_known now none t.nodes) [ none ↦ none | some best ↦ some best.dest_hash ]
