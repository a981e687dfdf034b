-- ===== src/Service/Outbound/Queue.antt =====
-- internal/service/outbound.go: the queue, its entries and its file.
-- Times are nanoseconds, 0 the zero time. `ref` stands for the pointer to an entry, and each new entry has
-- the next one; the type `F` of a field map is left open, none where it is nil. `in_flight` has the
-- keys of the map of that name, whose values are all true. `idmap` and `store` are none where the
-- pointer is nil; the store is what its file holds, and a missing or empty file holds no entry. The id
-- of a new entry is an argument. Logging is left out.
use reticulum_group_chat.Base.{
  ℕ, suc, ◌+◌, ◌*◌, Bool, true, false, ◌&&◌, ◌||◌, Option, none, some, List, [], ◌∷◌, ◌++◌, map,
  leb, nat_beq, if◌then◌else◌, length, is_some,
}
use reticulum_group_chat.Base.Text.{Bytes}
use reticulum_group_chat.IdMap.{Cache}

abbrev pub second : ℕ
second = 1000000000

abbrev pub max_delivery_attempts : ℕ
max_delivery_attempts = 5

abbrev pub delivery_retry_wait : ℕ
delivery_retry_wait = 10 * second

abbrev pub path_request_wait : ℕ
path_request_wait = 7 * second

abbrev pub max_pathless_tries : ℕ
max_pathless_tries = 1

abbrev pub max_retry_backoff : ℕ
max_retry_backoff = 60 * second

abbrev pub max_pending_messages : ℕ
max_pending_messages = 10000

abbrev pub max_queue_age : ℕ
max_queue_age = 24 * 3600 * second

abbrev pub identity_hash_len : ℕ
identity_hash_len = 16

pub record OutboundMessage (F : Type 0) : Type 0 where
  pub ref : ℕ
  pub id : Bytes
  pub recipient : Bytes
  pub body : Bytes
  pub fields : Option F
  pub bubble : Option ℕ
  pub attempts : ℕ
  pub next_attempt : ℕ
  pub enqueued_at : ℕ
  pub propagated : Bool
  pub after_earlier : Bool

-- An entry as the file holds it: without its fields and its bubble.
pub record StoredMessage : Type 0 where
  pub id : Bytes
  pub recipient : Bytes
  pub body : Bytes
  pub attempts : ℕ
  pub next_attempt : ℕ
  pub enqueued_at : ℕ
  pub propagated : Bool
  pub after_earlier : Bool

pub record OutboundQueue (F : Type 0) : Type 0 where
  pub pending : List (OutboundMessage F)
  pub in_flight : List Bytes
  pub dirty : Bool
  pub dropped : ℕ
  pub retry_wait : ℕ
  pub path_wait : ℕ
  pub max_attempts : ℕ
  pub pathless_tries : ℕ
  pub propagation_fallback : Bool
  pub propagation_always : Bool
  pub direct_attempts : ℕ
  pub idmap : Option Cache
  pub store : Option (List StoredMessage)
  pub next_ref : ℕ

-- The file after a write; without a store there is none.
abbrev pub overwritten :
    Option (List StoredMessage) → List StoredMessage → Option (List StoredMessage)
overwritten none snapshot = none
overwritten (some file) snapshot = some snapshot

module _ {F : Type 0} where
  unfoldable pub new_outbound_queue : Option (List StoredMessage) → OutboundQueue F
  new_outbound_queue store = record {
    pending = [];
    in_flight = [];
    dirty = false;
    dropped = 0;
    retry_wait = delivery_retry_wait;
    path_wait = path_request_wait;
    max_attempts = max_delivery_attempts;
    pathless_tries = max_pathless_tries;
    propagation_fallback = false;
    propagation_always = false;
    direct_attempts = 0;
    idmap = none;
    store = store;
    next_ref = 0;
  }

  unfoldable pub set_propagation : OutboundQueue F → Bool → Bool → ℕ → OutboundQueue F
  set_propagation q fallback always direct_attempts = record q {
    propagation_fallback = fallback;
    propagation_always = always;
    direct_attempts = direct_attempts;
  }

  unfoldable pub set_id_map : OutboundQueue F → Option Cache → OutboundQueue F
  set_id_map q c = record q { idmap = c }

  -- persistLocked: the flush loop is a call of `flush` of its own.
  unfoldable pub mark_dirty : OutboundQueue F → OutboundQueue F
  mark_dirty q = if is_some q.store then record q { dirty = true } else q

  abbrev pub stored : OutboundMessage F → StoredMessage
  stored m = record {
    id = m.id;
    recipient = m.recipient;
    body = m.body;
    attempts = m.attempts;
    next_attempt = m.next_attempt;
    enqueued_at = m.enqueued_at;
    propagated = m.propagated;
    after_earlier = m.after_earlier;
  }

  abbrev pub loaded : ℕ → Bool → StoredMessage → OutboundMessage F
  loaded ref propagation_on s = record {
    ref = ref;
    id = s.id;
    recipient = s.recipient;
    body = s.body;
    fields = none;
    bubble = none;
    attempts = s.attempts;
    next_attempt = s.next_attempt;
    enqueued_at = s.enqueued_at;
    propagated = s.propagated && propagation_on;
    after_earlier = s.after_earlier;
  }

  -- The loop of `Load`: a recipient of another length is dropped.
  unfoldable pub load_each : ℕ → Bool → List StoredMessage → List (OutboundMessage F)
  load_each ref propagation_on [] = []
  load_each ref propagation_on (s ∷ ss) =
      let rest = load_each (suc ref) propagation_on ss in
      if nat_beq (length s.recipient) identity_hash_len
      then loaded ref propagation_on s ∷ rest
      else rest

  -- The result is whether there was no error; `readable` is whether the file can be read and parsed.
  unfoldable pub load : OutboundQueue F → Bool → OutboundQueue F × Bool
  unfolding load_each
  load q readable = elim q.store [
    | none ↦ (q, true)
    | some ss ↦
        if readable
        then (
          record q {
            pending = load_each q.next_ref (q.propagation_fallback || q.propagation_always) ss;
            next_ref = q.next_ref + length ss;
          },
          true,
        )
        else (q, false)
  ]

  abbrev pub with_entry : OutboundQueue F → OutboundMessage F → OutboundQueue F
  with_entry q m = record q { pending = q.pending ++ (m ∷ []); next_ref = suc q.next_ref }

  -- The result has the id of the new entry, empty where the queue is full.
  unfoldable pub enqueue :
      OutboundQueue F
      → Bytes
      → Bytes
      → Bytes
      → Option F
      → Option ℕ
      → Bool
      → ℕ
      → OutboundQueue F × Bytes
  unfolding mark_dirty
  enqueue q id recipient body fields bubble after_earlier now =
      if leb max_pending_messages (length q.pending)
      then (record q { dropped = suc q.dropped }, [])
      else (
        mark_dirty (
            with_entry q (record {
              ref = q.next_ref;
              id = id;
              recipient = recipient;
              body = body;
              fields = fields;
              bubble = bubble;
              attempts = 0;
              next_attempt = 0;
              enqueued_at = now;
              propagated = q.propagation_always;
              after_earlier = after_earlier;
            })),
        id,
      )

  unfoldable pub enqueue_bubble :
      OutboundQueue F → Bytes → Bytes → Bytes → Option F → Option ℕ → ℕ → OutboundQueue F × Bytes
  unfolding enqueue
  enqueue_bubble q id recipient body fields bubble now =
      enqueue q id recipient body fields bubble false now

  unfoldable pub enqueue_with_fields :
      OutboundQueue F → Bytes → Bytes → Bytes → Option F → ℕ → OutboundQueue F × Bytes
  unfolding enqueue_bubble
  enqueue_with_fields q id recipient body fields now =
      enqueue_bubble q id recipient body fields none now

  unfoldable pub enqueue_plain :
      OutboundQueue F → Bytes → Bytes → Bytes → ℕ → OutboundQueue F × Bytes
  unfolding enqueue_with_fields
  enqueue_plain q id recipient body now = enqueue_with_fields q id recipient body none now

  unfoldable pub enqueue_after_earlier :
      OutboundQueue F → Bytes → Bytes → Bytes → ℕ → OutboundQueue F × Bytes
  unfolding enqueue
  enqueue_after_earlier q id recipient body now = enqueue q id recipient body none none true now

  -- `Flush` up to its write: the entries to write, if any state is unwritten.
  unfoldable pub begin_flush : OutboundQueue F → OutboundQueue F × Option (List StoredMessage)
  begin_flush q =
      if is_some q.store && q.dirty
      then (record q { dirty = false }, some (map stored q.pending))
      else (q, none)

  -- The write, which replaces the file or leaves it as it is.
  unfoldable pub finish_flush : OutboundQueue F → List StoredMessage → Bool → OutboundQueue F
  finish_flush q snapshot true = record q { store = overwritten q.store snapshot }
  finish_flush q snapshot false = record q { dirty = true }
