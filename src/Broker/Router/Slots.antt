-- ===== src/Broker/Router/Slots.antt =====
-- internal/broker/router.go: Subscribe, Unsubscribe, Close, the lookups by stream, the acknowledged
-- offsets, and what a subscriber's writer takes and drains.
use aqueduct.Base.{
  set, zero, [], ltb, some, false, none, not, true, ◌&&◌, ◌++◌, ◌+◌, ◌==◌, ◌||◌, Option, get_elem?,
  if◌then◌else◌, length, suc, ◌∷◌, ℕ, List,
}
use aqueduct.Base.Bytes.{bytes_equal, Bytes}
use aqueduct.Broker.Refs.{update}
use aqueduct.Broker.Router.{counter_of, Group, Slot, Router, deactivate, rebuild_group_members}
use aqueduct.Broker.Wildcard.{is_wildcard_topic}
use aqueduct.Broker.Topic.{SubscriptionSpec, topic_hash_key}
use aqueduct.Authz.{combine_hash_strings}
use aqueduct.Broker.Queue.{drain_subscriber_queues, fetch_next_message}

-- The writer's own reference to a fetched message is `extra` to the queues until it is released.
unfoldable pub writer_fetch : Router → ℕ → Router × Option (ℕ × ℕ)
unfolding fetch_next_message
writer_fetch r idx = elim (get_elem? r.slots idx) [
  | none ↦ (r, none)
  | some s ↦
      (let (qs, got) = fetch_next_message s.queues in
        (record r { slots = set r.slots idx (record s { queues = qs }) }, got))
]

-- The cancelled writer's last step.
unfoldable pub writer_exit : Router → ℕ → Router
unfolding drain_subscriber_queues
writer_exit r idx = elim (get_elem? r.slots idx) [
  | none ↦ r
  | some s ↦
      (let (qs, refs) = drain_subscriber_queues s.queues r.refs in
        record r { slots = set r.slots idx (record s { queues = qs }); refs = refs })
]

-- The first group with the name is rebuilt; a missing one is added behind the others.
unfoldable pub join_group : List Slot → Bytes → Bytes → List Group → List Group
unfolding rebuild_group_members
join_group slots id topic [] =
    rebuild_group_members slots (record { id = id; topic = topic; counter = 0; members = [] }) ∷ []
join_group slots id topic (g ∷ gs) =
    let rest = join_group slots id topic gs in
    if bytes_equal g.id id then rebuild_group_members slots g ∷ gs else g ∷ rest

-- The offset a group starts from, kept where the subscriber names one.
abbrev pub group_offset : Router → SubscriptionSpec → ℕ → ℕ
group_offset r spec =
    if (spec.is_durable || ltb 0 spec.requested_offset) && ltb 0 spec.requested_offset
    then update r.durable_offsets (combine_hash_strings spec.group_id spec.topic)
        spec.requested_offset
    else r.durable_offsets

-- The tables but the slots: the topic's index or its group.
abbrev pub register : Router → List Slot → ℕ → SubscriptionSpec → ℕ → Router
register r slots idx spec key =
    if length spec.group_id == 0
    then record r {
      slots = slots;
      topic_index = update r.topic_index key (r.topic_index key ++ idx ∷ []);
    }
    else record r {
      slots = slots;
      groups = update r.groups key (join_group slots spec.group_id spec.topic (r.groups key));
      durable_offsets = group_offset r spec;
    }

abbrev pub register_wildcard : Router → ℕ → Bytes → Router
register_wildcard r idx topic =
    if is_wildcard_topic topic
    then record r { wildcard_subs = r.wildcard_subs ++ (topic, idx) ∷ [] }
    else r

abbrev pub register_durable : Router → SubscriptionSpec → Router
register_durable r spec =
    if spec.is_durable && length spec.group_id == 0
    then record r {
      durable_offsets =
          update r.durable_offsets (combine_hash_strings spec.consumer_id spec.topic)
            spec.requested_offset;
    }
    else r

abbrev pub new_slot : ℕ → SubscriptionSpec → Slot
new_slot stream spec = record {
  stream_id = stream;
  topic = spec.topic;
  active = true;
  group = spec.group_id;
  queues = λ p. none;
  notified = false;
  nacks = [];
}

-- `Subscribe` up to the release of the lock; the writer and the backfill worker start after it.
unfoldable pub subscribe : Router → ℕ → SubscriptionSpec → Router
unfolding topic_hash_key is_wildcard_topic combine_hash_strings
subscribe r stream spec =
    let idx = length r.slots in
    let r1 =
      register r (r.slots ++ new_slot stream spec ∷ []) idx spec (topic_hash_key spec.topic) in
    register_durable (register_wildcard r1 idx spec.topic) spec

-- The loop of `Unsubscribe`, from slot i on.
unfoldable pub unsubscribe_from : ℕ → ℕ → Router → ℕ → Router
unfolding deactivate
unsubscribe_from zero i r stream = r
unsubscribe_from (suc n) i r stream = elim (get_elem? r.slots i) [
  | none ↦ r
  | some s ↦
      unsubscribe_from n (i + 1) (if s.stream_id == stream && s.active then deactivate r i s else r)
        stream
]

unfoldable pub unsubscribe : Router → ℕ → Router
unfolding unsubscribe_from
unsubscribe r stream = unsubscribe_from (length r.slots) 0 r stream

abbrev pub deactivated : List Slot → List Slot
deactivated [] = []
deactivated (s ∷ ss) = record s { active = false } ∷ deactivated ss

-- `Close` without the wait for the writers; no group is rebuilt.
unfoldable pub close : Router → Router
close r = record r { slots = deactivated r.slots }

unfoldable pub count_active : List Slot → ℕ
count_active [] = 0
count_active (s ∷ ss) = (if s.active then 1 else 0) + count_active ss

unfoldable pub topic_of_stream : List Slot → ℕ → Option Bytes
topic_of_stream [] stream = none
topic_of_stream (s ∷ ss) stream =
    if s.stream_id == stream && s.active then some s.topic else topic_of_stream ss stream

-- The channel of a slot's NACKs is full at this length.
abbrev pub nack_channel_size : ℕ
nack_channel_size = 8

-- A non-blocking send to the first active slot of the stream; a full channel drops the offset.
unfoldable pub nack_slots : List Slot → ℕ → ℕ → List Slot
nack_slots [] stream offset = []
nack_slots (s ∷ ss) stream offset =
    let rest = nack_slots ss stream offset in
    if s.stream_id == stream && s.active
    then (if ltb (length s.nacks) nack_channel_size
        then record s { nacks = s.nacks ++ offset ∷ [] } ∷ ss
        else s ∷ ss)
    else s ∷ rest

unfoldable pub nack_by_stream : Router → ℕ → ℕ → Router
unfolding nack_slots
nack_by_stream r stream offset = record r { slots = nack_slots r.slots stream offset }

-- The group offsets that an acknowledgement moves, slot by slot.
unfoldable pub ack_groups : List Slot → Bytes → Bytes → ℕ → (ℕ → ℕ) → ℕ → ℕ
unfolding combine_hash_strings
ack_groups [] consumer topic offset table = table
ack_groups (s ∷ ss) consumer topic offset table = ack_groups ss consumer topic offset (
    if (not (length s.group == 0) && bytes_equal s.topic topic)
      && (bytes_equal s.group consumer || (s.active && bytes_equal s.group consumer))
    then update table (combine_hash_strings s.group topic) offset
    else table)

unfoldable pub ack_offset : Router → Bytes → Bytes → ℕ → Router
unfolding combine_hash_strings ack_groups
ack_offset r consumer topic offset = record r {
  durable_offsets =
      ack_groups r.slots consumer topic offset
        (update r.durable_offsets (combine_hash_strings consumer topic) offset);
}

unfoldable pub get_topic_offset : Router → Bytes → ℕ
get_topic_offset r topic = counter_of (r.topic_offsets (topic_hash_key topic))

unfoldable pub get_consumer_offset : Router → Bytes → Bytes → ℕ
get_consumer_offset r consumer topic = r.durable_offsets (combine_hash_strings consumer topic)
