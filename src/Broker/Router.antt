-- ===== src/Broker/Router.antt =====
-- internal/broker/router.go: the router's tables, publishing, and the life of a subscription. The
-- parallel arrays are one list of slots. A call runs to its end before the next one starts; what
-- a writer takes and drains is in Broker/Router/Slots.
pub mod Publish
pub mod Batches
pub mod Slots
pub mod Backfill
pub mod Leak
pub mod Balance
pub mod Accounts
pub mod Calls
pub mod Steps
pub mod Groups
pub mod Offsets
use aqueduct.Broker.Refs.{update, Refs, retain, empty_refs}
use aqueduct.Base.{
  true, ◌-◌, not, ◌==◌, ◌^◌, false, length, none, ◌%◌, ◌&&◌, ◌++◌, Bool, [], get_elem?,
  if◌then◌else◌, set, some, ◌+◌, ◌∷◌, List, Option, ℕ,
}
use aqueduct.Broker.Queue.{Policy, Queues, enqueue}
use aqueduct.Quotas.{Manager}
use aqueduct.Broker.Topic.{topic_hash_key}
use aqueduct.Base.Bytes.{Bytes, bytes_equal}
use aqueduct.Broker.Wildcard.{match_wildcard}

-- `nacks` is what waits in the slot's NACK channel; its QUIC stream is left out.
pub record Slot : Type 0 where
  pub stream_id : ℕ
  pub topic : Bytes
  pub active : Bool
  pub group : Bytes
  pub queues : Queues
  pub notified : Bool
  pub nacks : List ℕ

pub record Group : Type 0 where
  pub id : Bytes
  pub topic : Bytes
  pub counter : ℕ
  pub members : List ℕ

pub record Message : Type 0 where
  pub reference : ℕ
  pub buf : Bytes
  pub offset : ℕ
  pub expires_at : ℕ

-- The tables are keyed by hashes; a missing key is the empty list, `none` or 0. `messages` lists
-- what was put into references, and `forwarded` what went to the peers, latest first.
pub record Router : Type 0 where
  pub slots : List Slot
  pub topic_index : ℕ → List ℕ
  pub groups : ℕ → List Group
  pub wildcard_subs : List (Bytes × ℕ)
  pub topic_offsets : ℕ → Option ℕ
  pub durable_offsets : ℕ → ℕ
  pub refs : Refs
  pub messages : List Message
  pub forwarded : List Bytes
  pub quota_manager : Option Manager
  pub queue_size : ℕ
  pub policy : Policy

unfoldable pub new_router : Option Manager → ℕ → Policy → Router
unfolding empty_refs
new_router quota size policy = record {
  slots = [];
  topic_index = λ k. [];
  groups = λ k. [];
  wildcard_subs = [];
  topic_offsets = λ k. none;
  durable_offsets = λ k. 0;
  refs = empty_refs;
  messages = [];
  forwarded = [];
  quota_manager = quota;
  queue_size = size;
  policy = policy;
}

abbrev pub counter_of : Option ℕ → ℕ
counter_of none = 0
counter_of (some c) = c

unfoldable pub next_topic_offset : Router → ℕ → Router × ℕ
next_topic_offset r key =
    let next = (counter_of (r.topic_offsets key) + 1) % 2 ^ 64 in
    (record r { topic_offsets = update r.topic_offsets key (some next) }, next)

abbrev pub to_list : Option ℕ → List ℕ
to_list none = []
to_list (some i) = i ∷ []

-- `msgRef.Retain()` and `enqueueToSubscriber`, for an active slot.
unfoldable pub deliver : Router → ℕ → ℕ → ℕ → Router × List ℕ
unfolding enqueue retain
deliver r m p idx = elim (get_elem? r.slots idx) [
  | none ↦ (r, [])
  | some s ↦
      if not s.active
      then (r, [])
      else (let (qs, refs, dc) = enqueue r.policy r.queue_size idx s.queues p m (retain r.refs m) in
          (
            record r {
              slots = set r.slots idx (record s { queues = qs; notified = true });
              refs = refs;
            },
            to_list dc,
          ))
]

-- The subscribers of the topic itself.
unfoldable pub dispatch_exact : Router → ℕ → ℕ → List ℕ → Router × List ℕ
unfolding deliver
dispatch_exact r m p [] = (r, [])
dispatch_exact r m p (i ∷ is) =
    let (r', dc) = deliver r m p i in
    let (last, dcs) = dispatch_exact r' m p is in (last, dc ++ dcs)

unfoldable pub dispatch_wildcards : Router → ℕ → ℕ → Bytes → List (Bytes × ℕ) → Router × List ℕ
unfolding deliver match_wildcard
dispatch_wildcards r m p topic [] = (r, [])
dispatch_wildcards r m p topic ((pattern, i) ∷ subs) =
    let (r', dc) = if match_wildcard pattern topic then deliver r m p i else (r, []) in
    let (last, dcs) = dispatch_wildcards r' m p topic subs in (last, dc ++ dcs)

-- The member whose turn it is: the counter goes up, and `members[(val-1)%n]`.
unfoldable pub choose : Group → Group × Option ℕ
choose g =
    if length g.members == 0
    then (g, none)
    else (let val = (g.counter + 1) % 2 ^ 64 in
        (
          record g { counter = val },
          get_elem? g.members (((val + 2 ^ 64 - 1) % 2 ^ 64) % length g.members),
        ))

unfoldable pub dispatch_groups : Router → ℕ → ℕ → List Group → Router × List Group × List ℕ
unfolding choose dispatch_exact
dispatch_groups r m p [] = (r, [], [])
dispatch_groups r m p (g ∷ gs) =
    let (g', chosen) = choose g in
    let (r', dc) = dispatch_exact r m p (to_list chosen) in
    let (last, gs', dcs) = dispatch_groups r' m p gs in (last, g' ∷ gs', dc ++ dcs)

-- The slots that a group serves, in their order from slot i.
unfoldable pub members_from : ℕ → List Slot → Group → List ℕ
unfolding bytes_equal
members_from i [] g = []
members_from i (s ∷ ss) g =
    let rest = members_from (i + 1) ss g in
    if bytes_equal s.group g.id && (s.active && bytes_equal s.topic g.topic) then i ∷ rest else rest

unfoldable pub rebuild_group_members : List Slot → Group → Group
unfolding members_from
rebuild_group_members slots g = record g { members = members_from 0 slots g }

-- The groups of one key, those with the given name rebuilt.
abbrev pub rebuild_named : List Slot → Bytes → List Group → List Group
rebuild_named slots id [] = []
rebuild_named slots id (g ∷ gs) =
    (if bytes_equal g.id id then rebuild_group_members slots g else g) ∷ rebuild_named slots id gs

-- The inner part of `disconnectSubscriber` and of `Unsubscribe`. The cancelled writer drains the
-- slot's queues when it ends: `writer_exit`.
unfoldable pub deactivate : Router → ℕ → Slot → Router
unfolding rebuild_group_members topic_hash_key
deactivate r i s =
    let slots = set r.slots i (record s { active = false }) in
    let key = topic_hash_key s.topic in
    if length s.group == 0 then record r { slots = slots } else record r {
      slots = slots;
      groups = update r.groups key (rebuild_named slots s.group (r.groups key));
    }

unfoldable pub disconnect_subscriber : Router → ℕ → Router
unfolding deactivate
disconnect_subscriber r idx = elim (get_elem? r.slots idx) [
  | none ↦ r
  | some s ↦ if s.active then deactivate r idx s else r
]

unfoldable pub disconnect_all : Router → List ℕ → Router
unfolding disconnect_subscriber
disconnect_all r [] = r
disconnect_all r (i ∷ is) = disconnect_all (disconnect_subscriber r i) is
