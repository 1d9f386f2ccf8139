-- ===== src/Protocol/Reputation.antt =====
-- crates/protocol/reputation.rs: the bounded store of peer reputations. Each method that reads the
-- clock takes the time, in nanoseconds; `age_order` is the set of the pairs of a peer's last update
-- and the peer. Iterating over the keys of the `HashMap` follows the association list.
pub mod Index
pub mod Decay
use p2p_net.Prelude.{
  nat_eq, ◌==◌, ℕ, ◌+◌, ◌-◌, ◌*◌, ◌≡◌, Bool, true, false, ◌&&◌, ◌||◌, Option, none, some, List, [],
  ◌∷◌, max, length, ltb, leb, if◌then◌else◌, u64_max, saturating_add,
}
use p2p_net.Prelude.Assoc.{lookup, insert, remove, keys}
use p2p_net.Prelude.Int.{
  ℤ, pos, int_eq, min_ℤ, max_ℤ, ltb_ℤ, saturating_add_i32, saturating_sub_i32,
}
use p2p_net.Prelude.OrderedSet.{Pair, pair_eq, pair_ord, include, discard}
use p2p_net.Protocol.Config.{ReputationConfig}
use p2p_net.Protocol.ReplayCache.{ns_per_sec}

abbrev pub max_tracked_reputation_peers : ℕ
max_tracked_reputation_peers = 8192

abbrev pub neutral_retention_intervals : ℕ
neutral_retention_intervals = 10

pub record ReputationEntry : Type 0 where
  pub score : ℤ
  pub invalid : ℕ
  pub accepted : ℕ
  pub duplicate_ignored : ℕ
  pub last_updated : ℕ

-- `ReputationEntry { last_updated: now, ..default() }`.
abbrev pub new_entry : ℕ → ReputationEntry
new_entry now = record {
  score = pos 0;
  invalid = 0;
  accepted = 0;
  duplicate_ignored = 0;
  last_updated = now;
}

pub record ReputationStore : Type 0 where
  pub by_peer : List (ℕ × ReputationEntry)
  pub age_order : List Pair
  pub cfg : ReputationConfig
  pub max_peers : ℕ

unfoldable pub with_capacity : ReputationConfig → ℕ → ReputationStore
with_capacity cfg max_peers = record {
  by_peer = [];
  age_order = [];
  cfg = cfg;
  max_peers = max max_peers 1;
}

-- `new`.
abbrev pub new_store : ReputationConfig → ReputationStore
new_store cfg = with_capacity cfg max_tracked_reputation_peers

-- The loop of `enforce_capacity`: table and order, after it.
unfoldable pub evict_oldest :
    ℕ → List (ℕ × ReputationEntry) → List Pair → List (ℕ × ReputationEntry) × List Pair
evict_oldest max_peers by_peer [] = (by_peer, [])
evict_oldest max_peers by_peer ((updated, peer) ∷ order) =
    let rest = evict_oldest max_peers (remove peer by_peer) order in
    if ltb max_peers (length by_peer) then rest else (by_peer, (updated, peer) ∷ order)

unfoldable pub enforce_capacity : ReputationStore → ReputationStore
enforce_capacity s =
    let (by_peer, order) = evict_oldest s.max_peers s.by_peer s.age_order in
    record s { by_peer = by_peer; age_order = order }

unfoldable pub update_peer :
    ReputationStore → ℕ → ℕ → (ReputationEntry → ReputationEntry) → ReputationStore
update_peer s now peer update = enforce_capacity (elim (lookup peer s.by_peer) [
  | some entry ↦ record s {
    by_peer = insert peer (record (update entry) { last_updated = now }) s.by_peer;
    age_order = include (now, peer) (discard (entry.last_updated, peer) s.age_order);
  }
  | none ↦ record s {
    by_peer = insert peer (update (new_entry now)) s.by_peer;
    age_order = include (now, peer) s.age_order;
  }
])

abbrev pub accepting : ℤ → ReputationEntry → ReputationEntry
accepting reward entry = record entry {
  accepted = saturating_add entry.accepted 1;
  score = saturating_add_i32 entry.score reward;
}

abbrev pub penalizing : ℤ → ReputationEntry → ReputationEntry
penalizing penalty entry = record entry {
  invalid = saturating_add entry.invalid 1;
  score = saturating_sub_i32 entry.score penalty;
}

abbrev pub ignoring : ReputationEntry → ReputationEntry
ignoring entry = record entry { duplicate_ignored = saturating_add entry.duplicate_ignored 1 }

unfoldable pub accept : ReputationStore → ℕ → ℕ → ReputationStore
accept s now peer = update_peer s now peer (accepting s.cfg.accept_reward)

unfoldable pub penalize_invalid : ReputationStore → ℕ → ℕ → ReputationStore
penalize_invalid s now peer = update_peer s now peer (penalizing s.cfg.invalid_penalty)

unfoldable pub ignore_duplicate : ReputationStore → ℕ → ℕ → ReputationStore
ignore_duplicate s now peer = update_peer s now peer ignoring

unfoldable pub remove_peer : ReputationStore → ℕ → ReputationStore
remove_peer s peer = elim (lookup peer s.by_peer) [
  | none ↦ s
  | some entry ↦ record s {
    by_peer = remove peer s.by_peer;
    age_order = discard (entry.last_updated, peer) s.age_order;
  }
]

-- A score moves one step towards 0 and stops there.
unfoldable pub decayed_score : ℤ → ℤ → ℤ
decayed_score step score =
    if ltb_ℤ score (pos 0)
    then min_ℤ (saturating_add_i32 score step) (pos 0)
    else max_ℤ (saturating_sub_i32 score step) (pos 0)

-- `interval` and `neutral_retention`; the product that overflows is `Duration::MAX`.
abbrev pub interval : ReputationConfig → ℕ
interval cfg = max cfg.decay_interval_secs 1 * ns_per_sec

abbrev pub neutral_retention : ReputationConfig → ℕ
neutral_retention cfg =
    if ltb u64_max (max cfg.decay_interval_secs 1 * neutral_retention_intervals)
    then u64_max * ns_per_sec + 999_999_999
    else interval cfg * neutral_retention_intervals

-- One round of the loop of `tick_decay`.
unfoldable pub decay_peer : ℕ → ReputationStore → ℕ → ReputationStore
decay_peer now s peer = elim (lookup peer s.by_peer) [
  | none ↦ s
  | some entry ↦
      let age = now - entry.last_updated in
      let neutral = entry.score == pos 0 in
      if neutral && leb (neutral_retention s.cfg) age
      then remove_peer s peer
      else if neutral || ltb age (interval s.cfg)
      then s
      else let score = decayed_score (max_ℤ s.cfg.decay_step (pos 1)) entry.score in
        record s {
          by_peer = insert peer (record entry { score = score; last_updated = now }) s.by_peer;
          age_order = include (now, peer) (discard (entry.last_updated, peer) s.age_order);
        }
]

unfoldable pub decay_all : ℕ → ReputationStore → List ℕ → ReputationStore
decay_all now s [] = s
decay_all now s (peer ∷ peers) = decay_all now (decay_peer now s peer) peers

unfoldable pub tick_decay : ReputationStore → ℕ → ReputationStore
tick_decay s now = decay_all now s (keys s.by_peer)
