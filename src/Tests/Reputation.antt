-- ===== src/Tests/Reputation.antt =====
-- A reputation store with room for two peers.
use p2p_net.Prelude.{nat_eq, ◌≡◌, arith}
use p2p_net.Prelude.Int.{pos, negsuc, ◌≤ℤ◌}
use p2p_net.Protocol.Config.{default_config}
use p2p_net.Protocol.Reputation.{
  ReputationStore, with_capacity, accept, penalize_invalid, ignore_duplicate, decayed_score,
  tick_decay,
}
use p2p_net.Protocol.Reputation.Index.{IsIndexed, with_capacity-IsIndexed, report-IsIndexed}
use p2p_net.Protocol.Reputation.Decay.{IsStep, decayed_score-toward_zero, tick_decay-IsIndexed}

abbrev no_peers : ReputationStore
no_peers = with_capacity default_config.reputation 2

one_peer-IsIndexed : IsIndexed (penalize_invalid no_peers 5 42)
one_peer-IsIndexed = (report-IsIndexed no_peers 5 42 (with_capacity-IsIndexed _ 2)).1

report-IsIndexed_example :
    IsIndexed (accept (penalize_invalid no_peers 5 42) 6 43)
    × IsIndexed (penalize_invalid (penalize_invalid no_peers 5 42) 6 43)
    × IsIndexed (ignore_duplicate (penalize_invalid no_peers 5 42) 6 43)
report-IsIndexed_example = report-IsIndexed (penalize_invalid no_peers 5 42) 6 43 one_peer-IsIndexed

tick_decay-IsIndexed_example :
    IsIndexed (tick_decay (penalize_invalid no_peers 5 42) 100_000_000_000)
tick_decay-IsIndexed_example =
    tick_decay-IsIndexed (penalize_invalid no_peers 5 42) 100_000_000_000 one_peer-IsIndexed

decayed_score-toward_zero_example :
    (pos 0 ≤ℤ negsuc 4
      → (pos 0 ≤ℤ decayed_score (pos 2) (negsuc 4))
        × (decayed_score (pos 2) (negsuc 4) ≤ℤ negsuc 4))
    × (negsuc 4 ≤ℤ pos 0
        → (decayed_score (pos 2) (negsuc 4) ≤ℤ pos 0)
          × (negsuc 4 ≤ℤ decayed_score (pos 2) (negsuc 4)))
    × (decayed_score (pos 2) (negsuc 4) ≡ negsuc 4 → negsuc 4 ≡ pos 0)
    × IsStep (pos 2) (negsuc 4) (decayed_score (pos 2) (negsuc 4))
decayed_score-toward_zero_example =
    decayed_score-toward_zero (pos 2) (negsuc 4) (omega arith) (omega arith) (omega arith)
