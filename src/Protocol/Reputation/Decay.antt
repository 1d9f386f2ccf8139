-- ===== src/Protocol/Reputation/Decay.antt =====
-- The decay of reputations.
use p2p_net.Prelude.{
  nat_eq, ◌==◌, ℕ, ◌-◌, ◌≤◌, ◌≡◌, refl, ◌⊎◌, ◌&&◌, ◌||◌, some, List, [], ◌∷◌, arith, ltb, leb,
  if◌then◌else◌, Bool-cases, Option-cases, inl, inr,
}
use p2p_net.Prelude.Assoc.{lookup, keys, length-remove_le, length-insert_known}
use p2p_net.Prelude.Int.{
  ℤ, pos, int_eq, negsuc, ◌+ℤ◌, ◌-ℤ◌, ◌≤ℤ◌, i32_min, i32_max, saturating_add_i32,
  saturating_sub_i32,
}
use p2p_net.Protocol.Reputation.{
  ReputationStore, remove_peer, decayed_score, interval, neutral_retention, decay_peer, decay_all,
  tick_decay,
}
use p2p_net.Protocol.Reputation.Index.{IsIndexed, remove-Indexed, put-Indexed}

decayed_score-pos : (n m : ℕ) → m ≤ 2147483647 → decayed_score (pos n) (pos m) ≡ pos (m - n)
unfolding decayed_score saturating_sub_i32 ◌-ℤ◌
decayed_score-pos n m small = ground arith

decayed_score-negsuc :
    (n m : ℕ)
    → m ≤ 2147483647
    → decayed_score (pos n) (negsuc m) ≡ (if leb n m then negsuc (m - n) else pos 0)
unfolding decayed_score saturating_add_i32 ◌+ℤ◌
decayed_score-negsuc n m small = ground arith

-- A decay by the whole step, up or down, or to 0 from within the step.
abbrev pub IsStep : ℤ → ℤ → ℤ → Type 0
IsStep step score after =
    (after ≡ score -ℤ step)
    ⊎ (after ≡ score +ℤ step)
    ⊎ ((after ≡ pos 0) × (score ≤ℤ step) × (pos 0 ≤ℤ score +ℤ step))

pos-IsStep : (n m : ℕ) → IsStep (pos n) (pos m) (pos (m - n))
unfolding ◌-ℤ◌ ◌+ℤ◌
pos-IsStep n m = elim (Bool-cases (leb n m)) [
  | inl e ↦ inl (ground arith)
  | inr e ↦ inr (inr (ground arith, ground arith, ground arith))
]

negsuc-IsStep : (n m : ℕ) → IsStep (pos n) (negsuc m) (if leb n m then negsuc (m - n) else pos 0)
unfolding ◌-ℤ◌ ◌+ℤ◌
negsuc-IsStep n m = elim (Bool-cases (leb n m)) [
  | inl e ↦ inr (inl (ground arith))
  | inr e ↦ inr (inr (ground arith, ground arith, ground arith))
]

-- The decay of a score that fits 32 bits, by a positive step: it goes towards 0 and does not go
-- past 0; a score other than 0 changes; and it goes by the whole step, or it arrives at 0 from a
-- score that is no further from 0 than the step.
pub decayed_score-toward_zero :
    (step score : ℤ)
    → pos 1 ≤ℤ step
    → i32_min ≤ℤ score
    → score ≤ℤ i32_max
    → (pos 0 ≤ℤ score → (pos 0 ≤ℤ decayed_score step score) × (decayed_score step score ≤ℤ score))
      × (score ≤ℤ pos 0 → (decayed_score step score ≤ℤ pos 0) × (score ≤ℤ decayed_score step score))
      × (decayed_score step score ≡ score → score ≡ pos 0)
      × IsStep step score (decayed_score step score)
decayed_score-toward_zero (pos n) (pos m) positive low high =
    let e = decayed_score-pos n m (omega arith) in
    (
      rw e (λ h. (omega arith, omega arith)),
      rw e (λ h. (omega arith, omega arith)),
      rw e (λ h. ground arith),
      rw e (pos-IsStep n m),
    )
decayed_score-toward_zero (pos n) (negsuc m) positive low high =
    let e = decayed_score-negsuc n m (omega arith) in
    (
      rw e (λ h. ground arith),
      rw e (λ h. ground arith),
      rw e (λ h. ground arith),
      rw e (negsuc-IsStep n m),
    )
decayed_score-toward_zero (negsuc n) score positive low high = absurd (omega arith)

remove_peer-IsIndexed :
    (s : ReputationStore) (peer : ℕ) → IsIndexed s → IsIndexed (remove_peer s peer)
unfolding remove_peer
remove_peer-IsIndexed s peer v = elim (Option-cases (lookup peer s.by_peer)) [
  | inl e ↦ rw (e, remove_peer) v
  | inr (entry, e) ↦
      rw (e, remove_peer)
        (record {
          index = remove-Indexed s.by_peer s.age_order peer entry v.index e;
          bounded = omega (arith, v.bounded, length-remove_le peer s.by_peer);
          positive = v.positive;
        })
]

decay_peer-IsIndexed :
    (now : ℕ) (s : ReputationStore) (peer : ℕ) → IsIndexed s → IsIndexed (decay_peer now s peer)
unfolding decay_peer
decay_peer-IsIndexed now s peer v = elim (Option-cases (lookup peer s.by_peer)) [
  | inl e ↦ rw (e, decay_peer) v
  | inr (entry, e) ↦
      elim (Bool-cases
        (entry.score == pos 0 && leb (neutral_retention s.cfg) (now - entry.last_updated))) [
          | inl gone ↦ rw (e, gone, decay_peer) (remove_peer-IsIndexed s peer v)
          | inr kept ↦
              elim (Bool-cases
                (entry.score == pos 0 || ltb (now - entry.last_updated) (interval s.cfg))) [
                  | inl still ↦ rw (e, kept, still, decay_peer) v
                  | inr due ↦
                      rw (e, kept, due, decay_peer)
                        (record {
                          index =
                              put-Indexed s.by_peer s.age_order _ peer now _ (some entry) v.index
                                refl e refl;
                          bounded =
                              omega
                                (arith, v.bounded, length-insert_known peer _ entry s.by_peer e);
                          positive = v.positive;
                        })
                ]
        ]
]

decay_all-IsIndexed :
    (now : ℕ) (peers : List ℕ) (s : ReputationStore)
    → IsIndexed s
    → IsIndexed (decay_all now s peers)
unfolding decay_all
decay_all-IsIndexed now [] s v = v
decay_all-IsIndexed now (peer ∷ peers) s v =
    decay_all-IsIndexed now peers (decay_peer now s peer) (decay_peer-IsIndexed now s peer v)

-- The periodic decay keeps the age index exact and the table within its bound.
pub tick_decay-IsIndexed :
    (s : ReputationStore) (now : ℕ) → IsIndexed s → IsIndexed (tick_decay s now)
unfolding tick_decay
tick_decay-IsIndexed s now v = decay_all-IsIndexed now (keys s.by_peer) s v
