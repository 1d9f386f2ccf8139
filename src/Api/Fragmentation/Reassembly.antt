-- ===== src/Api/Fragmentation/Reassembly.antt =====
-- A fragmented message comes out whole, in whatever order its fragments come in.
use p2p_net.Prelude.{
  nat_eq, ℕ, zero, suc, subst, ◌-◌, ◌≤◌, ◌<◌, ◌≡◌, refl, sym, ap, ◌∙◌, Bool, true, false, ◌||◌,
  Option, none, some, List, [], ◌∷◌, nat_beq, arith, Bool-cases, inl, inr, length, get_elem?, All,
}
use mathlib.Core.Option.{get_or}
use mathlib.Core.Path.{fun_ext}
use p2p_net.Prelude.Assoc.{lookup, mem, keys, lookup_absent}
use p2p_net.Common.Error.{Result, ok}
use p2p_net.Api.Message.{AppMessage}
use p2p_net.Api.Fragmentation.{AppFragment, Externals, fragment_of, fragment_expiry}
use p2p_net.Api.Fragmentation.Reassembler.{
  key_eq, ReassemblyEntry, AppFragmentReassembler, drop_entry, expire, push,
}
use p2p_net.Api.Fragmentation.Memory.{total_bytes, author_bytes, IsAccounted}
use p2p_net.Api.Fragmentation.Ceilings.{filled}
use p2p_net.Api.Fragmentation.Expiry.{expire-absent}
use p2p_net.Api.Fragmentation.Mask.{with_index}
use p2p_net.Api.Fragmentation.Progress.{IsSplit, HasRoom, message_key}
use p2p_net.Api.Fragmentation.Delivery.{
  Holding, with_chunk, fresh, ready, found, store_duplicate, with_chunk-Holding, store_more,
  store_last, ready_first, ready_next, push-store,
}

-- The fragment with an index, of a message that is split into the chunks.
abbrev pub nth_fragment : Externals → AppMessage → List (List ℕ) → ℕ → AppFragment
nth_fragment x m cs i = fragment_of x m i (get_or (get_elem? cs i) [])

nth_chunk :
    (cs : List (List ℕ)) (i : ℕ)
    → i < length cs
    → get_elem? cs i ≡ some (get_or (get_elem? cs i) [])
nth_chunk [] i h = absurd (omega arith)
nth_chunk (c ∷ cs) zero h = refl
nth_chunk (c ∷ cs) (suc i) h = nth_chunk cs i (omega arith)

-- The indices that have come.
unfoldable pub arrived : List (ℕ × ℕ) → ℕ → Bool
arrived [] j = false
arrived ((i, now) ∷ arrivals) j = nat_beq i j || arrived arrivals j

with_index-seen : (i : ℕ) (seen : ℕ → Bool) → seen i ≡ true → with_index i seen ≡ seen
with_index-seen i seen old = fun_ext (λ j. ground arith)

-- `none` unless a call answered that the message is not complete yet.
abbrev pub pending :
    Option (AppFragmentReassembler × Result (Option AppMessage)) → Option AppFragmentReassembler
pending (some (s, ok none)) = some s
pending _ = none

-- Pushes in a row, of the fragments with the given indices at the given times, none of which may
-- complete the message or fail.
unfoldable pub push_all :
    Externals
    → AppMessage
    → List (List ℕ)
    → ℕ
    → AppFragmentReassembler
    → List (ℕ × ℕ)
    → Option AppFragmentReassembler
push_all x m cs author s [] = some s
push_all x m cs author s ((i, now) ∷ arrivals) =
    elim (pending (push x s author (nth_fragment x m cs i) now)) [
      | none ↦ none
      | some s' ↦ push_all x m cs author s' arrivals
    ]

push_all-next :
    (x : Externals) (m : AppMessage) (cs : List (List ℕ)) (author : ℕ)
    (s s1 : AppFragmentReassembler) (i now : ℕ) (arrivals : List (ℕ × ℕ))
    → push x s author (nth_fragment x m cs i) now ≡ some (s1, ok none)
    → push_all x m cs author s ((i, now) ∷ arrivals) ≡ push_all x m cs author s1 arrivals
unfolding push_all
push_all-next x m cs author s s1 i now arrivals e = rw (e, push_all)

arrived-next :
    (i now : ℕ) (seen : ℕ → Bool) (arrivals : List (ℕ × ℕ))
    → ◌≡◌ {A = ℕ → Bool}
        (λ j. with_index i seen j || arrived arrivals j)
        (λ j. seen j || arrived ((i, now) ∷ arrivals) j)
unfolding arrived
arrived-next i now seen arrivals = fun_ext (λ j. ground arith)

arrived-split :
    (i now : ℕ) (arrivals : List (ℕ × ℕ)) (j : ℕ)
    → arrived ((i, now) ∷ arrivals) j ≡ false
    → (nat_beq i j ≡ false) × (arrived arrivals j ≡ false)
unfolding arrived
arrived-split i now arrivals j h = ground arith

cover_later :
    (i now : ℕ) (arrivals : List (ℕ × ℕ)) (last j : ℕ)
    → (nat_beq last j || arrived ((i, now) ∷ arrivals) j) ≡ true
    → with_index last (λ k. with_index i (λ n. false) k || arrived arrivals k) j ≡ true
unfolding arrived
cover_later i now arrivals last j h = ground arith

or_false_right : (b : Bool) → b ≡ false → (b || false) ≡ false
or_false_right b h = ground arith

module _ (x : Externals) (m : AppMessage) (author : ℕ) (cs : List (List ℕ)) (of_peer of_all t0 : ℕ)
    (split : IsSplit x m author cs) (roomy : HasRoom m of_peer of_all) where
  abbrev Held : AppFragmentReassembler → (ℕ → Bool) → Type 0
  Held s seen =
      (entry : ReassemblyEntry) × Holding x m author cs of_peer of_all t0 split roomy s entry seen

  -- One push of a fragment while another one is missing.
  step :
      (s : AppFragmentReassembler) (entry : ReassemblyEntry) (seen : ℕ → Bool) (now i last : ℕ)
      → Holding x m author cs of_peer of_all t0 split roomy
          (ready x m author cs of_peer of_all t0 split roomy s now i (get_or (get_elem? cs i) []))
          entry
          seen
      → get_or
          (lookup (message_key author m) (expire s now).entries)
          (fresh x m author cs of_peer of_all t0 split roomy now i (get_or (get_elem? cs i) []))
        ≡ entry
      → i < length cs
      → last < length cs
      → with_index i seen last ≡ false
      → (s' : AppFragmentReassembler) × (push x s author (nth_fragment x m cs i) now
          ≡ some (s', ok none))
        × Held s' (with_index i seen)
  step s entry seen now i last p there lt lt' missing =
      let c = get_or (get_elem? cs i) [] in
      let r = ready x m author cs of_peer of_all t0 split roomy s now i c in
      let here = nth_chunk cs i lt in
      let stores =
        push-store x m author cs of_peer of_all t0 split roomy s entry seen now i c p there here in
      elim (Bool-cases (seen i)) [
        | inl old ↦ (
          r,
          stores
              ∙ store_duplicate x m author cs of_peer of_all t0 split roomy r entry seen i _ c p
                  here old,
          (
            entry,
            subst (λ f. Holding x m author cs of_peer of_all t0 split roomy r entry f)
                (sym (with_index-seen i seen old)) p,
          ),
        )
        | inr new ↦ (
          with_chunk x m author cs of_peer of_all t0 split roomy r entry i c,
          stores
              ∙ store_more x m author cs of_peer of_all t0 split roomy r entry seen i last c p here
                  new lt' missing,
          (
            filled entry (fragment_of x m i c),
            with_chunk-Holding x m author cs of_peer of_all t0 split roomy r entry seen i c p here
                new,
          ),
        )
      ]

  -- The pushes after the first one.
  push_all-Held :
      (arrivals : List (ℕ × ℕ)) (s : AppFragmentReassembler) (seen : ℕ → Bool) (last : ℕ)
      → Held s seen
      → All (λ a. (a.0 < length cs) × (a.1 - t0 < fragment_expiry)) arrivals
      → last < length cs
      → (seen last || arrived arrivals last) ≡ false
      → (s' : AppFragmentReassembler) × (push_all x m cs author s arrivals ≡ some s')
        × Held s' (λ j. seen j || arrived arrivals j)
  unfolding push_all arrived
  push_all-Held [] s seen last (entry, p) h lt missing = (
    s,
    refl,
    (
      entry,
      subst (λ f. Holding x m author cs of_peer of_all t0 split roomy s entry f)
          (fun_ext (λ j. ground arith)) p,
    ),
  )
  push_all-Held ((i, now) ∷ arrivals) s seen last (entry, p) h lt missing =
      let c = get_or (get_elem? cs i) [] in
      let q = ready_next x m author cs of_peer of_all t0 split roomy s entry seen now i c p h.0.1 in
      let there =
        ap (λ o. get_or o (fresh x m author cs of_peer of_all t0 split roomy now i c))
          (found x m author cs of_peer of_all t0 split roomy s entry seen now p h.0.1) in
      let (s1, pushed, held) = step s entry seen now i last q there h.0.0 lt (ground arith) in
      let (s', rest, held') =
        push_all-Held arrivals s1 (with_index i seen) last held h.1 lt (ground arith) in
      (
        s',
        push_all-next x m cs author s s1 i now arrivals pushed ∙ rest,
        (
          held'.0,
          subst (λ f. Holding x m author cs of_peer of_all t0 split roomy s' held'.0 f)
              (arrived-next i now seen arrivals) held'.1,
        ),
      )

  -- A message of which the last fragment comes after all others comes out whole. The other
  -- fragments may come in any order and more than once; until the last one every answer is that
  -- the message is not complete. The state counts its bytes right and may hold other messages, but none with the same author,
  -- nonce and topic, and leaves room for the payload and one more fragment; the arrivals are less
  -- than the expiry time after the first.
  pub push_all-reassembles :
      (s : AppFragmentReassembler) (first : ℕ) (rest : List (ℕ × ℕ)) (last now : ℕ)
      → IsAccounted s
      → mem (message_key author m) (keys s.entries) ≡ false
      → author_bytes author s.entries ≤ of_peer
      → total_bytes s.entries ≤ of_all
      → first < length cs
      → All (λ a. (a.0 < length cs) × (a.1 - t0 < fragment_expiry)) rest
      → last < length cs
      → now - t0 < fragment_expiry
      → arrived ((first, t0) ∷ rest) last ≡ false
      → ((j : ℕ) → j < length cs → (nat_beq last j || arrived ((first, t0) ∷ rest) j) ≡ true)
      → (s' : AppFragmentReassembler) × (s'' : AppFragmentReassembler) × (push_all x m cs author s
            ((first, t0) ∷ rest)
          ≡ some s')
        × (push x s' author (nth_fragment x m cs last) now ≡ some (s'', ok (some m)))
  push_all-reassembles s first rest last now v absent peer_le le lt h lt' young missing all_others =
      let c = get_or (get_elem? cs first) [] in
      let q =
        ready_first x m author cs of_peer of_all t0 split roomy s first c v absent peer_le le in
      let none_there =
        ap (λ o. get_or o (fresh x m author cs of_peer of_all t0 split roomy t0 first c))
          (lookup_absent (message_key author m) (expire s t0).entries
            (expire-absent s t0 (message_key author m) absent)) in
      let (m1, m2) = arrived-split first t0 rest last missing in
      let (s1, pushed, held) =
        step s (fresh x m author cs of_peer of_all t0 split roomy t0 first c) (λ j. false) t0 first
          last q none_there lt lt' (or_false_right _ m1) in
      let (s', rests, (entry, p)) =
        push_all-Held rest s1 (with_index first (λ j. false)) last held h lt'
          (ground (arith, m1, m2)) in
      let d = get_or (get_elem? cs last) [] in
      let q' =
        ready_next x m author cs of_peer of_all t0 split roomy s' entry _ now last d p young in
      let there =
        ap (λ o. get_or o (fresh x m author cs of_peer of_all t0 split roomy now last d))
          (found x m author cs of_peer of_all t0 split roomy s' entry _ now p young) in
      let here = nth_chunk cs last lt' in
      (
        s',
        drop_entry (message_key author m) (
            with_chunk x m author cs of_peer of_all t0 split roomy
              (ready x m author cs of_peer of_all t0 split roomy s' now last d) entry last d),
        push_all-next x m cs author s s1 first t0 rest pushed ∙ rests,
        push-store x m author cs of_peer of_all t0 split roomy s' entry _ now last d q' there here
            ∙ store_last x m author cs of_peer of_all t0 split roomy
                (ready x m author cs of_peer of_all t0 split roomy s' now last d) entry _ last d q'
                here (ground (arith, m1, m2))
                (λ j b. cover_later first t0 rest last j (all_others j b)),
      )
