-- ===== src/Connectivity/PeerBook/Recorded.antt =====
-- crates/connectivity/peer_book.rs: what the book has of a peer after `record_connected`.
use p2p_net.Prelude.{
  ℕ, ◌≤◌, ◌≡◌, refl, sym, ap, ◌∙◌, ◌⊎◌, inl, inr, true, false, ◌&&◌, ◌||◌, Option, none, some, List,
  [], ◌∷◌, arith, ltb, ltb→lt, Bool-cases, length, ◌==◌, nat_eq, list_eq, option_eq,
}
use p2p_net.Prelude.Assoc.{lookup, mem}
use p2p_net.Prelude.OrderedSet.{include, mem-include, length-include_le, text_ord}
use p2p_net.Common.Text.{Text}
use p2p_net.Common.Multiaddr.{Multiaddr}
use p2p_net.Api.Source.{PeerSource, connected, source_eq, source_ord}
use p2p_net.Connectivity.PeerBook.{
  PeerRecord, PeerBook, max_addrs_per_peer, drop_first, mark_seen, record_or_new,
}
use p2p_net.Connectivity.PeerBook.Bound.{IsIndexed, lookup-put_record}
use p2p_net.Connectivity.PeerBook.Connected.{put_record-lookup}
use p2p_net.Connectivity.PeerBook.Ops.{connecting, record_connected}

length-drop_first : (n : ℕ) (xs : List Text) → length (drop_first n xs) ≤ n
unfolding drop_first
length-drop_first n [] = omega arith
length-drop_first n (x ∷ xs) = ground (arith, length-drop_first n xs)

drop_first_within : (n : ℕ) (xs : List Text) → length xs ≤ n → drop_first n xs ≡ xs
unfolding drop_first
drop_first_within n [] le = refl
drop_first_within n (x ∷ xs) le = ground arith

mem-drop_first :
    (n : ℕ) (q : Text) (xs : List Text)
    → mem q (drop_first n xs) ≡ mem q (drop_first n xs) && mem q xs
unfolding drop_first mem
mem-drop_first n q [] = refl
mem-drop_first n q (x ∷ xs) = ground (arith, mem-drop_first n q xs)

-- The addresses of a record after an address is recorded or none is: without one they stay; with
-- one they are at most 64, come from the old ones and the new one, and are all of these unless
-- there were 64 before.
abbrev pub HasAddress : Option Text → List Text → List Text → Type 0
HasAddress none before after = after ≡ before
HasAddress (some x) before after =
    (length after ≤ max_addrs_per_peer)
    × ((q : Text) → mem q after ≡ mem q after && (q == x || mem q before))
    × ((max_addrs_per_peer ≤ length before) ⊎ ((q : Text) → mem q after ≡ q == x || mem q before))

drop_first-HasAddress :
    (x : Text) (before : List Text)
    → HasAddress (some x) before (drop_first max_addrs_per_peer (include x before))
drop_first-HasAddress x before = (
  length-drop_first max_addrs_per_peer (include x before),
  λ q.
      mem-drop_first max_addrs_per_peer q (include x before)
      ∙ ap (λ c. mem q (drop_first max_addrs_per_peer (include x before)) && c)
          (mem-include x q before),
  room (Bool-cases (ltb (length before) max_addrs_per_peer)),
)
  where
    room :
        (ltb (length before) max_addrs_per_peer ≡ true)
          ⊎ (ltb (length before) max_addrs_per_peer ≡ false)
        → (max_addrs_per_peer ≤ length before)
          ⊎ ((q : Text)
              → mem q (drop_first max_addrs_per_peer (include x before)) ≡ q == x || mem q before)
    room (inl e) = inr (λ q.
        ap (mem q) (
          drop_first_within max_addrs_per_peer (include x before) (
            omega (arith, length-include_le x before, ltb→lt (length before) max_addrs_per_peer e)))
        ∙ mem-include x q before)
    room (inr e) = inl (ground arith)

-- A record after its peer is connected: connected, seen now, with `connected` among its sources
-- and the address, if there is one, among its addresses; all else is as before.
pub record Connects (now : ℕ) (x : Option Text) (before after : PeerRecord) : Type 0 where
  pub peer_id : after.peer_id ≡ before.peer_id
  pub is_connected : after.is_connected ≡ true
  pub seen : after.last_seen_unix_secs ≡ some now
  pub sources : (q : PeerSource) → mem q after.sources ≡ q == connected || mem q before.sources
  pub addresses : HasAddress x before.addresses after.addresses
  pub namespaces : after.namespaces ≡ before.namespaces
  pub relay : after.supports_relay ≡ before.supports_relay
  pub rendezvous : after.supports_rendezvous ≡ before.supports_rendezvous
  pub dcutr : after.supports_dcutr ≡ before.supports_dcutr
  pub relay_preferred : after.relay_preferred ≡ before.relay_preferred
  pub failures : after.failures ≡ before.failures

module _ (print : Multiaddr → Text) where
  connecting-connected :
      (a : Option Multiaddr) (r : PeerRecord) → (connecting print a r).is_connected ≡ true
  connecting-connected none r = refl
  connecting-connected (some addr) r = refl

  abbrev pub printed : Option Multiaddr → Option Text
  printed none = none
  printed (some a) = some (print a)

  connecting-Connects :
      (now : ℕ) (a : Option Multiaddr) (r : PeerRecord)
      → Connects now (printed a) r (mark_seen now (connecting print a r))
  connecting-Connects now none r = record {
    peer_id = refl;
    is_connected = refl;
    seen = refl;
    sources = λ q. mem-include connected q r.sources;
    addresses = refl;
    namespaces = refl;
    relay = refl;
    rendezvous = refl;
    dcutr = refl;
    relay_preferred = refl;
    failures = refl;
  }
  connecting-Connects now (some a) r = record {
    peer_id = refl;
    is_connected = refl;
    seen = refl;
    sources = λ q. mem-include connected q r.sources;
    addresses = drop_first-HasAddress (print a) r.addresses;
    namespaces = refl;
    relay = refl;
    rendezvous = refl;
    dcutr = refl;
    relay_preferred = refl;
    failures = refl;
  }

  -- In a book with exact indexes and within its bound, after a connection is recorded the peer has
  -- a record, also where the book was full. Against the former one, or the blank one of a new peer, it is connected and was seen now, and its sources are the
  -- former ones and `connected`. Without an address its addresses are the former ones. With one
  -- they are at most 64, each is the new one or a former one, and they are all of these if fewer
  -- than 64 were there. All other fields are as they were.
  pub record_connected-lookup :
      (now : ℕ) (b : PeerBook) (p : ℕ) (a : Option Multiaddr)
      → IsIndexed b
      → (r : PeerRecord) × (lookup p (record_connected print now b p a).peers ≡ some r)
        × Connects now (printed a) (record_or_new p (lookup p b.peers)) r
  unfolding record_connected
  record_connected-lookup now b p a v =
      let old = record_or_new p (lookup p b.peers) in
      (
        mark_seen now (connecting print a old),
        put_record-lookup now b p (connecting print a) p _ v (sym (lookup-put_record b p _))
            (connecting-connected a old),
        connecting-Connects now a old,
      )
