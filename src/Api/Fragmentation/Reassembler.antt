-- ===== src/Api/Fragmentation/Reassembler.antt =====
-- `AppFragmentReassembler` of crates/api/fragmentation.rs. A call takes the time of the monotonic
-- clock and returns the state that it leaves, on errors too, with its result; `none` is the panic
-- of an index out of bounds, which `validate_fragment` rules out.
use p2p_net.Prelude.{
  Eq, ==_iff, ◌==◌, ℕ, ◌-◌, ◌≡◌, ◌↔◌, Bool, true, false, ◌&&◌, ◌||◌, not, Option, none, some, List,
  [], ◌∷◌, ◌++◌, ltb, leb, nat_beq, nat_eq, list_eq, option_eq, length, any, get_elem?, set,
  replicate, saturating_add, if◌then◌else◌, arith,
}
use mathlib.Core.Option.{get_or}
use p2p_net.Prelude.Assoc.{lookup, insert, remove}
use p2p_net.Common.Error.{app_message, Result, ok, err, ◌>>◌}
use p2p_net.Common.Text.{Text}
use p2p_net.Api.Message.{AppMessage, validate_app_message}
use p2p_net.Api.Fragmentation.{
  AppFragment, Externals, max_reassembly_bytes_per_peer, max_reassembly_bytes_global,
  fragment_expiry,
}

pub record ReassemblyKey : Type 0 where
  pub author : ℕ
  pub nonce_hex : Text
  pub topic : Text

abbrev pub key_beq : ReassemblyKey → ReassemblyKey → Bool
key_beq a b = nat_beq a.author b.author && a.nonce_hex == b.nonce_hex && a.topic == b.topic

pub key_beq_iff : (a b : ReassemblyKey) → (key_beq a b ≡ true) ↔ (a ≡ b)
key_beq_iff a b = ground (arith, ==_iff a.nonce_hex b.nonce_hex, ==_iff a.topic b.topic)

instance abbrev pub key_eq : Eq ReassemblyKey
key_eq = record { test = key_beq; test_iff = key_beq_iff }

pub record ReassemblyEntry : Type 0 where
  pub fragment : AppFragment
  pub chunks : List (Option (List ℕ))
  pub bytes : ℕ
  pub created : ℕ

pub record AppFragmentReassembler : Type 0 where
  pub entries : List (ReassemblyKey × ReassemblyEntry)
  pub peer_bytes : List (ℕ × ℕ)
  pub global_bytes : ℕ

-- `AppFragmentReassembler::default()`.
abbrev pub empty : AppFragmentReassembler
empty = record { entries = []; peer_bytes = []; global_bytes = 0 }

unfoldable pub same_message : AppFragment → AppFragment → Bool
same_message a b =
    nat_beq a.message_schema_version b.message_schema_version
    && nat_beq a.network_id b.network_id
    && a.topic == b.topic
    && a.source_peer_id == b.source_peer_id
    && a.target_peer_id == b.target_peer_id
    && nat_beq a.timestamp_ns b.timestamp_ns
    && a.nonce_hex == b.nonce_hex
    && a.payload_hash_hex == b.payload_hash_hex
    && nat_beq a.payload_len b.payload_len
    && nat_beq a.total b.total

-- `if let Some(bytes) = self.peer_bytes.get_mut(peer) {*bytes = bytes.saturating_sub(n); }`
unfoldable pub subtract_bytes : ℕ → ℕ → List (ℕ × ℕ) → List (ℕ × ℕ)
subtract_bytes peer n peer_bytes = elim (lookup peer peer_bytes) [
  | none ↦ peer_bytes
  | some bytes ↦ insert peer (bytes - n) peer_bytes
]

-- The keys of the expired entries.
unfoldable pub expired_keys : ℕ → List (ReassemblyKey × ReassemblyEntry) → List ReassemblyKey
expired_keys now [] = []
expired_keys now ((key, entry) ∷ entries) =
    if leb fragment_expiry (now - entry.created)
    then key ∷ expired_keys now entries
    else expired_keys now entries

-- An entry goes, and its bytes are given back: one round of the loop of `expire`.
unfoldable pub drop_entry : ReassemblyKey → AppFragmentReassembler → AppFragmentReassembler
drop_entry key s = elim (lookup key s.entries) [
  | none ↦ s
  | some entry ↦ record {
    entries = remove key s.entries;
    peer_bytes = subtract_bytes key.author entry.bytes s.peer_bytes;
    global_bytes = s.global_bytes - entry.bytes;
  }
]

unfoldable pub drop_entries : List ReassemblyKey → AppFragmentReassembler → AppFragmentReassembler
drop_entries [] s = s
drop_entries (key ∷ keys) s = drop_entries keys (drop_entry key s)

-- `self.peer_bytes.retain(|_, bytes| *bytes > 0)`.
unfoldable pub retain_positive : List (ℕ × ℕ) → List (ℕ × ℕ)
retain_positive [] = []
retain_positive ((peer, bytes) ∷ m) =
    if ltb 0 bytes then (peer, bytes) ∷ retain_positive m else retain_positive m

unfoldable pub expire : AppFragmentReassembler → ℕ → AppFragmentReassembler
expire s now =
    let s' = drop_entries (expired_keys now s.entries) s in
    record s' { peer_bytes = retain_positive s'.peer_bytes }

abbrev pub is_none : Option (List ℕ) → Bool
is_none none = true
is_none (some c) = false

-- The payload of the chunks, all of which are there.
unfoldable pub gather : List (Option (List ℕ)) → List ℕ
gather [] = []
gather (none ∷ cs) = gather cs
gather (some c ∷ cs) = c ++ gather cs

unfoldable pub new_entry : AppFragment → ℕ → ReassemblyEntry
new_entry f now = record { fragment = f; chunks = replicate f.total none; bytes = 0; created = now }

-- Is there room for the fragment, of the peer and of all peers together?
unfoldable pub over_ceiling : AppFragmentReassembler → ℕ → AppFragment → Bool
over_ceiling s current_peer f =
    ltb max_reassembly_bytes_per_peer (saturating_add current_peer (length f.payload))
    || ltb max_reassembly_bytes_global (saturating_add s.global_bytes (length f.payload))

module _ (x : Externals) where
  open x use {peer_ids, hash_hex}
  open peer_ids use {print}

  -- The message of a complete entry.
  unfoldable pub assemble : ReassemblyEntry → Result (Option AppMessage)
  assemble entry =
      let f = entry.fragment in
      let payload = gather entry.chunks in
      let message : AppMessage = record {
        schema_version = f.message_schema_version;
        network_id = f.network_id;
        topic = f.topic;
        source_peer_id = f.source_peer_id;
        target_peer_id = f.target_peer_id;
        timestamp_ns = f.timestamp_ns;
        nonce_hex = f.nonce_hex;
        payload = payload;
      } in
      if not (nat_beq (length payload) f.payload_len)
        || not (hash_hex payload == f.payload_hash_hex)
      then err (app_message f.topic "reassembled payload hash mismatch")
      else validate_app_message peer_ids message >> ok (some message)

  -- A fragment goes into its entry, which stands in the state already.
  unfoldable pub store :
      AppFragmentReassembler
      → ReassemblyKey
      → ReassemblyEntry
      → ℕ
      → AppFragment
      → Option (AppFragmentReassembler × Result (Option AppMessage))
  store s key entry current_peer f =
      if not (same_message entry.fragment f)
      then some (s, err (app_message f.topic "fragment metadata mismatch"))
      else elim (get_elem? entry.chunks f.index) [
        | none ↦ none
        | some (some _) ↦ some (s, ok none)
        | some none ↦
            let len = length f.payload in
            let entry' = record entry {
              bytes = saturating_add entry.bytes len;
              chunks = set entry.chunks f.index (some f.payload);
            } in
            let s' : AppFragmentReassembler = record {
              entries = insert key entry' s.entries;
              peer_bytes = insert key.author (saturating_add current_peer len) s.peer_bytes;
              global_bytes = saturating_add s.global_bytes len;
            } in
            if any is_none entry'.chunks
            then some (s', ok none)
            else some (drop_entry key s', assemble entry')
      ]

  unfoldable pub push :
      AppFragmentReassembler
      → ℕ
      → AppFragment
      → ℕ
      → Option (AppFragmentReassembler × Result (Option AppMessage))
  push s author f now =
      let s1 = expire s now in
      let key : ReassemblyKey = record {
        author = author;
        nonce_hex = f.nonce_hex;
        topic = f.topic;
      } in
      let current_peer = get_or (lookup author s1.peer_bytes) 0 in
      let entry = get_or (lookup key s1.entries) (new_entry f now) in
      if not (f.source_peer_id == print author)
      then some (
        s1,
        err (app_message f.topic "fragment source does not match authenticated Gossipsub author"),
      )
      else if over_ceiling s1 current_peer f
      then some (s1, err (app_message f.topic "fragment reassembly memory ceiling exceeded"))
      else store (record s1 { entries = insert key entry s1.entries }) key entry current_peer f
