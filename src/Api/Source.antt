-- ===== src/Api/Source.antt =====
-- crates/api/mod.rs: the sources from which a peer is known. The derived order is that of the
-- declaration.
use p2p_net.Prelude.{
  ℕ, ◌≡◌, refl, some, List, [], ◌∷◌, ltb, get_elem?, Eq, nat_eq, list_eq, option_eq, code_eq,
}
use p2p_net.Prelude.OrderedSet.{Ord}

pub data PeerSource : Type 0 where
  connected : PeerSource
  bootstrap : PeerSource
  bootstrap_seed : PeerSource
  public_bootstrap_seed : PeerSource
  rendezvous : PeerSource
  public_rendezvous : PeerSource
  dht_provider : PeerSource
  lan_discovery : PeerSource
  relay_discovery : PeerSource
  public_relay_discovery : PeerSource
  peer_cache : PeerSource
  manual : PeerSource

-- The place of a source in the declaration, and the source at a place.
abbrev pub rank : PeerSource → ℕ
rank connected = 0
rank bootstrap = 1
rank bootstrap_seed = 2
rank public_bootstrap_seed = 3
rank rendezvous = 4
rank public_rendezvous = 5
rank dht_provider = 6
rank lan_discovery = 7
rank relay_discovery = 8
rank public_relay_discovery = 9
rank peer_cache = 10
rank manual = 11

abbrev pub all_sources : List PeerSource
all_sources =
    connected ∷ bootstrap ∷ bootstrap_seed ∷ public_bootstrap_seed ∷ rendezvous ∷ public_rendezvous
    ∷ dht_provider ∷ lan_discovery ∷ relay_discovery ∷ public_relay_discovery ∷ peer_cache ∷ manual
    ∷ []

pub source-rank : (s : PeerSource) → get_elem? all_sources (rank s) ≡ some s
source-rank connected = refl
source-rank bootstrap = refl
source-rank bootstrap_seed = refl
source-rank public_bootstrap_seed = refl
source-rank rendezvous = refl
source-rank public_rendezvous = refl
source-rank dht_provider = refl
source-rank lan_discovery = refl
source-rank relay_discovery = refl
source-rank public_relay_discovery = refl
source-rank peer_cache = refl
source-rank manual = refl

instance abbrev pub source_eq : Eq PeerSource
source_eq = code_eq rank (get_elem? all_sources) source-rank

instance abbrev pub source_ord : Ord PeerSource
source_ord = record { lt = λ a b. ltb (rank a) (rank b) }
