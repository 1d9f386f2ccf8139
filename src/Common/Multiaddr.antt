-- ===== src/Common/Multiaddr.antt =====
-- `libp2p::Multiaddr` as the list of its components. The program tells apart the components below;
-- an IP address carries its displayed form, `other` stands for the rest.
use p2p_net.Prelude.{
  ℕ, ◌≡◌, refl, Option, none, some, List, [], ◌∷◌, get_elem?, Eq, nat_eq, list_eq, option_eq,
  code_eq,
}
use p2p_net.Common.Text.{Text}

pub data Protocol : Type 0 where
  ip4 : Text → Protocol
  ip6 : Text → Protocol
  dns : Text → Protocol
  tcp : ℕ → Protocol
  udp : ℕ → Protocol
  p2p : ℕ → Protocol
  p2p_circuit : Protocol
  quic : Protocol
  quic_v1 : Protocol
  webrtc : Protocol
  webrtc_direct : Protocol
  other : Text → Protocol

abbrev pub Multiaddr : Type 0
Multiaddr = List Protocol

-- The code of a component, by which components are compared.
abbrev pub code : Protocol → Text
code (ip4 a) = 0 ∷ a
code (ip6 a) = 1 ∷ a
code (dns a) = 2 ∷ a
code (tcp n) = 3 ∷ n ∷ []
code (udp n) = 4 ∷ n ∷ []
code (p2p n) = 5 ∷ n ∷ []
code p2p_circuit = 6 ∷ []
code quic = 7 ∷ []
code quic_v1 = 8 ∷ []
code webrtc = 9 ∷ []
code webrtc_direct = 10 ∷ []
code (other a) = 11 ∷ a

abbrev first : Text → ℕ
first [] = 0
first (c ∷ s) = c

abbrev pub read : Text → Option Protocol
read [] = none
read (c ∷ s) =
    get_elem?
      (ip4 s
        ∷ ip6 s
        ∷ dns s
        ∷ tcp (first s)
        ∷ udp (first s)
        ∷ p2p (first s)
        ∷ p2p_circuit
        ∷ quic
        ∷ quic_v1
        ∷ webrtc
        ∷ webrtc_direct
        ∷ other s
        ∷ [])
      c

pub read-code : (p : Protocol) → read (code p) ≡ some p
read-code (ip4 a) = refl
read-code (ip6 a) = refl
read-code (dns a) = refl
read-code (tcp n) = refl
read-code (udp n) = refl
read-code (p2p n) = refl
read-code p2p_circuit = refl
read-code quic = refl
read-code quic_v1 = refl
read-code webrtc = refl
read-code webrtc_direct = refl
read-code (other a) = refl

instance abbrev pub protocol_eq : Eq Protocol
protocol_eq = code_eq code read read-code
