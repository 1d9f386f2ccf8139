-- ===== src/Connectivity/Strategy/Transports.antt =====
-- crates/connectivity/connection_strategy.rs: the transports that a node can dial, and which
-- addresses they allow. The source looks for parts of the printed address.
use p2p_net.Prelude.{
  Bool, true, false, not, ◌&&◌, ◌||◌, [], ◌∷◌, nat_beq, if◌then◌else◌, is_empty, ◌==◌, nat_eq,
  list_eq, option_eq,
}
use p2p_net.Common.Text.{Text, codes}

pub record TransportCapabilities : Type 0 where
  pub tcp : Bool
  pub quic : Bool
  pub webrtc_direct : Bool
  pub secure_websocket : Bool
  pub webtransport : Bool
  pub circuit_relay : Bool
  pub browser_webrtc : Bool
  pub relay_assisted_upgrade : Bool

abbrev pub native : TransportCapabilities
native = record {
  tcp = true;
  quic = true;
  webrtc_direct = true;
  secure_websocket = true;
  webtransport = false;
  circuit_relay = true;
  browser_webrtc = false;
  relay_assisted_upgrade = true;
}

abbrev pub browser : TransportCapabilities
browser = record {
  tcp = false;
  quic = false;
  webrtc_direct = true;
  secure_websocket = true;
  webtransport = true;
  circuit_relay = true;
  browser_webrtc = true;
  relay_assisted_upgrade = true;
}

-- `==` of Booleans and of the capabilities.
abbrev same : Bool → Bool → Bool
same true b = b
same false b = not b

abbrev pub same_capabilities : TransportCapabilities → TransportCapabilities → Bool
same_capabilities a b =
    same a.tcp b.tcp
    && same a.quic b.quic
    && same a.webrtc_direct b.webrtc_direct
    && same a.secure_websocket b.secure_websocket
    && same a.webtransport b.webtransport
    && same a.circuit_relay b.circuit_relay
    && same a.browser_webrtc b.browser_webrtc
    && same a.relay_assisted_upgrade b.relay_assisted_upgrade

-- `str::starts_with`, `contains` and `ends_with`.
unfoldable pub starts_with : Text → Text → Bool
starts_with s [] = true
starts_with [] (p ∷ ps) = false
starts_with (c ∷ s) (p ∷ ps) = nat_beq c p && starts_with s ps

unfoldable pub contains : Text → Text → Bool
contains [] part = starts_with [] part
contains (c ∷ s) part = starts_with (c ∷ s) part || contains s part

unfoldable pub ends_with : Text → Text → Bool
ends_with [] part = is_empty part
ends_with (c ∷ s) part = ((c ∷ s) == part) || ends_with s part

-- `s.split(part).next()` for a part that is not empty.
unfoldable pub before : Text → Text → Text
before [] part = []
before (c ∷ s) part = let rest = before s part in if starts_with (c ∷ s) part then [] else c ∷ rest

unfoldable pub allows_text : TransportCapabilities → Text → Bool
allows_text t raw =
    let transport = before raw (codes "/p2p-circuit") in
    if contains raw (codes "/p2p-circuit") && not t.circuit_relay
    then false
    else if contains transport (codes "/webrtc-direct")
    then t.webrtc_direct
    else if contains transport (codes "/webtransport")
    then t.webtransport
    else if ends_with transport (codes "/webrtc") || contains transport (codes "/webrtc/")
    then t.browser_webrtc
    else if contains transport (codes "/wss") || contains transport (codes "/tls/ws")
    then t.secure_websocket
    else if contains transport (codes "/quic")
    then t.quic
    else if contains transport (codes "/tcp/")
    then t.tcp
    else same_capabilities t native
