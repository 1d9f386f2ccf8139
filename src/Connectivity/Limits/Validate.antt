-- ===== src/Connectivity/Limits/Validate.antt =====
-- What the configuration check of the connection limits guarantees.
use p2p_net.Prelude.{ℕ, ◌≤◌, ◌<◌, ◌≡◌, true, Option, none, some, arith}
use Prim.Native.String.{String}
use p2p_net.Common.Error.{ok, >>-eq-ok}
use p2p_net.Connectivity.Limits.{ConnectionLimitsConfig, ensure_nonzero, ensure_at_most, validate}

-- No limit of 0.
abbrev pub IsUsable : Option ℕ → Type 0
IsUsable none = Unit
IsUsable (some n) = 0 < n

abbrev pub IsWithin : Option ℕ → Option ℕ → Type 0
IsWithin (some part) (some total) = part ≤ total
IsWithin _ _ = Unit

ensure_nonzero-IsUsable :
    (field : String) (limit : Option ℕ) → ensure_nonzero field limit ≡ ok tt → IsUsable limit
unfolding ensure_nonzero
ensure_nonzero-IsUsable field none h = tt
ensure_nonzero-IsUsable field (some n) h = ground arith

ensure_at_most-IsWithin :
    (reason : String) (part total : Option ℕ)
    → ensure_at_most reason part total ≡ ok tt
    → IsWithin part total
unfolding ensure_at_most
ensure_at_most-IsWithin reason (some part) (some total) h = ground arith
ensure_at_most-IsWithin reason _ _ h = tt

-- An enabled configuration that passes has no limit of 0, and its limits per peer and per IP are
-- within the total limit, where both are set.
pub validate-IsUsable :
    (c : ConnectionLimitsConfig)
    → c.enabled ≡ true
    → validate c ≡ ok tt
    → IsUsable c.max_pending_incoming
      × IsUsable c.max_pending_outgoing
      × IsUsable c.max_established_incoming
      × IsUsable c.max_established_outgoing
      × IsUsable c.max_established
      × IsUsable c.max_established_per_peer
      × IsUsable c.max_established_per_ip
      × IsWithin c.max_established_per_peer c.max_established
      × IsWithin c.max_established_per_ip c.max_established
unfolding validate
validate-IsUsable c on h =
    let h0 = rw on at h in
    let (_, p1, h1) = >>-eq-ok (ensure_nonzero _ c.max_pending_incoming) _ h0 in
    let (_, p2, h2) = >>-eq-ok (ensure_nonzero _ c.max_pending_outgoing) _ h1 in
    let (_, p3, h3) = >>-eq-ok (ensure_nonzero _ c.max_established_incoming) _ h2 in
    let (_, p4, h4) = >>-eq-ok (ensure_nonzero _ c.max_established_outgoing) _ h3 in
    let (_, p5, h5) = >>-eq-ok (ensure_nonzero _ c.max_established) _ h4 in
    let (_, p6, h6) = >>-eq-ok (ensure_nonzero _ c.max_established_per_peer) _ h5 in
    let (_, p7, h7) = >>-eq-ok (ensure_nonzero _ c.max_established_per_ip) _ h6 in
    let (_, p8, h8) =
      >>-eq-ok (ensure_at_most _ c.max_established_per_peer c.max_established) _ h7 in
    let (_, p9, _) = >>-eq-ok (ensure_at_most _ c.max_established_per_ip c.max_established) _ h8 in
    (
      ensure_nonzero-IsUsable _ _ p1,
      ensure_nonzero-IsUsable _ _ p2,
      ensure_nonzero-IsUsable _ _ p3,
      ensure_nonzero-IsUsable _ _ p4,
      ensure_nonzero-IsUsable _ _ p5,
      ensure_nonzero-IsUsable _ _ p6,
      ensure_nonzero-IsUsable _ _ p7,
      ensure_at_most-IsWithin _ _ _ p8,
      ensure_at_most-IsWithin _ _ _ p9,
    )
