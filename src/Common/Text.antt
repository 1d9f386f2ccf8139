-- ===== src/Common/Text.antt =====
-- Rust's `str` as its list of Unicode code points, with the standard-library functions that the
-- program calls on it, and the peer ids of the libp2p library with their textual form.
use p2p_net.Prelude.{
  ℕ, ◌+◌, ◌≡◌, Bool, ◌&&◌, ◌||◌, Option, some, List, [], ◌∷◌, ltb, leb, nat_beq, if◌then◌else◌,
}
use Prim.Native.Char.{code}
use Prim.Native.String.{String}
use mathlib.Core.List.{reverse}

abbrev pub Text : Type 0
Text = List ℕ

-- The text of a string literal.
abbrev pub codes : String → Text
codes String.[] = []
codes (String.◌∷◌ c s) = code c ∷ codes s

-- `str::len`: the bytes of the UTF-8 encoding.
unfoldable pub text_len : Text → ℕ
text_len [] = 0
text_len (c ∷ s) =
    (if ltb c 0x80 then 1 else if ltb c 0x800 then 2 else if ltb c 0x1_0000 then 3 else 4)
    + text_len s

-- `char::is_whitespace`: the code points with the property White_Space.
unfoldable pub is_whitespace : ℕ → Bool
is_whitespace c =
    (leb 9 c && leb c 13)
    || nat_beq c 0x20
    || nat_beq c 0x85
    || nat_beq c 0xa0
    || nat_beq c 0x1680
    || (leb 0x2000 c && leb c 0x200a)
    || nat_beq c 0x2028
    || nat_beq c 0x2029
    || nat_beq c 0x202f
    || nat_beq c 0x205f
    || nat_beq c 0x3000

unfoldable pub trim_start : Text → Text
trim_start [] = []
trim_start (c ∷ s) = if is_whitespace c then trim_start s else c ∷ s

-- `str::trim`.
unfoldable pub trim : Text → Text
unfolding trim_start
trim s = reverse (trim_start (reverse (trim_start s)))

unfoldable pub is_ascii_alphanumeric : ℕ → Bool
is_ascii_alphanumeric c =
    (leb b'0' c && leb c b'9') || (leb b'A' c && leb c b'Z') || (leb b'a' c && leb c b'z')

-- `libp2p::PeerId` with its `FromStr` and `Display`. The program compares, orders and hashes peer
-- ids and never looks inside: a peer id is a number. What is displayed parses back.
pub record PeerIdText : Type 0 where
  pub parse : Text → Option ℕ
  pub print : ℕ → Text
  pub parse-print : (peer : ℕ) → parse (print peer) ≡ some peer
