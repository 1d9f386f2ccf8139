-- ===== src/Api/Fragmentation/Chunks.antt =====
-- The chunks of a payload: they make up the payload, and each has the length that its index asks.
use p2p_net.Prelude.{
  nat_eq, ℕ, zero, suc, ◌-◌, ◌*◌, ◌≤◌, ◌<◌, ◌≡◌, refl, ap, ◌∙◌, Option, some, List, [], ◌∷◌, ◌++◌,
  arith, length, get_elem?, take, drop, length-take, length-drop, take-append-drop, div_ceil, min,
}
use p2p_net.Common.Error.{ok}
use p2p_net.Api.Message.{AppMessage, max_app_message_bytes}
use p2p_net.Api.Fragmentation.{
  Externals, fragment_of, app_fragment_payload_bytes, chunks_loop, chunks, validate_shape,
}
use p2p_net.Api.Fragmentation.Mask.{concat}

concat-chunks_loop :
    (fuel n : ℕ) (xs : List ℕ) → 0 < n → length xs ≤ fuel → concat (chunks_loop fuel n xs) ≡ xs
unfolding chunks_loop concat
concat-chunks_loop zero n [] pos h = refl
concat-chunks_loop zero n (x ∷ xs) pos h = absurd (omega arith)
concat-chunks_loop (suc fuel) n [] pos h = refl
concat-chunks_loop (suc fuel) n (x ∷ xs) pos h =
    ap (◌++◌ (take n (x ∷ xs)))
      (concat-chunks_loop fuel n (drop n (x ∷ xs)) pos (omega (arith, length-drop n (x ∷ xs))))
    ∙ take-append-drop n (x ∷ xs)

-- The fuel of `chunks` is enough: no byte is lost.
pub concat-chunks : (n : ℕ) (xs : List ℕ) → 0 < n → concat (chunks n xs) ≡ xs
unfolding chunks
concat-chunks n xs pos = concat-chunks_loop (length xs) n xs pos (omega arith)

-- The size of a chunk as a variable, so that nothing counts to it.
module _ (n : ℕ) (size : n ≡ 16384) where
  length-chunks_loop :
      (fuel : ℕ) (xs : List ℕ)
      → length xs ≤ fuel
      → length (chunks_loop fuel n xs) ≡ div_ceil (length xs) 16384
  unfolding chunks_loop
  length-chunks_loop zero [] h = omega arith
  length-chunks_loop zero (x ∷ xs) h = absurd (omega arith)
  length-chunks_loop (suc fuel) [] h = omega arith
  length-chunks_loop (suc fuel) (x ∷ xs) h =
      let l = length-drop n (x ∷ xs) in
      let ih = length-chunks_loop fuel (drop n (x ∷ xs)) (omega (arith, l)) in omega (arith, l, ih)

  nth-chunks_loop :
      (fuel : ℕ) (xs : List ℕ) (i : ℕ) (c : List ℕ)
      → length xs ≤ fuel
      → get_elem? (chunks_loop fuel n xs) i ≡ some c
      → (length c ≡ min 16384 (length xs - 16384 * i)) × (16384 * i < length xs)
  unfolding chunks_loop
  nth-chunks_loop zero [] i c h e = cc
  nth-chunks_loop zero (x ∷ xs) i c h e = absurd (omega arith)
  nth-chunks_loop (suc fuel) [] i c h e = cc
  nth-chunks_loop (suc fuel) (x ∷ xs) zero c h e =
      let l = length-take n (x ∷ xs) in
      let same = ap length (some_eq (take n (x ∷ xs)) c e) in (omega (arith, l, same), omega arith)
    where
      some_eq : (a b : List ℕ) → ◌≡◌ {A = Option (List ℕ)} (some a) (some b) → a ≡ b
      some_eq a b p = cc
  nth-chunks_loop (suc fuel) (x ∷ xs) (suc i) c h e =
      let l = length-drop n (x ∷ xs) in
      let (len, lt) = nth-chunks_loop fuel (drop n (x ∷ xs)) i c (omega (arith, l)) e in
      (omega (arith, l, len), omega (arith, l, lt))

pub length-chunks :
    (xs : List ℕ)
    → length (chunks app_fragment_payload_bytes xs)
      ≡ div_ceil (length xs) app_fragment_payload_bytes
unfolding chunks
length-chunks xs = length-chunks_loop app_fragment_payload_bytes refl (length xs) xs (omega arith)

pub nth-chunks :
    (xs : List ℕ) (i : ℕ) (c : List ℕ)
    → get_elem? (chunks app_fragment_payload_bytes xs) i ≡ some c
    → (length c ≡ min 16384 (length xs - 16384 * i)) × (16384 * i < length xs)
unfolding chunks
nth-chunks xs i c e =
    nth-chunks_loop app_fragment_payload_bytes refl (length xs) xs i c (omega arith) e

-- A fragment of a message has the shape that the receiver asks.
pub validate_shape-fragment_of :
    (x : Externals) (m : AppMessage) (i : ℕ) (c : List ℕ)
    → get_elem? (chunks app_fragment_payload_bytes m.payload) i ≡ some c
    → app_fragment_payload_bytes < length m.payload
    → length m.payload ≤ max_app_message_bytes
    → validate_shape x (fragment_of x m i c) ≡ ok tt
unfolding validate_shape
validate_shape-fragment_of x m i c e large small =
    let (len, lt) = nth-chunks m.payload i c e in ground (arith, len, lt)
