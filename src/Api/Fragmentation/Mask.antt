-- ===== src/Api/Fragmentation/Mask.antt =====
-- The slots of a reassembly entry: the chunks of the message that have come, `none` elsewhere.
use p2p_net.Prelude.{
  ℕ, zero, suc, ◌+◌, ◌≤◌, ◌<◌, ◌≡◌, refl, ap, ◌∙◌, Bool, true, false, ◌||◌, Option, none, some,
  List, [], ◌∷◌, ◌++◌, nat_beq, length, length-append, any, get_elem?, set, replicate,
  if◌then◌else◌, arith, Bool-cases, inl, inr,
}
use mathlib.Core.Path.{fun_ext, ap₂}
use p2p_net.Api.Fragmentation.Reassembler.{is_none, gather}

-- `Vec::concat`.
unfoldable pub concat : List (List ℕ) → List ℕ
concat [] = []
concat (c ∷ cs) = c ++ concat cs

unfoldable pub mask : (ℕ → Bool) → List (List ℕ) → List (Option (List ℕ))
mask seen [] = []
mask seen (c ∷ cs) = (if seen 0 then some c else none) ∷ mask (λ j. seen (suc j)) cs

-- One more index.
abbrev pub with_index : ℕ → (ℕ → Bool) → ℕ → Bool
with_index i seen j = nat_beq i j || seen j

pub mask_nothing : (cs : List (List ℕ)) → replicate (length cs) none ≡ mask (λ j. false) cs
unfolding mask
mask_nothing [] = refl
mask_nothing (c ∷ cs) = ap (◌∷◌ none) (mask_nothing cs)

pub set-mask :
    (seen : ℕ → Bool) (cs : List (List ℕ)) (i : ℕ) (c : List ℕ)
    → get_elem? cs i ≡ some c
    → set (mask seen cs) i (some c) ≡ mask (with_index i seen) cs
unfolding mask
set-mask seen [] i c h = cc
set-mask seen (d ∷ cs) zero c h =
    ap₂ ◌∷◌ (ground arith) (ap (λ s. mask s cs) (fun_ext (λ j. ground arith)))
set-mask seen (d ∷ cs) (suc i) c h =
    ap₂ ◌∷◌ (ground arith)
      (set-mask (λ j. seen (suc j)) cs i c h ∙ ap (λ s. mask s cs) (fun_ext (λ j. ground arith)))

pub get_elem?-mask :
    (seen : ℕ → Bool) (cs : List (List ℕ)) (i : ℕ) (c : List ℕ)
    → get_elem? cs i ≡ some c
    → get_elem? (mask seen cs) i ≡ some (if seen i then some c else none)
unfolding mask
get_elem?-mask seen [] i c h = cc
get_elem?-mask seen (d ∷ cs) zero c h = ground arith
get_elem?-mask seen (d ∷ cs) (suc i) c h = get_elem?-mask (λ j. seen (suc j)) cs i c h

pub any-mask_missing :
    (seen : ℕ → Bool) (cs : List (List ℕ)) (i : ℕ)
    → i < length cs
    → seen i ≡ false
    → any is_none (mask seen cs) ≡ true
unfolding mask any
any-mask_missing seen [] i h missing = absurd (omega arith)
any-mask_missing seen (c ∷ cs) zero h missing = ground arith
any-mask_missing seen (c ∷ cs) (suc i) h missing =
    ground (arith, any-mask_missing (λ j. seen (suc j)) cs i (omega arith) missing)

pub any-mask_complete :
    (seen : ℕ → Bool) (cs : List (List ℕ))
    → ((i : ℕ) → i < length cs → seen i ≡ true)
    → any is_none (mask seen cs) ≡ false
unfolding mask any
any-mask_complete seen [] h = refl
any-mask_complete seen (c ∷ cs) h =
    ground (arith, h 0, any-mask_complete (λ j. seen (suc j)) cs (λ i lt. h (suc i) (omega arith)))

pub gather-mask :
    (seen : ℕ → Bool) (cs : List (List ℕ))
    → ((i : ℕ) → i < length cs → seen i ≡ true)
    → gather (mask seen cs) ≡ concat cs
unfolding mask gather concat
gather-mask seen [] h = refl
gather-mask seen (c ∷ cs) h =
    rw (h 0 (omega arith))
      (ap (◌++◌ c) (gather-mask (λ j. seen (suc j)) cs (λ i lt. h (suc i) (omega arith))))

pub length-gather-mask-le :
    (seen : ℕ → Bool) (cs : List (List ℕ)) → length (gather (mask seen cs)) ≤ length (concat cs)
unfolding mask gather concat
length-gather-mask-le seen [] = omega arith
length-gather-mask-le seen (c ∷ cs) = elim (Bool-cases (seen 0)) [
  | inl here ↦ rw here (
      omega (
        arith,
        length-append c (gather (mask (λ j. seen (suc j)) cs)),
        length-append c (concat cs),
        length-gather-mask-le (λ j. seen (suc j)) cs,
      ))
  | inr gone ↦
      rw gone
        (omega (arith, length-append c (concat cs), length-gather-mask-le (λ j. seen (suc j)) cs))
]

pub length-gather-set :
    (slots : List (Option (List ℕ))) (i : ℕ) (c : List ℕ)
    → get_elem? slots i ≡ some none
    → length (gather (set slots i (some c))) ≡ length (gather slots) + length c
unfolding gather
length-gather-set [] i c h = cc
length-gather-set (none ∷ slots) zero c h = omega (arith, length-append c (gather slots))
length-gather-set (some d ∷ slots) zero c h = cc
length-gather-set (none ∷ slots) (suc i) c h = length-gather-set slots i c h
length-gather-set (some d ∷ slots) (suc i) c h = omega (
  arith,
  length-append d (gather slots),
  length-append d (gather (set slots i (some c))),
  length-gather-set slots i c h,
)
