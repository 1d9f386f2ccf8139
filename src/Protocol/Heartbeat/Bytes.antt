-- ===== src/Protocol/Heartbeat/Bytes.antt =====
-- Numbers as bytes, and slices at a cursor that moves over a frame.
use p2p_net.Prelude.{
  ℕ, zero, suc, ◌+◌, ◌-◌, ◌/◌, ◌%◌, ◌^◌, ◌≤◌, ◌<◌, ◌≡◌, refl, sym, ap, ◌∙◌, List, [], ◌∷◌, ◌++◌,
  length, take, drop, arith,
}
use native.Mathlib.Nat.{pow-succ'}
use p2p_net.Common.Error.{ok}
use p2p_net.Protocol.Heartbeat.{be_bytes, from_be_bytes, slice, read_number}

from_be_bytes-be_bytes :
    (k n : ℕ) (rest : List ℕ)
    → n < 256 ^ k
    → from_be_bytes 0 (be_bytes k n rest) ≡ from_be_bytes n rest
unfolding be_bytes from_be_bytes
from_be_bytes-be_bytes zero n rest h = ap (λ m. from_be_bytes m rest) (omega arith)
from_be_bytes-be_bytes (suc k) n rest h =
    from_be_bytes-be_bytes k (n / 256) (n % 256 ∷ rest) (omega (arith, pow-succ' 256 k))
    ∙ ap (λ m. from_be_bytes m rest) (omega arith)

pub length-be_bytes : (k n : ℕ) (rest : List ℕ) → length (be_bytes k n rest) ≡ k + length rest
unfolding be_bytes
length-be_bytes zero n rest = omega arith
length-be_bytes (suc k) n rest = omega (arith, length-be_bytes k (n / 256) (n % 256 ∷ rest))

be_bytes-append : (k n : ℕ) (a b : List ℕ) → be_bytes k n (a ++ b) ≡ be_bytes k n a ++ b
unfolding be_bytes
be_bytes-append zero n a b = refl
be_bytes-append (suc k) n a b = be_bytes-append k (n / 256) (n % 256 ∷ a) b

drop-nil : (n : ℕ) → ◌≡◌ {A = List ℕ} (drop n []) []
drop-nil zero = refl
drop-nil (suc n) = refl

drop_add : (a b : ℕ) (xs : List ℕ) → drop (a + b) xs ≡ drop b (drop a xs)
drop_add zero b xs = ap (λ n. drop n xs) (omega arith)
drop_add (suc a) b [] = drop-nil (suc a + b) ∙ sym (drop-nil b)
drop_add (suc a) b (x ∷ xs) =
    let next : suc a + b ≡ suc (a + b) = omega arith in
    ap (λ n. drop n (x ∷ xs)) next ∙ drop_add a b xs

pub take-append : (xs ys : List ℕ) → take (length xs) (xs ++ ys) ≡ xs
take-append [] ys = refl
take-append (x ∷ xs) ys = ap (◌∷◌ x) (take-append xs ys)

drop-append : (xs ys : List ℕ) → drop (length xs) (xs ++ ys) ≡ ys
drop-append [] ys = refl
drop-append (x ∷ xs) ys = drop-append xs ys

-- The cursor `a` stands in front of `part`.
pub slice-part :
    (bytes part rest : List ℕ) (a n : ℕ)
    → drop a bytes ≡ part ++ rest
    → length part ≡ n
    → slice bytes a (a + n) ≡ part
slice-part bytes part rest a n here size =
    ap (λ m. take m (drop a bytes)) (omega (arith, size))
    ∙ ap (take (length part)) here
    ∙ take-append part rest

pub drop-part :
    (bytes part rest : List ℕ) (a n : ℕ)
    → drop a bytes ≡ part ++ rest
    → length part ≡ n
    → drop (a + n) bytes ≡ rest
drop-part bytes part rest a n here size =
    drop_add a n bytes
    ∙ ap (drop n) here
    ∙ ap (λ m. drop m (part ++ rest)) (sym size)
    ∙ drop-append part rest

drop-length : (a : ℕ) (bytes : List ℕ) → length (drop a bytes) ≤ length bytes - a
drop-length zero bytes = omega arith
drop-length (suc a) [] = omega arith
drop-length (suc a) (x ∷ bytes) = omega (arith, drop-length a bytes)

-- Reading a number of `k` bytes at the cursor.
pub read_number-be_bytes :
    (k n a : ℕ) (bytes rest : List ℕ)
    → n < 256 ^ k
    → 0 < k
    → drop a bytes ≡ be_bytes k n rest
    → read_number k bytes a ≡ ok (n, a + k)
unfolding read_number from_be_bytes
read_number-be_bytes k n a bytes rest small some_bytes here =
    let split = here ∙ be_bytes-append k n [] rest in
    let part =
      slice-part bytes (be_bytes k n []) rest a k split (length-be_bytes k n [] ∙ omega arith) in
    let value = ap (from_be_bytes 0) part ∙ from_be_bytes-be_bytes k n [] small in
    let room = ap length here ∙ length-be_bytes k n rest in
    ground (arith, value, room, drop-length a bytes)

pub drop-be_bytes :
    (k n a : ℕ) (bytes rest : List ℕ) → drop a bytes ≡ be_bytes k n rest → drop (a + k) bytes ≡ rest
drop-be_bytes k n a bytes rest here =
    drop-part bytes (be_bytes k n []) rest a k (here ∙ be_bytes-append k n [] rest)
      (length-be_bytes k n [] ∙ omega arith)
