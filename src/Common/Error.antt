-- ===== src/Common/Error.antt =====
-- crates/common/error.rs: the errors of the program, and the `Result` that carries them.
use Prim.Native.String.{String}
use p2p_net.Prelude.{◌⊎◌, inl, inr, Bool, true, false, ◌≡◌, refl}
use p2p_net.Common.Text.{Text}

pub data NetError : Type 0 where
  build : String → NetError
  listen : Text → String → NetError
  heartbeat : String → NetError
  gossip_codec : String → NetError
  config : String → String → NetError
  identity : String → String → NetError
  api_command : String → NetError
  dial : Text → String → NetError
  app_topic : Text → String → NetError
  app_message : Text → String → NetError

-- `config_error`.
abbrev pub config_error : String → NetError
config_error reason = config "<config>" reason

pub data Result {ℓ} (A : Type ℓ) : Type ℓ where
  ok : A → Result A
  err : NetError → Result A

infixl 5 ◌>>=◌ ◌>>◌
abbrev pub ◌>>=◌ {ℓ κ} : {A : Type ℓ} {B : Type κ} → Result A → (A → Result B) → Result B
ok a >>= f = f a
err e >>= f = err e

abbrev pub ◌>>◌ {ℓ κ} : {A : Type ℓ} {B : Type κ} → Result A → Result B → Result B
ok a >> k = k
err e >> k = err e

-- `if refused { return Err(e); }`
abbrev pub refuse : Bool → NetError → Result (Unit {0})
refuse true e = err e
refuse false e = ok tt

-- `Result::is_ok`.
abbrev pub is_ok {ℓ} : {A : Type ℓ} → Result A → Bool
is_ok (ok a) = true
is_ok (err e) = false

-- Inversion of two steps in a row that succeed.
pub >>-eq-ok {ℓ} :
    {B : Type ℓ} (m : Result (Unit {0})) (k : Result B) {b : B}
    → (m >> k) ≡ ok b
    → (u : Unit {0}) × (m ≡ ok tt) × (k ≡ ok b)
>>-eq-ok (ok tt) k h = (tt, refl, h)
>>-eq-ok (err e) k h = cc

pub >>=-eq-ok {ℓ κ} :
    {A : Type ℓ} {B : Type κ} (m : Result A) (k : A → Result B) {b : B}
    → (m >>= k) ≡ ok b
    → (a : A) × (m ≡ ok a) × (k a ≡ ok b)
>>=-eq-ok (ok a) k h = (a, refl, h)
>>=-eq-ok (err e) k h = cc

pub Result-cases {ℓ} :
    {A : Type ℓ} (r : Result A) → ((a : A) × (r ≡ ok a)) ⊎ ((e : NetError) × (r ≡ err e))
Result-cases (ok a) = inl (a, refl)
Result-cases (err e) = inr (e, refl)
