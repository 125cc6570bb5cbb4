-- ===== src/Base/Results.antt =====
-- Results of fallible code (bft/error/mod.rs). A `panic!`, an `unreachable!` and an index out of
-- range are the third outcome.
use Prim.Native.String.{String}
use mathlib.Core.Path.{◌≡◌, refl, subst, ap, ◌∙◌}
use mathlib.Core.Option.{Option, none, some}

-- The variants of the `ErrorKind` that the modelled code raises.
pub data ErrorKind : Type 0 where
  core core_server consensus_log executable communication communication_message : ErrorKind

-- `Error` with its `ErrorInner`: a kind, and for `wrapped` also a message.
pub data Error : Type 0 where
  simple : ErrorKind → Error
  wrapped : ErrorKind → String → Error

pub data Result {ℓ} (A : Type ℓ) : Type ℓ where
  panic : Result A
  err : Error → Result A
  ok : A → Result A

-- The `?` operator; a panic too ends what comes after it.
abbrev pub ◌>>=◌ {κ ℓ} : {X : Type κ} {Y : Type ℓ} → Result X → (X → Result Y) → Result Y
panic >>= next = panic
err reason >>= next = err reason
ok x >>= next = next x

infixl 5 ◌>>=◌
-- `Option::ok_or`
abbrev pub ok_or {ℓ} : {A : Type ℓ} → Option A → Error → Result A
ok_or none e = err e
ok_or (some a) e = ok a

-- `Option::unwrap`
abbrev pub unwrap {ℓ} : {A : Type ℓ} → Option A → Result A
unwrap none = panic
unwrap (some a) = ok a

abbrev pub kind : Error → ErrorKind
kind (simple k) = k
kind (wrapped k _) = k

pub >>=-eq-ok {κ ℓ} :
    {X : Type κ} {Y : Type ℓ} (r : Result X) (next : X → Result Y) {y : Y}
    → (r >>= next) ≡ ok y
    → (x : X) × (r ≡ ok x) × (next x ≡ ok y)
>>=-eq-ok panic next e = cc
>>=-eq-ok (err reason) next e = cc
>>=-eq-ok (ok x) next e = (x, refl, e)

-- What comes after a success.
pub >>=-ok {κ ℓ} :
    {X : Type κ} {Y : Type ℓ} (r : Result X) (next : X → Result Y) (x : X)
    → r ≡ ok x
    → ((y : Y) × (next x ≡ ok y))
    → (y : Y) × ((r >>= next) ≡ ok y)
>>=-ok r next x e (y, h) = (y, ap (λ s. s >>= next) e ∙ h)

-- What the value of a result satisfies, if there is one.
abbrev pub Okay {ℓ κ} : {A : Type ℓ} → (A → Type κ) → Result A → Type (ℓ ⊔ κ)
Okay P r = (x : _) → r ≡ ok x → P x

pub ok-Okay {κ ℓ} : {X : Type ℓ} (P : X → Type κ) (x : X) → P x → Okay P (ok x)
ok-Okay P x h y e = let same : x ≡ y = cc in subst P same h

pub >>=-Okay {ι κ ℓ} :
    {X : Type ι} {Y : Type ℓ} (P : Y → Type κ) (r : Result X) (next : X → Result Y)
    → ((x : X) → r ≡ ok x → Okay P (next x))
    → Okay P (r >>= next)
>>=-Okay P panic next h y e = cc
>>=-Okay P (err reason) next h y e = cc
>>=-Okay P (ok x) next h y e = h x refl y e
