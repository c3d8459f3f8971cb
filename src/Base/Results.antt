-- ===== src/Base/Results.antt =====
-- Go's `(value, error)` results. An error is its message, without the arguments of a `%` verb.
use Prim.Native.String.{String}
use mathlib.Core.Path.{◌≡◌, refl}
use mathlib.Core.Logic.{◌⊎◌, inl, inr}
use mathlib.Core.Bool.{Bool, true, false}

pub data Result {κ} (V : Type κ) : Type κ where
  err : (message : String) → Result V
  ok : V → Result V

infixl 5 ◌>>=◌ ◌>>◌
-- A failure skips what follows.
abbrev pub ◌>>=◌ {κ ℓ} :
    {V : Type κ} {W : Type ℓ} (first : Result V) (next : V → Result W) → Result W
err message >>= next = err message
ok value >>= next = next value

-- In sequence, without the first value.
abbrev pub ◌>>◌ {κ ℓ} : {V : Type κ} {W : Type ℓ} (first : Result V) (second : Result W) → Result W
first >> second = first >>= λ value. second

-- `if test { return error }`
abbrev pub reject : Bool → String → Result (Unit {0})
reject true e = err e
reject false e = ok tt

abbrev pub is_ok {ℓ} : {A : Type ℓ} → Result A → Bool
is_ok (ok a) = true
is_ok (err e) = false

-- `if err := m; err != nil { return otherErr }`
abbrev pub or_error {ℓ} : {A : Type ℓ} → Result A → String → Result A
or_error (ok a) e = ok a
or_error (err _) e = err e

pub Result-cases {ℓ} :
    {A : Type ℓ} (r : Result A) → ((a : A) × (r ≡ ok a)) ⊎ ((e : String) × (r ≡ err e))
Result-cases (ok a) = inl (a, refl)
Result-cases (err e) = inr (e, refl)

pub >>=-eq-ok {κ ℓ} :
    {V : Type κ} {W : Type ℓ} (first : Result V) (next : V → Result W) {w : W}
    → (first >>= next) ≡ ok w
    → (v : V) × (first ≡ ok v) × (next v ≡ ok w)
>>=-eq-ok (err message) next refused = cc
>>=-eq-ok (ok value) next passed = (value, refl, passed)

pub reject-eq-ok : (test : Bool) (e : String) {u : Unit {0}} → reject test e ≡ ok u → test ≡ false
reject-eq-ok true e h = cc
reject-eq-ok false e h = refl
