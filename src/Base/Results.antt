-- ===== src/Base/Results.antt =====
-- A Go function that returns `(T, error)`: the error's text, or the value. A function that returns
-- an `error` alone is a `Result` of the unit type.
use Prim.Native.String.{String, ◌++◌ as append_string}
use mathlib.Core.List.{List, [], ◌∷◌}
use mathlib.Core.Path.{◌≡◌, refl}
use mathlib.Core.Bool.{Bool, true, false}
use mathlib.Core.Logic.{◌⊎◌, inl, inr}
use native.Mathlib.Omega.{arith}

pub data Result {ℓ} (T : Type ℓ) : Type ℓ where
  err : String → Result T
  ok : T → Result T

abbrev pub Checked : Type 0
Checked = Result (Unit {0})

-- `if err != nil { return err }` before what follows.
module _ {ℓ κ} {T : Type ℓ} {V : Type κ} where
  infixl 5 ◌>>=◌
  abbrev pub ◌>>=◌ : Result T → (T → Result V) → Result V
  err message >>= next = err message
  ok value >>= next = next value

module _ {κ} {V : Type κ} where
  infixl 5 ◌>>◌
  abbrev pub ◌>>◌ : Checked → Result V → Result V
  err message >> next = err message
  ok _ >> next = next

-- `if bad { return errors.New(message) }`
abbrev pub refuse_if : Bool → String → Checked
refuse_if false message = ok tt
refuse_if true message = err message

abbrev pub passes {ℓ} : {T : Type ℓ} → Result T → Bool
passes (err message) = false
passes (ok value) = true

-- A sequence of checks passes exactly when each does.
pub passes->> :
    (check next : Checked)
    → passes (check >> next) ≡ true
    → (passes check ≡ true) × (passes next ≡ true)
passes->> check next h = ground arith

-- `fmt.Errorf("label: %w", err)`
abbrev pub within {ℓ} : {T : Type ℓ} → String → Result T → Result T
within label (err message) = err (append_string label (append_string ": " message))
within label (ok value) = ok value

pub passes-within : (label : String) (check : Checked) → passes (within label check) ≡ passes check
passes-within label check = ground arith

-- `for _, x := range xs { if err := check(x); err != nil { return err } }`
unfoldable pub check_each {ℓ} : {A : Type ℓ} → (A → Checked) → List A → Checked
check_each check [] = ok tt
check_each check (x ∷ xs) = check x >> check_each check xs

pub ok->> {κ} :
    {V : Type κ} (check : Checked) (next : Result V) (v : V)
    → (check >> next) ≡ ok v
    → (passes check ≡ true) × (next ≡ ok v)
ok->> (err message) next v h = cc
ok->> (ok tt) next v h = (refl, h)

pub ok->>= {ℓ κ} :
    {T : Type ℓ} {V : Type κ} (r : Result T) (next : T → Result V) (v : V)
    → (r >>= next) ≡ ok v
    → (t : T) × ((r ≡ ok t) × (next t ≡ ok v))
ok->>= (err message) next v h = cc
ok->>= (ok t) next v h = (t, (refl, h))

pub passes-refuse_if :
    (b : Bool) (message : String) → passes (refuse_if b message) ≡ true → b ≡ false
passes-refuse_if b message h = ground arith

pub ok-injective {ℓ} : {T : Type ℓ} (a b : T) → ok a ≡ ok b → a ≡ b
ok-injective a b h = cc

pub Result-cases {ℓ} :
    {T : Type ℓ} (r : Result T) → ((message : String) × (r ≡ err message)) ⊎ ((t : T) × (r ≡ ok t))
Result-cases (err message) = inl (message, refl)
Result-cases (ok t) = inr (t, refl)
