-- ===== src/Prelude/Errors.antt =====
-- Go's `error` values and `(value, error)` results. A message is kept as the values that it is
-- formatted from, so the texts that package fmt makes are not modelled.
use Prim.Native.String.{String}
use mathlib.Core.Path.{◌≡◌, subst}
use mathlib.Core.Option.{Option, none, some}
use mathlib.Core.List.{List, [], ◌∷◌}

pub data Message : Type 0 where
  -- "".
  empty : Message
  -- A literal text.
  text : String → Message
  -- `fmt.Errorf(format, name)` and `fmt.Errorf(format, name, err)`.
  named : (format name : String) → Message
  about : (format name : String) → Message → Message
  -- Two messages with ", " between them.
  join : Message → Message → Message

-- `strings.Join(messages, ", ")`.
unfoldable pub join_all : List Message → Message
join_all [] = empty
join_all (m ∷ []) = m
join_all (m ∷ n ∷ ms) = join m (join_all (n ∷ ms))

pub data Result {ℓ} (A : Type ℓ) : Type ℓ where
  ok : A → Result A
  err : Message → Result A

pub pair_of {ℓ κ} : {A : Type ℓ} {B : Type κ} (p : A × B) {a : A} → p.0 ≡ a → p ≡ (a, p.1)
pair_of (a, b) e = cc e

pub ok_inj {ℓ} : {A : Type ℓ} {a b : A} → ok a ≡ ok b → a ≡ b
ok_inj h = cc h

infixl 5 ◌>>=◌
abbrev pub ◌>>=◌ {ℓ κ} : {A : Type ℓ} {B : Type κ} → Result A → (A → Result B) → Result B
ok a >>= f = f a
err e >>= f = err e

-- `if err != nil { return err }` on a state: going on with a value, or when there is no error.
abbrev pub try_value {ℓ κ} :
    {A : Type ℓ} {W : Type κ} → Result A × W → (A → W → Option Message × W) → Option Message × W
try_value (err e, w) k = (some e, w)
try_value (ok a, w) k = k a w

abbrev pub try_none {ℓ} :
    {W : Type ℓ} → Option Message × W → (W → Option Message × W) → Option Message × W
try_none (some e, w) k = (some e, w)
try_none (none, w) k = k w

-- A result that is no error satisfies `P`.
module _ {ℓ κ} {A : Type ℓ} where
  abbrev pub Ensures : (A → Type κ) → Result A → Type κ
  Ensures P (ok a) = P a
  Ensures P (err e) = Unit

  pub Ensures-ok : (P : A → Type κ) (r : Result A) {a : A} → Ensures P r → r ≡ ok a → P a
  Ensures-ok P (ok b) h e = subst (Ensures P) e h
  Ensures-ok P (err b) h e = cc

module _ {ℓ κ μ ν} {A : Type ℓ} {B : Type κ} where
  pub Ensures-bind :
      (P : A → Type μ) (Q : B → Type ν) (m : Result A) (f : A → Result B)
      → Ensures P m
      → ((a : A) → P a → Ensures Q (f a))
      → Ensures Q (m >>= f)
  Ensures-bind P Q (ok a) f h k = k a h
  Ensures-bind P Q (err e) f h k = tt

pub Ensures-imp {ℓ κ μ} :
    {A : Type ℓ} (P : A → Type κ) (Q : A → Type μ) (r : Result A)
    → ((a : A) → P a → Q a)
    → Ensures P r
    → Ensures Q r
Ensures-imp P Q (ok a) f h = f a h
Ensures-imp P Q (err e) f h = tt
