-- ===== src/Prelude/Keys.antt =====
-- Texts as keys: maps as association lists, and sets of texts as lists.
use Prim.Native.String.{String}
use mathlib.Core.Path.{◌≡◌, refl}
use mathlib.Core.Logic.{◌↔◌}
use mathlib.Core.Bool.{Bool, true, false, ◌||◌}
use mathlib.Core.Option.{Option, none, some}
use mathlib.Core.List.{List, [], ◌∷◌}
use native.Mathlib.Omega.{arith}
use text.Mathlib.Text.{◌==◌ as text_beq}
use text.Mathlib.TextEquality.{eq_iff}
use clusternet.Prelude.Tests.{if◌then◌else◌}

-- `a == b` of Go on two strings.
abbrev pub same_text : String → String → Bool
same_text a b = text_beq a b

pub same_text_iff : (a b : String) → (same_text a b ≡ true) ↔ (a ≡ b)
same_text_iff a b = eq_iff a b

abbrev pub contains : String → List String → Bool
contains k [] = false
contains k (x ∷ xs) = same_text x k || contains k xs

module _ {ℓ} {V : Type ℓ} where
  -- `m[k]`, with `none` for a missing key.
  abbrev pub find : String → List (String × V) → Option V
  find k [] = none
  find k ((j, v) ∷ m) = if same_text j k then some v else find k m

  -- `m[k] = v`.
  abbrev pub put : String → V → List (String × V) → List (String × V)
  put k v [] = (k, v) ∷ []
  put k v ((j, w) ∷ m) = if same_text j k then (j, v) ∷ m else (j, w) ∷ put k v m

  -- `delete(m, k)`.
  abbrev pub remove : String → List (String × V) → List (String × V)
  remove k [] = []
  remove k ((j, w) ∷ m) = let rest = remove k m in if same_text j k then rest else (j, w) ∷ rest

  pub find-put :
      (k j : String) (v : V) (m : List (String × V))
      → find j (put k v m) ≡ (if same_text k j then some v else find j m)
  find-put k j v [] = refl
  find-put k j v ((i, w) ∷ m) = ground (arith, eq_iff k j, eq_iff i k, eq_iff i j, find-put k j v m)

  pub find-remove :
      (k j : String) (m : List (String × V))
      → find j (remove k m) ≡ (if same_text k j then none else find j m)
  find-remove k j [] = ground (arith, eq_iff k j)
  find-remove k j ((i, w) ∷ m) =
      ground (arith, eq_iff k j, eq_iff i k, eq_iff i j, find-remove k j m)

  abbrev pub is_key : String → List (String × V) → Bool
  is_key k [] = false
  is_key k ((j, v) ∷ m) = same_text j k || is_key k m

  pub is_key-put :
      (k j : String) (v : V) (m : List (String × V))
      → is_key k (put j v m) ≡ (same_text j k || is_key k m)
  is_key-put k j v [] = ground arith
  is_key-put k j v ((i, w) ∷ m) =
      ground (arith, eq_iff i j, eq_iff i k, eq_iff j k, is_key-put k j v m)

  pub is_key-remove :
      (k j : String) (m : List (String × V))
      → same_text j k ≡ false
      → is_key k (remove j m) ≡ is_key k m
  is_key-remove k j [] h = refl
  is_key-remove k j ((i, w) ∷ m) h =
      ground (arith, eq_iff j k, eq_iff i j, eq_iff i k, is_key-remove k j m)

  pub find-is_key : (k : String) (m : List (String × V)) → is_key k m ≡ false → find k m ≡ none
  find-is_key k [] h = refl
  find-is_key k ((i, w) ∷ m) h = ground (arith, find-is_key k m)
