-- ===== src/Hub/Bases/Keys.antt =====
-- Keys of Bases in the loops of populateBases of pkg/hub/deployer/deployer.go, and what may happen
-- to the Base at one.
use mathlib.Core.Path.{subst}
use clusternet.Prelude.{
  String, Bool, true, false, Option, none, some, List, [], ◌∷◌, ◌≡◌, refl, sym, ◌∙◌, arith,
  same_text, same_text_iff, Message, All, contains, if-both, ◌||◌, ◌&&◌, not,
}
use clusternet.Hub.Api.{Feed, Base, aggregate}
use clusternet.Hub.Bases.{BaseApi, note_error, remove_key}
use clusternet.Hub.Bases.Store.{IsSynced, IsGone}

pub contains-remove_key :
    (k j : String) (ks : List String)
    → contains j (remove_key k ks) ≡ (contains j ks && not (contains j (k ∷ [])))
contains-remove_key k j [] = refl
contains-remove_key k j (i ∷ ks) =
    ground
      (arith, same_text_iff k j, same_text_iff i k, same_text_iff i j, contains-remove_key k j ks)

pub All-remove_key :
    (P : String → Type 0) (k : String) (ks : List String) → All P ks → All P (remove_key k ks)
All-remove_key P k [] h = tt
All-remove_key P k (j ∷ ks) h =
    if-both (All P) (same_text j k) (remove_key k ks) (j ∷ remove_key k ks)
      (λ _. All-remove_key P k ks h.1) (λ _. (h.0, All-remove_key P k ks h.1))

-- A key that is to be deleted, before and after.
abbrev pub IsDeleted : Bool → Option Base → Option Base → Type 0
IsDeleted true v v' = IsGone v'
IsDeleted false v v' = v' ≡ v

-- A key that is to be synced.
abbrev pub IsUpdated : List Feed → Bool → Option Base → Option Base → Type 0
IsUpdated feeds true v v' = IsSynced feeds v'
IsUpdated feeds false v v' = v' ≡ v

-- A key after the work, by whether it is wanted and whether it was listed.
abbrev pub IsAsFor : List Feed → Bool → Bool → Option Base → Option Base → Type 0
IsAsFor feeds true listed v v' = IsSynced feeds v'
IsAsFor feeds false true v v' = IsGone v'
IsAsFor feeds false false v v' = v' ≡ v

pub and_false : (b : Bool) → (b && false) ≡ false
and_false b = ground arith

pub IsDeleted-or :
    (a b : Bool) (x y z : Option Base)
    → (a ≡ true → IsGone y)
    → (a ≡ false → y ≡ x)
    → IsDeleted b y z
    → IsDeleted (a || b) x z
IsDeleted-or true true x y z gone same h = h
IsDeleted-or true false x y z gone same h = subst IsGone (sym h) (gone refl)
IsDeleted-or false true x y z gone same h = h
IsDeleted-or false false x y z gone same h = h ∙ same refl

pub IsUpdated-at :
    (fs : List Feed) (a : Bool) (x y : Option Base)
    → (a ≡ true → IsSynced fs y)
    → (a ≡ false → y ≡ x)
    → IsUpdated fs (a || false) x y
IsUpdated-at fs true x y synced same = synced refl
IsUpdated-at fs false x y synced same = same refl

pub IsUpdated-trans :
    (fs : List Feed) (a b : Bool) (x y z : Option Base)
    → IsUpdated fs (a || false) x y
    → IsUpdated fs b y z
    → IsUpdated fs (a || b) x z
IsUpdated-trans fs true true x y z g h = h
IsUpdated-trans fs true false x y z g h = subst (IsSynced fs) (sym h) g
IsUpdated-trans fs false true x y z g h = h
IsUpdated-trans fs false false x y z g h = h ∙ g

pub aggregate-none : (errs : List Message) → aggregate errs ≡ none → errs ≡ []
aggregate-none [] h = refl
aggregate-none (m ∷ errs) h = cc

pub note_error-none :
    {W : Type 0} (api : BaseApi W) (e : Option Message) (errs : List Message)
    → note_error api e errs ≡ []
    → (e ≡ none) × (errs ≡ [])
unfolding note_error
note_error-none api none errs h = (refl, h)
note_error-none api (some m) [] h = cc
note_error-none api (some m) (x ∷ errs) h = cc
