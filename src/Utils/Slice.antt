-- ===== src/Utils/Slice.antt =====
-- pkg/utils/slice.go: slices of strings, by which finalizers are kept.
use clusternet.Prelude.{
  String, Bool, true, false, not, ◌&&◌, ◌≡◌, refl, List, [], ◌∷◌, same_text, same_text_iff,
  if◌then◌else◌, arith,
}

unfoldable pub contains_string : List String → String → Bool
contains_string [] s = false
contains_string (item ∷ slice) s =
    let rest = contains_string slice s in if same_text item s then true else rest

-- A nil slice and an empty one are not told apart.
unfoldable pub remove_string : List String → String → List String
remove_string [] s = []
remove_string (item ∷ slice) s =
    let rest = remove_string slice s in if same_text item s then rest else item ∷ rest

-- After a string is removed, the slice contains exactly the other strings that it contained.
pub contains_string-remove_string :
    (slice : List String) (s t : String)
    → contains_string (remove_string slice s) t ≡ (contains_string slice t && not (same_text s t))
unfolding contains_string remove_string
contains_string-remove_string [] s t = refl
contains_string-remove_string (item ∷ slice) s t = ground (
  arith,
  same_text_iff item s,
  same_text_iff item t,
  same_text_iff s t,
  contains_string-remove_string slice s t,
)
