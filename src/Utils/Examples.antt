-- ===== src/Utils/Examples.antt =====
-- The helpers of pkg/utils at test data.
mod Deployment
use clusternet.Prelude.{String, not, ◌&&◌, ◌≡◌, List, [], ◌∷◌, same_text}
use clusternet.Utils.Slice.{contains_string, remove_string, contains_string-remove_string}

abbrev finalizers : List String
finalizers = "app" ∷ "feed" ∷ "app" ∷ []
