-- ===== src/Registration/Agent/Labels.antt =====
-- The names and the labels that pkg/agent/agent.go sends, as pkg/hub/approver and a reader of the
-- flag see them.
use Prim.Native.Char.{Char, code}
use Prim.Native.String.{◌++◌ as append_text}
use package.text.Mathlib.TextPositions.{starts_with-append, slice-append_right, len-append}
use package.text.Mathlib.TextLemmas.{nil-append, cons-append}
use clusternet.Prelude.{
  ℕ, String, Bool, true, false, ◌&&◌, List, [], ◌∷◌, ◌≡◌, refl, ◌∙◌, ap, put, arith, ◌==◌, map,
  none,
}
use clusternet.Hub.Api.{put_all}
use clusternet.Registration.{name_prefix}
use clusternet.Utils.Resources.Attempts.{IsTrying}
use clusternet.Registration.Requests.Writes.{IsRetrying}
use clusternet.Registration.Approver.{Hub, trim_prefix, handle_cluster_registration_requests}
use clusternet.Registration.Approver.Approval.{IsApproved, handle-IsApproved}
use clusternet.Registration.Agent.Names.{
  Options, generate_cluster_registration_request_name, new_cluster_registration_request, is_space,
  is_blank, split_at, add_label, add_labels, parse_cluster_labels,
}

pub trim_prefix-append : (p s : String) → trim_prefix (append_text p s) p ≡ s
unfolding trim_prefix
trim_prefix-append p s = rw (starts_with-append p s, len-append p s) (slice-append_right p s)

pub new_request-IsTrimmed :
    (options : Options) (id name : String)
    → trim_prefix (new_cluster_registration_request options id name).meta.name name_prefix
      ≡ (new_cluster_registration_request options id name).spec.cluster_id
unfolding new_cluster_registration_request generate_cluster_registration_request_name
new_request-IsTrimmed options id name = trim_prefix-append name_prefix id

-- A request that the agent makes, for any cluster ID and name, is not denied by the hub: if it is
-- handled without an error, it is approved, with the objects and the roles of its cluster. The
-- waits make an attempt, and try again after a conflict.
pub new_request-IsApproved :
    {W : Type 0} (hub : Hub W) (options : Options) (id name : String) (w w' : W)
    → IsTrying hub.credentials_backoff
    → IsRetrying hub.retry
    → handle_cluster_registration_requests hub (new_cluster_registration_request options id name) w
      ≡ (none, w')
    → IsApproved hub (new_cluster_registration_request options id name) w w'
unfolding new_cluster_registration_request
new_request-IsApproved hub options id name w w' trying retrying h =
    handle-IsApproved hub (new_cluster_registration_request options id name) w w' trying retrying
      (new_request-IsTrimmed options id name) refl h

-- The text has no character with this number.
abbrev pub Lacks : ℕ → String → Type 0
Lacks sep String.[] = Unit
Lacks sep (String.◌∷◌ c s) = (code c == sep ≡ false) × Lacks sep s

-- The flag that asks for these labels.
abbrev pub print_label : String × String → String
print_label (k, v) = append_text k (String.◌∷◌ "=" v)

abbrev pub print_labels : String × String → List (String × String) → String
print_labels l [] = print_label l
print_labels l (l' ∷ ls) = append_text (print_label l) (String.◌∷◌ "," (print_labels l' ls))

never : (b : Bool) → (b && false) ≡ false
never true = refl
never false = refl

and_false : (b : Bool) {x y : Bool} → (x ≡ false → y ≡ false) → (b && x) ≡ false → (b && y) ≡ false
and_false true f h = f h
and_false false f h = refl

pub split_at-Lacks : (sep : ℕ) (s : String) → Lacks sep s → split_at sep s ≡ s ∷ []
unfolding split_at
split_at-Lacks sep String.[] h = refl
split_at-Lacks sep (String.◌∷◌ c s) h = rw (split_at, h.0, split_at-Lacks sep s h.1) refl

pub split_at-append :
    (sep : ℕ) (c : Char) (s t : String)
    → (code c == sep) ≡ true
    → Lacks sep s
    → split_at sep (append_text s (String.◌∷◌ c t)) ≡ s ∷ split_at sep t
unfolding split_at
split_at-append sep c String.[] t e h = rw (nil-append (String.◌∷◌ c t), split_at, e) refl
split_at-append sep c (String.◌∷◌ d s) t e h =
    rw (cons-append d s (String.◌∷◌ c t), split_at, h.0, split_at-append sep c s t e h.1) refl

Lacks-append : (sep : ℕ) (s t : String) → Lacks sep s → Lacks sep t → Lacks sep (append_text s t)
Lacks-append sep String.[] t h h' = rw (nil-append t) h'
Lacks-append sep (String.◌∷◌ c s) t h h' = rw (cons-append c s t) (h.0, Lacks-append sep s t h.1 h')

-- Texts with a character that is no space.
is_blank-append : (s t : String) → is_blank s ≡ false → is_blank (append_text s t) ≡ false
unfolding is_blank
is_blank-append String.[] t h = absurd (ground (arith, h))
is_blank-append (String.◌∷◌ c s) t h =
    rw (cons-append c s t) (and_false (is_space (code c)) (is_blank-append s t) h)

is_blank-print : (k v : String) → is_blank (print_label (k, v)) ≡ false
unfolding is_blank
is_blank-print String.[] v = rw (nil-append (String.◌∷◌ "=" v)) refl
is_blank-print (String.◌∷◌ c k) v =
    rw (cons-append c k (String.◌∷◌ "=" v), is_blank, is_blank-print k v)
      (never (is_space (code c)))

-- A label of the flag: neither its key nor its value has a comma or an equals sign.
abbrev pub IsPlain : String × String → Type 0
IsPlain (k, v) = Lacks b'=' k × Lacks b'=' v × Lacks b',' k × Lacks b',' v

abbrev pub ArePlain : List (String × String) → Type 0
ArePlain [] = Unit
ArePlain (l ∷ ls) = IsPlain l × ArePlain ls

print_label-Lacks : (l : String × String) → IsPlain l → Lacks b',' (print_label l)
print_label-Lacks (k, v) h = Lacks-append b',' k (String.◌∷◌ "=" v) h.2 (refl, h.3)

add_label-print :
    (l : String × String) (m : List (String × String))
    → IsPlain l
    → add_label (split_at b'=' (print_label l)) m ≡ put l.0 l.1 m
unfolding add_label
add_label-print (k, v) m h =
    rw (split_at-append b'=' "=" k v refl h.0, split_at-Lacks b'=' v h.1) refl

split_at-print :
    (l : String × String) (ls : List (String × String))
    → ArePlain (l ∷ ls)
    → split_at b',' (print_labels l ls) ≡ map print_label (l ∷ ls)
split_at-print l [] h = split_at-Lacks b',' (print_label l) (print_label-Lacks l h.0)
split_at-print l (l' ∷ ls) h =
    split_at-append b',' "," (print_label l) (print_labels l' ls) refl (print_label-Lacks l h.0)
    ∙ ap (λ x. print_label l ∷ x) (split_at-print l' ls h.1)

add_labels-print :
    (ls m : List (String × String)) → ArePlain ls → add_labels (map print_label ls) m ≡ put_all ls m
unfolding add_labels
add_labels-print [] m h = refl
add_labels-print ((k, v) ∷ ls) m h =
    ap (add_labels (map print_label ls)) (add_label-print (k, v) m h.0)
    ∙ add_labels-print ls (put k v m) h.1

-- Labels whose keys and values have no comma and no equals sign, printed the way the flag is
-- written, are parsed into the map that has them, a later one over an earlier one of its key.
pub parse_cluster_labels-print :
    (l : String × String) (ls : List (String × String))
    → ArePlain (l ∷ ls)
    → parse_cluster_labels (print_labels l ls) ≡ put_all (l ∷ ls) []
unfolding parse_cluster_labels
parse_cluster_labels-print l ls h =
    rw (parse_cluster_labels, blank l ls, split_at-print l ls h) (add_labels-print (l ∷ ls) [] h)
  where
    blank :
        (l : String × String) (ls : List (String × String)) → is_blank (print_labels l ls) ≡ false
    blank (k, v) [] = is_blank-print k v
    blank (k, v) (l' ∷ ls) = is_blank-append (print_label (k, v)) _ (is_blank-print k v)
