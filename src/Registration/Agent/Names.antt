-- ===== src/Registration/Agent/Names.antt =====
-- The names and the labels of pkg/agent/agent.go.
use Prim.Native.Char.{Char, code}
use Prim.Native.String.{◌++◌ as append_text}
use clusternet.Prelude.{
  ℕ, String, Bool, true, ◌&&◌, ◌||◌, none, List, [], ◌∷◌, same_text, put, leb, ◌==◌, if◌then◌else◌,
}
use clusternet.Hub.Api.{cluster_id_label, cluster_name_label}
use clusternet.Registration.{Request, RequestStatus, labelled, name_prefix, clusternet_agent_name}

pub record Options : Type 0 where
  pub cluster_name_prefix : String
  pub cluster_type : String
  pub cluster_sync_mode : String
  pub cluster_labels : String
  pub parent_url : String
  pub bootstrap_token : String

unfoldable pub generate_cluster_registration_request_name : String → String
generate_cluster_registration_request_name id = append_text name_prefix id

-- `random` is the text that utilrand.String makes.
unfoldable pub generate_cluster_name : String → Options → String → String
generate_cluster_name random options name =
    if same_text name ""
    then append_text options.cluster_name_prefix (append_text "-" random)
    else name

-- unicode.IsSpace.
abbrev pub is_space : ℕ → Bool
is_space c =
    (leb 9 c && leb c 13)
    || (c == 32)
    || (c == 133)
    || (c == 160)
    || (c == 5760)
    || (leb 8192 c && leb c 8202)
    || (c == 8232)
    || (c == 8233)
    || (c == 8239)
    || (c == 8287)
    || (c == 12288)

-- `strings.TrimSpace(s) == ""`.
unfoldable pub is_blank : String → Bool
is_blank String.[] = true
is_blank (String.◌∷◌ c s) = is_space (code c) && is_blank s

abbrev pub onto_first : Char → List String → List String
onto_first c [] = String.◌∷◌ c String.[] ∷ []
onto_first c (p ∷ ps) = String.◌∷◌ c p ∷ ps

-- `strings.Split(s, sep)` on one character.
unfoldable pub split_at : ℕ → String → List String
split_at sep String.[] = String.[] ∷ []
split_at sep (String.◌∷◌ c s) =
    let rest = split_at sep s in if code c == sep then String.[] ∷ rest else onto_first c rest

-- The body of the loop of parseClusterLabels.
unfoldable pub add_label : List String → List (String × String) → List (String × String)
add_label (k ∷ v ∷ []) m = put k v m
add_label _ m = m

unfoldable pub add_labels : List String → List (String × String) → List (String × String)
add_labels [] m = m
add_labels (l ∷ ls) m = add_labels ls (add_label (split_at b'=' l) m)

-- The map is nil, which is empty, for a blank text.
unfoldable pub parse_cluster_labels : String → List (String × String)
parse_cluster_labels labels = if is_blank labels then [] else add_labels (split_at b',' labels) []

abbrev pub no_status : RequestStatus
no_status = record {
  result = none;
  error_message = none;
  dedicated_namespace = "";
  managed_cluster_name = "";
  dedicated_token = none;
  ca_certificate = none;
}

unfoldable pub new_cluster_registration_request : Options → String → String → Request
new_cluster_registration_request options id name = record {
  meta =
      record (labelled (
        ("clusters.clusternet.io/registered-by", clusternet_agent_name)
        ∷ (cluster_id_label, id)
        ∷ (cluster_name_label, name)
        ∷ [])) { name = generate_cluster_registration_request_name id };
  spec = record {
    cluster_id = id;
    cluster_type = options.cluster_type;
    cluster_name = name;
    sync_mode = options.cluster_sync_mode;
    cluster_labels = parse_cluster_labels options.cluster_labels;
  };
  status = no_status;
}
