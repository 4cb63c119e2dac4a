-- ===== src/Registration/Rbac.antt =====
-- pkg/utils/rbac.go: a role or a binding is made to exist, and brought up to date where its annotation
-- allows. The four functions of the source differ in the client and in the name that they print.
pub mod Ensured
use clusternet.Prelude.{
  String, Bool, true, false, Option, none, some, List, [], ◌∷◌, same_text, find, Result, ok, err,
  Message, text, about, if◌then◌else◌,
}
use clusternet.Utils.Resources.{Trouble, already_exists, trouble, Trying, Backoff}
use clusternet.Registration.{Meta, auto_update_annotation}

pub record PolicyRule : Type 0 where
  pub api_groups : List String
  pub resources : List String
  pub resource_names : List String
  pub verbs : List String

-- A ClusterRole, or a Role.
pub record Role : Type 0 where
  pub meta : Meta
  pub rules : List PolicyRule

pub record Subject : Type 0 where
  pub kind : String
  pub name : String
  pub namespace : String

pub record RoleRef : Type 0 where
  pub api_group : String
  pub kind : String
  pub name : String

-- A ClusterRoleBinding, or a RoleBinding.
pub record Binding : Type 0 where
  pub meta : Meta
  pub subjects : List Subject
  pub role_ref : RoleRef

-- The client of one kind of object `O`.
pub record Client (W O : Type 0) : Type 0 where
  pub create : O → W → Option Trouble × W
  pub get : W → String → String → Result O
  pub update : O → W → Option Message × W

abbrev pub may_auto_update : Meta → Bool
may_auto_update meta = elim (find auto_update_annotation meta.annotations) [
  | none ↦ false
  | some v ↦ same_text v "true"
]

-- `fmt.Errorf("failed to ensure …: %v", name, lastError)`.
abbrev pub ensure_failed : String → String → Option Message → Message
ensure_failed format name none = about format name (text "<nil>")
ensure_failed format name (some e) = about format name e

module _ {W O : Type 0} (client : Client W O) (meta_of : O → Meta) where
  -- The closure that the four functions try again.
  unfoldable pub try_ensure : O → Trying W → Bool × Trying W
  try_ensure o st =
      let (answer, w') = client.create o st.world in
      elim answer [
        | none ↦ (true, record { world = w'; last_error = none })
        | some (trouble e) ↦ (false, record { world = w'; last_error = some e })
        | some already_exists ↦ elim (client.get w' (meta_of o).namespace (meta_of o).name) [
          | err e ↦ (false, record { world = w'; last_error = some e })
          | ok found_object ↦ elim (may_auto_update (meta_of found_object)) [
            | false ↦ (true, record { world = w'; last_error = some (text "already exists") })
            | true ↦
                let (failure, w'') = client.update o w' in
                elim failure [
                  | some e ↦ (false, record { world = w''; last_error = some e })
                  | none ↦ (true, record { world = w''; last_error = none })
                ]
          ]
        ]
      ]

  unfoldable pub ensure : Backoff W → (format : String) → O → W → Option Message × W
  ensure backoff format o w =
      let (done, st) = backoff (try_ensure o) (record { world = w; last_error = none }) in
      elim done [
        | true ↦ (none, st.world)
        | false ↦ (some (ensure_failed format (meta_of o).name st.last_error), st.world)
      ]

module _ {W : Type 0} (backoff : Backoff W) where
  unfoldable pub ensure_cluster_role : Client W Role → Role → W → Option Message × W
  ensure_cluster_role client role w =
      ensure client (λ r. r.meta) backoff "failed to ensure ClusterRole %s: %v" role w

  unfoldable pub ensure_cluster_role_binding : Client W Binding → Binding → W → Option Message × W
  ensure_cluster_role_binding client binding w =
      ensure client (λ b. b.meta) backoff "failed to ensure ClusterRoleBinding %s: %v" binding w

  unfoldable pub ensure_role : Client W Role → Role → W → Option Message × W
  ensure_role client role w =
      ensure client (λ r. r.meta) backoff "failed to ensure Role %s: %v" role w

  unfoldable pub ensure_role_binding : Client W Binding → Binding → W → Option Message × W
  ensure_role_binding client binding w =
      ensure client (λ b. b.meta) backoff "failed to ensure RoleBinding %s: %v" binding w
