-- ===== src/Scheduler/Registry.antt =====
-- pkg/scheduler/framework/runtime/registry.go: the plugin factories by name. An operation returns the
-- registry that it leaves and its error.
use text.Mathlib.TextPositions.{eq_refl}
use clusternet.Prelude.{
  String, Bool, true, false, Option, none, some, List, [], ◌∷◌, ◌≡◌, refl, find, put, remove,
  is_key, if◌then◌else◌, Message, named, find-put, find-is_key, same_text_iff, arith, ap,
  is_key-put,
}

module _ {F : Type 0} where
  unfoldable pub register : String → F → List (String × F) → List (String × F) × Option Message
  register name factory r =
      if is_key name r
      then (r, some (named "a plugin named %v already exists" name))
      else (put name factory r, none)

  unfoldable pub unregister : String → List (String × F) → List (String × F) × Option Message
  unregister name r =
      if is_key name r
      then (remove name r, none)
      else (r, some (named "no plugin named %v exists" name))

  -- Merge, in the order in which the map `in` is read. It stops at the first name that exists.
  unfoldable pub merge_registry :
      List (String × F) → List (String × F) → List (String × F) × Option Message
  merge_registry [] r = (r, none)
  merge_registry ((name, factory) ∷ rest) r =
      let registered = register name factory r in
      let merged = merge_registry rest registered.0 in
      elim registered.1 [ none ↦ merged | some e ↦ (registered.0, some e) ]

  register-new :
      (k : String) (f : F) (r : List (String × F))
      → is_key k r ≡ false
      → register k f r ≡ (put k f r, none)
  unfolding register
  register-new k f r e = rw (e) refl

  register-old :
      (k : String) (f : F) (r : List (String × F))
      → is_key k r ≡ true
      → register k f r ≡ (r, some (named "a plugin named %v already exists" k))
  unfolding register
  register-old k f r e = rw (e) refl

  merge_registry-cons :
      (k : String) (f : F) (rest r : List (String × F)) (p : List (String × F) × Option Message)
      → register k f r ≡ p
      → merge_registry ((k, f) ∷ rest) r
        ≡ elim p.1 [ none ↦ merge_registry rest p.0 | some e ↦ (p.0, some e) ]
  unfolding merge_registry
  merge_registry-cons k f rest r p e =
      ap
        (λ (q : List (String × F) × Option Message).
          elim q.1 as (λ _. List (String × F) × Option Message) [
            | none ↦ merge_registry rest q.0
            | some m ↦ (q.0, some m)
          ])
        e

  -- The factory that is kept where both maps have one is the old one.
  abbrev pub first_of : Option F → Option F → Option F
  first_of (some f) g = some f
  first_of none g = g

  -- When Merge returns no error, every name has the factory of the registry, or else that of the map
  -- that is merged.
  pub find-merge_registry :
      (name : String) (in_map r : List (String × F))
      → (merge_registry in_map r).1 ≡ none
      → find name (merge_registry in_map r).0 ≡ first_of (find name r) (find name in_map)
  unfolding merge_registry
  find-merge_registry name [] r h = first_of-none (find name r)
    where
      first_of-none : (o : Option F) → o ≡ first_of o none
      first_of-none none = refl
      first_of-none (some g) = refl
  find-merge_registry name ((k, f) ∷ rest) r h =
      go (is_key k r) refl (find-merge_registry name rest (put k f r)) h
    where
      go :
          (b : Bool)
          → is_key k r ≡ b
          → ((merge_registry rest (put k f r)).1 ≡ none
              → find name (merge_registry rest (put k f r)).0
                ≡ first_of (find name (put k f r)) (find name rest))
          → (merge_registry ((k, f) ∷ rest) r).1 ≡ none
          → find name (merge_registry ((k, f) ∷ rest) r).0
            ≡ first_of (find name r) (find name ((k, f) ∷ rest))
      go true e ih q =
          let stopped = merge_registry-cons k f rest r _ (register-old k f r e) in
          absurd (ground (arith, (rw (stopped) at q)))
      go false e ih q =
          let merged = merge_registry-cons k f rest r _ (register-new k f r e) in
          rw (merged) (
            ground (
              arith,
              ih (rw (merged) at q),
              find-put k name f r,
              find-is_key k r e,
              same_text_iff k name,
            ))

  remove-put :
      (k : String) (f : F) (r : List (String × F)) → is_key k r ≡ false → remove k (put k f r) ≡ r
  remove-put k f [] e = ground (arith, eq_refl k)
  remove-put k f ((j, g) ∷ r) e = ground (arith, remove-put k f r)

  -- A new name that is registered, and then unregistered, leaves the registry as it was, with no error
  -- in either call.
  pub unregister-register :
      (name : String) (factory : F) (r : List (String × F))
      → is_key name r ≡ false
      → ((register name factory r).1 ≡ none)
        × (unregister name (register name factory r).0 ≡ (r, none))
  unfolding register unregister
  unregister-register name factory r e =
      rw (e)
        (refl, rw (is_key-put name name factory r, eq_refl name, remove-put name factory r e) refl)
