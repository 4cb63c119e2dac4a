-- ===== src/Hub/Localizer/Steps.antt =====
-- The overrides that applyOverrides of pkg/hub/localizer applies, one after the other.
use clusternet.Prelude.{
  String, Bool, true, false, ◌≤◌, List, [], ◌∷◌, ◌≡◌, refl, same_text, same_text_iff, ltb, Result,
  ok, err, ok_inj, arith,
}
use mathlib.Core.Path.{subst}
use clusternet.Hub.Localizer.{
  OverrideConfig, PatchLibrary, max_json_patch_operations, wrap, apply_json_patch,
  apply_helm_override, apply_override, apply_overrides,
}

module _ {P V : Type 0} (lib : PatchLibrary P V) where
  -- What an override, which is given as JSON, makes of a document.
  pub data Makes (c : OverrideConfig) (override document : String) : String → Type 0 where
    replaced : lib.is_blank document ≡ true → Makes c override document override
    coalesced :
        (result : String) (current values : V)
        → c.override_type ≡ "Helm"
        → lib.unmarshal document ≡ ok current
        → lib.unmarshal override ≡ ok values
        → lib.marshal (lib.coalesce values current) ≡ ok result
        → Makes c override document result
    patched :
        (result : String) (patch : P)
        → c.override_type ≡ "JSONPatch"
        → lib.decode_patch override ≡ ok patch
        → lib.operations patch ≤ max_json_patch_operations
        → lib.apply_patch patch document ≡ ok result
        → Makes c override document result
    merged :
        (result : String)
        → c.override_type ≡ "MergePatch"
        → lib.merge_patch document override ≡ ok result
        → Makes c override document result

  -- Blank overrides are skipped, the others are applied in turn.
  pub data Run : String → List OverrideConfig → String → Type 0 where
    ended : {document : String} → Run document [] document
    skipped :
        {document result : String} {c : OverrideConfig} {cs : List OverrideConfig}
        → lib.is_blank c.value ≡ true
        → Run document cs result
        → Run document (c ∷ cs) result
    applied :
        {document result : String} {c : OverrideConfig} {cs : List OverrideConfig}
        (override next : String)
        → lib.is_blank c.value ≡ false
        → lib.yaml_to_json c.value ≡ ok override
        → Makes c override document next
        → Run next cs result
        → Run document (c ∷ cs) result

  wrapped :
      (format name : String) (r : Result String) (s : String) → wrap format name r ≡ ok s → r ≡ ok s
  wrapped format name (ok a) s h = h
  wrapped format name (err e) s h = cc

  helm-Makes :
      (c : OverrideConfig) (o d n : String)
      → c.override_type ≡ "Helm"
      → apply_helm_override lib d o ≡ ok n
      → Makes c o d n
  unfolding apply_helm_override
  helm-Makes c o d n t = read (lib.unmarshal d) refl
    where
      values :
          (cur : V) (r : Result V)
          → lib.unmarshal d ≡ ok cur
          → lib.unmarshal o ≡ r
          → apply_helm_override lib d o ≡ ok n
          → Makes c o d n
      values cur (err e) x y = rw (apply_helm_override, x, y) (λ h. cc)
      values cur (ok v) x y = rw (apply_helm_override, x, y) (λ h. coalesced n cur v t x y h)

      read :
          (r : Result V) → lib.unmarshal d ≡ r → apply_helm_override lib d o ≡ ok n → Makes c o d n
      read (err e) x = rw (apply_helm_override, x) (λ h. cc)
      read (ok cur) x = values cur (lib.unmarshal o) x refl

  json-Makes :
      (c : OverrideConfig) (o d n : String)
      → c.override_type ≡ "JSONPatch"
      → apply_json_patch lib d o ≡ ok n
      → Makes c o d n
  unfolding apply_json_patch
  json-Makes c o d n t = read (lib.decode_patch o) refl
    where
      bounded :
          (p : P) (b : Bool)
          → lib.decode_patch o ≡ ok p
          → ltb max_json_patch_operations (lib.operations p) ≡ b
          → apply_json_patch lib d o ≡ ok n
          → Makes c o d n
      bounded p true x y = rw (apply_json_patch, x, y) (λ h. cc)
      bounded p false x y = rw (apply_json_patch, x, y) (λ h. patched n p t x (ground (arith, y)) h)

      read :
          (r : Result P) → lib.decode_patch o ≡ r → apply_json_patch lib d o ≡ ok n → Makes c o d n
      read (err e) x = rw (apply_json_patch, x) (λ h. cc)
      read (ok p) x = bounded p (ltb max_json_patch_operations (lib.operations p)) x refl

  apply_override-Makes :
      (c : OverrideConfig) (o d n : String) → apply_override lib c d o ≡ ok n → Makes c o d n
  unfolding apply_override
  apply_override-Makes c o d n =
      go (lib.is_blank d) (same_text c.override_type "Helm") (same_text c.override_type "JSONPatch")
        (same_text c.override_type "MergePatch") refl refl refl refl
    where
      go :
          (b helm json merge : Bool)
          → lib.is_blank d ≡ b
          → same_text c.override_type "Helm" ≡ helm
          → same_text c.override_type "JSONPatch" ≡ json
          → same_text c.override_type "MergePatch" ≡ merge
          → apply_override lib c d o ≡ ok n
          → Makes c o d n
      go true x y z e f g k =
          rw (apply_override, e) (λ h. subst (Makes c o d) (ok_inj h) (replaced e))
      go false true y z e f g k =
          rw (apply_override, e, f)
            λ h. helm-Makes c o d n ((same_text_iff c.override_type "Helm").0 f) (wrapped _ _ _ n h)
      go false false true z e f g k =
          rw (apply_override, e, f, g)
            λ h.
              json-Makes c o d n ((same_text_iff c.override_type "JSONPatch").0 g)
                (wrapped _ _ _ n h)
      go false false false true e f g k =
          rw (apply_override, e, f, g, k)
            λ h. merged n ((same_text_iff c.override_type "MergePatch").0 k) (wrapped _ _ _ n h)
      go false false false false e f g k = rw (apply_override, e, f, g, k) (λ h. cc)

  -- If applyOverrides returns a document, it comes from the given one by the overrides that are not
  -- blank, one after the other: each replaces a blank document, or is coalesced over its values, is
  -- applied to it as a JSON patch of no more operations than allowed, or is merged into it, as its
  -- type says.
  pub apply_overrides-Run :
      (document result : String) (cs : List OverrideConfig)
      → apply_overrides lib document cs ≡ ok result
      → Run document cs result
  unfolding apply_overrides
  apply_overrides-Run document result [] = λ h. subst (λ r. Run document [] r) (ok_inj h) ended
  apply_overrides-Run document result (c ∷ cs) =
      blank (lib.is_blank c.value) refl (λ d. apply_overrides-Run d result cs)
    where
      Rest : Type 0
      Rest = (d : String) → apply_overrides lib d cs ≡ ok result → Run d cs result

      Goal : Type 0
      Goal = apply_overrides lib document (c ∷ cs) ≡ ok result → Run document (c ∷ cs) result

      apply :
          (o : String) (r : Result String)
          → lib.is_blank c.value ≡ false
          → lib.yaml_to_json c.value ≡ ok o
          → apply_override lib c document o ≡ r
          → Rest
          → Goal
      apply o (err m) e d g rest = rw (apply_overrides, e, d, g) (λ h. cc)
      apply o (ok n) e d g rest =
          rw (apply_overrides, e, d, g)
            λ h. applied o n e d (apply_override-Makes c o document n g) (rest n h)

      convert :
          (r : Result String)
          → lib.is_blank c.value ≡ false
          → lib.yaml_to_json c.value ≡ r
          → Rest
          → Goal
      convert (err m) e d rest = rw (apply_overrides, e, d) (λ h. cc)
      convert (ok o) e d rest = apply o (apply_override lib c document o) e d refl rest

      blank : (b : Bool) → lib.is_blank c.value ≡ b → Rest → Goal
      blank true e rest = rw (apply_overrides, e) (λ h. skipped e (rest document h))
      blank false e rest = convert (lib.yaml_to_json c.value) e refl rest
