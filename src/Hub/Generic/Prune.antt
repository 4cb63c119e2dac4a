-- ===== src/Hub/Generic/Prune.antt =====
-- What PruneFeedsInDescription of pkg/hub/deployer/generic/generic.go deletes, and what it spares.
use clusternet.Prelude.{
  String, Bool, true, false, Option, none, some, List, [], ◌∷◌, ◌++◌, ◌≡◌, ◌≢◌, ◌⊎◌, inl, inr, refl,
  same_text, Result, ok, err, Message, All,
}
use clusternet.Utils.Slice.{contains_string}
use clusternet.Utils.Resources.{ResourceApi, Backoff, delete_resource_with_retry}
use clusternet.Utils.Resources.Attempts.{IsTrying}
use clusternet.Utils.Resources.Keeps.{delete_resource-keeps}
use clusternet.Utils.Resources.Deletion.{DeletionLaws, delete_resource-Gone, delete_resource-stays}
use clusternet.Hub.Bases.Keys.{aggregate-none}
use clusternet.Hub.Generic.{
  desired_resources, resources_to_be_deleted, prune_each, prune_feeds_in_description,
}

-- A request to delete a resource leaves a resource of another name where it is.
abbrev pub IsSparing : {W R : Type 0} → ResourceApi W R → (R → String) → (R → W → Type 0) → Type 0
IsSparing {W} {R} api name_of Present =
    (r s : R) (w : W) → name_of r ≢ name_of s → Present r w → Present r (api.delete s w).1

module _ {W R : Type 0} (api : ResourceApi W R) (backoff : Backoff W) (trying : IsTrying backoff)
    (name_of : R → String) where
  module _ (Present : R → W → Type 0) (sparing : IsSparing api name_of Present) where
    prune_each-spares :
        (r : R) (resources : List R) (w : W)
        → All (λ (s : R). name_of r ≢ name_of s) resources
        → Present r w
        → Present r (prune_each api backoff name_of resources w).1
    unfolding prune_each
    prune_each-spares r [] w h k = k
    prune_each-spares r (s ∷ resources) w h k =
        prune_each-spares r resources (delete_resource_with_retry api backoff s w).1 h.1
          (delete_resource-keeps api backoff trying (Present r) s (λ v p. sparing r s v h.0 p) w k)

    to_be_deleted-undesired :
        (r : R) (desired objects : List String)
        → contains_string desired (name_of r) ≡ true
        → All
            (λ (s : R). name_of r ≢ name_of s)
            (resources_to_be_deleted api backoff name_of desired objects).0
    unfolding resources_to_be_deleted
    to_be_deleted-undesired r desired [] h = tt
    to_be_deleted-undesired r desired (o ∷ objects) h =
        read (api.unmarshal o) refl (to_be_deleted-undesired r desired objects h)
      where
        Rest : Type 0
        Rest =
            All (λ (s : R). name_of r ≢ name_of s)
              (resources_to_be_deleted api backoff name_of desired objects).0

        Goal : Type 0
        Goal =
            All (λ (s : R). name_of r ≢ name_of s)
              (resources_to_be_deleted api backoff name_of desired (o ∷ objects)).0

        check :
            (s : R) (b : Bool)
            → api.unmarshal o ≡ ok s
            → contains_string desired (name_of s) ≡ b
            → Rest
            → Goal
        check s true e d rest = rw (resources_to_be_deleted, e, d) rest
        check s false e d rest = rw (resources_to_be_deleted, e, d) (λ same. cc, rest)

        read : (a : Result R) → api.unmarshal o ≡ a → Rest → Goal
        read (err m) e rest = rw (resources_to_be_deleted, e) rest
        read (ok s) e rest = check s (contains_string desired (name_of s)) e refl rest

    -- If a request to delete a resource leaves a resource of another name where it is, and a wait
    -- with backoff makes an attempt, PruneFeedsInDescription leaves every resource where it is
    -- whose name is that of an object of the desired Description that can be read.
    pub prune_feeds-spares :
        (client_error : Option Message) (deployer : String) (current desired : List String) (w : W)
        (r : R)
        → contains_string (desired_resources api backoff name_of desired).0 (name_of r) ≡ true
        → Present r w
        → Present r
            (prune_feeds_in_description api backoff name_of client_error deployer current desired
              w).1
    unfolding prune_feeds_in_description
    prune_feeds-spares client_error deployer current desired w r h k =
        go (same_text deployer "Helm") client_error refl refl
      where
        Goal : Type 0
        Goal =
            Present r
              (prune_feeds_in_description api backoff name_of client_error deployer current desired
                w).1

        go :
            (b : Bool) (o : Option Message)
            → same_text deployer "Helm" ≡ b
            → client_error ≡ o
            → Goal
        go true o e d = rw (prune_feeds_in_description, e) k
        go false (some m) e d = rw (prune_feeds_in_description, e, d) k
        go false none e d =
            let names = (desired_resources api backoff name_of desired).0 in
            rw (prune_feeds_in_description, e, d)
              (prune_each-spares r (resources_to_be_deleted api backoff name_of names current).0 w
                (to_be_deleted-undesired r names current h) k)

  module _ (Gone : R → W → Type 0) (laws : DeletionLaws api Gone) where
    prune_each-stays :
        (r : R) (resources : List R) (w : W)
        → Gone r w
        → Gone r (prune_each api backoff name_of resources w).1
    unfolding prune_each
    prune_each-stays r [] w h = h
    prune_each-stays r (s ∷ resources) w h =
        prune_each-stays r resources (delete_resource_with_retry api backoff s w).1
          (delete_resource-stays api backoff Gone trying laws r s w h)

    prune_each-Gone :
        (resources : List R) (w : W)
        → (prune_each api backoff name_of resources w).0 ≡ []
        → All (λ (r : R). Gone r (prune_each api backoff name_of resources w).1) resources
    unfolding prune_each
    prune_each-Gone [] w h = tt
    prune_each-Gone (s ∷ resources) w h =
        let v = (delete_resource_with_retry api backoff s w).1 in
        let done = no_error (delete_resource_with_retry api backoff s w).0 _ h in
        (
          prune_each-stays s resources v
              (delete_resource-Gone api backoff Gone trying laws s w done.0),
          prune_each-Gone resources v done.1,
        )
      where
        no_error :
            (o : Option Message) (errs : List Message)
            → (elim o as (λ _. List Message) [ none ↦ errs | some e ↦ e ∷ errs ]) ≡ []
            → (o ≡ none) × (errs ≡ [])
        no_error none errs e = (refl, e)
        no_error (some m) errs e = cc

    -- An object that can be read, and is desired or gone.
    abbrev pub IsPruned : List String → W → String → Type 0
    IsPruned desired w object =
        (r : R) × (api.unmarshal object ≡ ok r)
        × ((contains_string desired (name_of r) ≡ true) ⊎ Gone r w)

    to_be_deleted-IsPruned :
        (desired objects : List String) (w : W)
        → (resources_to_be_deleted api backoff name_of desired objects).1 ≡ []
        → All (λ (r : R). Gone r w) (resources_to_be_deleted api backoff name_of desired objects).0
        → All (IsPruned desired w) objects
    unfolding resources_to_be_deleted
    to_be_deleted-IsPruned desired [] w = λ h g. tt
    to_be_deleted-IsPruned desired (o ∷ objects) w =
        read (api.unmarshal o) refl (to_be_deleted-IsPruned desired objects w)
      where
        Goal : List String → Type 0
        Goal os =
            (resources_to_be_deleted api backoff name_of desired os).1 ≡ []
            → All (λ (r : R). Gone r w) (resources_to_be_deleted api backoff name_of desired os).0
            → All (IsPruned desired w) os

        check :
            (s : R) (b : Bool)
            → api.unmarshal o ≡ ok s
            → contains_string desired (name_of s) ≡ b
            → Goal objects
            → Goal (o ∷ objects)
        check s true e d rest =
            rw (resources_to_be_deleted, e, d) (λ h g. ((s, refl, inl d), rest h g))
        check s false e d rest =
            rw (resources_to_be_deleted, e, d) (λ h g. ((s, refl, inr g.0), rest h g.1))

        read : (a : Result R) → api.unmarshal o ≡ a → Goal objects → Goal (o ∷ objects)
        read (err m) e rest = rw (resources_to_be_deleted, e) (λ h. cc)
        read (ok s) e rest = check s (contains_string desired (name_of s)) e refl rest

    append-empty : (xs ys : List Message) → xs ++ ys ≡ [] → (xs ≡ []) × (ys ≡ [])
    append-empty [] ys e = (refl, e)
    append-empty (x ∷ xs) ys e = cc

    -- If a resource that is deleted or not found is gone and stays so, and a wait with backoff
    -- makes an attempt, PruneFeedsInDescription for a Description that Helm does not deploy returns
    -- nil only when every object of the current Description can be read, and is desired or its
    -- resource is gone.
    pub prune_feeds-IsPruned :
        (client_error : Option Message) (deployer : String) (current desired : List String) (w : W)
        → same_text deployer "Helm" ≡ false
        → (prune_feeds_in_description api backoff name_of client_error deployer current desired w).0
          ≡ none
        → All
            (IsPruned
              (desired_resources api backoff name_of desired).0
              (prune_feeds_in_description api backoff name_of client_error deployer current desired
                w).1)
            current
    unfolding prune_feeds_in_description
    prune_feeds-IsPruned (some m) deployer current desired w e =
        rw (prune_feeds_in_description, e) (λ h. cc)
    prune_feeds-IsPruned none deployer current desired w e =
        rw (prune_feeds_in_description, e)
          (λ h.
            let names = (desired_resources api backoff name_of desired).0 in
            let left = resources_to_be_deleted api backoff name_of names current in
            let errors =
              append-empty (desired_resources api backoff name_of desired).1 _
                (aggregate-none _ h) in
            let errors' = append-empty left.1 _ errors.1 in
            to_be_deleted-IsPruned names current (prune_each api backoff name_of left.0 w).1
              errors'.0 (prune_each-Gone left.0 w errors'.1))
