-- ===== src/Scheduler/Algorithm/Filters.antt =====
-- findClustersThatPassFilters of pkg/scheduler/algorithm/generic.go: which clusters it returns.
use mathlib.Core.List.{Memᴰ}
use mathlib.Core.Path.{subst}
use clusternet.Prelude.{
  ℕ, ◌+◌, ◌≤◌, ◌≡◌, refl, ◌⊎◌, inl, inr, String, true, false, Option, none, some, List, [], ◌∷◌,
  ◌++◌, length, length-append, arith, All, All-append, Message, ltb, if-both, same_text,
  same_text_iff, find, find-put, Bool, put, ap, sym, ◌∙◌, All-get_elem?, ◌%◌,
}
use clusternet.Scheduler.Api.{ManagedCluster, Subscription}
use clusternet.Scheduler.Status.{Status, error, is_success, failure_of, same_code}
use clusternet.Scheduler.Filter.{failing}
use clusternet.Scheduler.Filter.Verdict.{failing-success, failing-failure}
use clusternet.Scheduler.FrameworkImpl.{FrameworkImpl}
use clusternet.Scheduler.Algorithm.{
  Found, cluster_at, send_error, filter_status, check_cluster, check_clusters, insert_name,
}

mem_left {ℓ} : {A : Type ℓ} {x : A} {xs : List A} (ys : List A) → Memᴰ x xs → Memᴰ x (xs ++ ys)
mem_left ys (Memᴰ.head e) = Memᴰ.head e
mem_left ys (Memᴰ.tail m) = Memᴰ.tail (mem_left ys m)

mem_last {ℓ} : {A : Type ℓ} (x : A) (xs : List A) → Memᴰ x (xs ++ x ∷ [])
mem_last x [] = Memᴰ.head refl
mem_last x (y ∷ xs) = Memᴰ.tail (mem_last x xs)

failing-some : (o : Option Status) (s : Status) → failing o ≡ some s → o ≡ some s
unfolding failing
failing-some none s h = cc
failing-some (some t) s h = ground arith

not_over : (a b : ℕ) → ltb a b ≡ false → b ≤ a
not_over a b h = ground arith

module _ {W S : Type 0} (key : ManagedCluster → String) (fwk : FrameworkImpl W S) (w : W)
    (sub : Subscription S) (num : ℕ) where
  abbrev step : ManagedCluster → Found → Found
  step c st = check_cluster key fwk w sub num c st

  abbrev visit : Option ManagedCluster → Found → Found
  visit o st = elim o [ none ↦ st | some d ↦ step d st ]

  abbrev noted : ManagedCluster → Status → Found → Found
  noted c s st = record st {
    diagnosis = record {
      cluster_to_status_map = put (key c) s st.diagnosis.cluster_to_status_map;
      unschedulable_plugins = insert_name s.failed_plugin st.diagnosis.unschedulable_plugins;
    };
  }

  check_cluster-cases {κ} :
      (P : Found → Type κ) (c : ManagedCluster) (st : Found)
      → P (record st { cancelled = true })
      → (is_success (filter_status fwk w sub c) ≡ true
          → length st.feasible + 1 ≤ num
          → P (record st { feasible = st.feasible ++ c ∷ [] }))
      → ((e : Message) → P (send_error e st))
      → ((s : Status)
          → filter_status fwk w sub c ≡ some s
          → is_success (filter_status fwk w sub c) ≡ false
          → P (noted c s st))
      → P (step c st)
  unfolding check_cluster
  check_cluster-cases P c st over found failed note = go (failing (filter_status fwk w sub c)) refl
    where
      go : (o : Option Status) → failing (filter_status fwk w sub c) ≡ o → P (step c st)
      go none e =
          rw (e, check_cluster)
            (if-both P (ltb num (length st.feasible + 1)) _ _ (λ _. over)
              (λ l.
                found (failing-success (filter_status fwk w sub c) e)
                  (not_over num (length st.feasible + 1) l)))
      go (some s) e =
          rw (e, check_cluster)
            (if-both P (same_code s.code error) _ _ (λ _. failed (failure_of s))
              (λ _.
                note s (failing-some (filter_status fwk w sub c) s e)
                  (failing-failure (filter_status fwk w sub c) s e)))

  -- At most `num` clusters are found, and each has `P` and passes all filter plugins.
  pub record IsSound (P : ManagedCluster → Type 0) (st : Found) : Type 0 where
    pub bounded : length st.feasible ≤ num
    pub passed :
        All
          (λ (c : ManagedCluster). P c × (is_success (filter_status fwk w sub c) ≡ true))
          st.feasible

  -- The diagnosis has the status that the filter plugins gave, which is no success: that of this
  -- cluster, or of another one with its key.
  abbrev pub Noted : ManagedCluster → Found → Type 0
  Noted c st =
      (d : ManagedCluster) × (s : Status) × (key d ≡ key c)
      × (filter_status fwk w sub d ≡ some s)
      × (is_success (filter_status fwk w sub d) ≡ false)
      × (find (key c) st.diagnosis.cluster_to_status_map ≡ some s)

  -- A cluster passes the filter plugins and is found, or its status is noted.
  abbrev pub Listed : ManagedCluster → Found → Type 0
  Listed c st = (Memᴰ c st.feasible × (is_success (filter_status fwk w sub c) ≡ true)) ⊎ Noted c st

  noted-Noted :
      (c d : ManagedCluster) (s : Status) (st : Found)
      → key d ≡ key c
      → filter_status fwk w sub d ≡ some s
      → is_success (filter_status fwk w sub d) ≡ false
      → Noted c (noted d s st)
  noted-Noted c d s st e f b = (
    d,
    s,
    e,
    f,
    b,
    find-put (key d) (key c) s st.diagnosis.cluster_to_status_map
        ∙ simp ((same_text_iff (key d) (key c)).1 e),
  )

  noted-keeps :
      (c d : ManagedCluster) (s : Status) (st : Found)
      → filter_status fwk w sub d ≡ some s
      → is_success (filter_status fwk w sub d) ≡ false
      → Noted c st
      → Noted c (noted d s st)
  noted-keeps c d s st f b (d', s', e', f', b', look) = go (same_text (key d) (key c)) refl
    where
      go : (x : Bool) → same_text (key d) (key c) ≡ x → Noted c (noted d s st)
      go true x = noted-Noted c d s st ((same_text_iff (key d) (key c)).0 x) f b
      go false x = (
        d',
        s',
        e',
        f',
        b',
        find-put (key d) (key c) s st.diagnosis.cluster_to_status_map ∙ simp (x, look),
      )

  check_cluster-IsSound :
      (P : ManagedCluster → Type 0) (c : ManagedCluster) (st : Found)
      → P c
      → IsSound P st
      → IsSound P (step c st)
  unfolding send_error
  check_cluster-IsSound P c st p h =
      check_cluster-cases (IsSound P) c st (record { bounded = h.bounded; passed = h.passed })
        (λ good fits. record {
          bounded = rw (length-append st.feasible (c ∷ [])) fits;
          passed = All-append _ st.feasible (c ∷ []) h.passed ((p, good), tt);
        })
        (λ e. record { bounded = h.bounded; passed = h.passed })
        (λ s f b. record { bounded = h.bounded; passed = h.passed })

  check_cluster-Listed : (c d : ManagedCluster) (st : Found) → Listed c st → Listed c (step d st)
  unfolding send_error
  check_cluster-Listed c d st h =
      check_cluster-cases (Listed c) d st h
        (λ good fits. elim h [ inl m ↦ inl (mem_left (d ∷ []) m.0, m.1) | inr k ↦ inr k ]) (λ e. h)
        (λ s f b. elim h [ inl m ↦ inl m | inr k ↦ inr (noted-keeps c d s st f b k) ])

  check_cluster_self :
      (c : ManagedCluster) (st : Found)
      → (step c st).cancelled ≡ false
      → Listed c (step c st) × (st.cancelled ≡ false)
  unfolding send_error
  check_cluster_self c st =
      check_cluster-cases (λ t. t.cancelled ≡ false → Listed c t × (st.cancelled ≡ false)) c st
        (λ h. ground arith) (λ good fits h. (inl (mem_last c st.feasible, good), h))
        (λ e h. ground arith) (λ s f b h. (inr (noted-Noted c c s st refl f b), h))

  pub check_clusters-IsSound :
      (P : ManagedCluster → Type 0) (clusters : List ManagedCluster)
      → All P clusters
      → (start : ℕ) (order : List ℕ) (st : Found) → IsSound P st
      → IsSound P (check_clusters key fwk w sub num clusters start order st)
  unfolding check_clusters cluster_at
  check_clusters-IsSound P clusters p start [] st h = h
  check_clusters-IsSound P clusters p start (i ∷ order) st h =
      check_clusters-IsSound P clusters p start order _ (go (cluster_at clusters start i) refl)
    where
      go : (o : Option ManagedCluster) → cluster_at clusters start i ≡ o → IsSound P (visit o st)
      go none e = h
      go (some c) e =
          check_cluster-IsSound P c st
            (All-get_elem? P clusters ((start + i) % length clusters) p e) h

  check_clusters-Listed :
      (c : ManagedCluster) (clusters : List ManagedCluster) (start : ℕ) (order : List ℕ)
      (st : Found)
      → Listed c st
      → Listed c (check_clusters key fwk w sub num clusters start order st)
  unfolding check_clusters
  check_clusters-Listed c clusters start [] st h = h
  check_clusters-Listed c clusters start (i ∷ order) st h =
      check_clusters-Listed c clusters start order _ (go (cluster_at clusters start i))
    where
      go : (o : Option ManagedCluster) → Listed c (visit o st)
      go none = h
      go (some d) = check_cluster-Listed c d st h

  check_clusters_uncancelled :
      (clusters : List ManagedCluster) (start : ℕ) (order : List ℕ) (st : Found)
      → (check_clusters key fwk w sub num clusters start order st).cancelled ≡ false
      → st.cancelled ≡ false
  unfolding check_clusters
  check_clusters_uncancelled clusters start [] st h = h
  check_clusters_uncancelled clusters start (i ∷ order) st h =
      go (cluster_at clusters start i) (check_clusters_uncancelled clusters start order _ h)
    where
      go : (o : Option ManagedCluster) → (visit o st).cancelled ≡ false → st.cancelled ≡ false
      go none k = k
      go (some d) k = (check_cluster_self d st k).1

  -- When no piece of work has stopped the search, each cluster that was checked passes the filter
  -- plugins and is found, or its status, which is no success, is noted in the diagnosis under its
  -- key, where another cluster with the same key may have put its own.
  pub check_clusters_complete :
      (clusters : List ManagedCluster) (start : ℕ) (order : List ℕ) (st : Found)
      → (check_clusters key fwk w sub num clusters start order st).cancelled ≡ false
      → (c : ManagedCluster) (i : ℕ) → Memᴰ i order
      → cluster_at clusters start i ≡ some c
      → Listed c (check_clusters key fwk w sub num clusters start order st)
  unfolding check_clusters
  check_clusters_complete clusters start [] st h c i m found = elim m [ ]
  check_clusters_complete clusters start (i ∷ order) st h c i' (Memᴰ.head e) found =
      check_clusters-Listed c clusters start order _ (
        go (cluster_at clusters start i) (ap (cluster_at clusters start) (sym e) ∙ found)
          (check_clusters_uncancelled clusters start order _ h))
    where
      go :
          (o : Option ManagedCluster)
          → o ≡ some c
          → (visit o st).cancelled ≡ false
          → Listed c (visit o st)
      go none eq k = ground arith
      go (some d) eq k =
          subst (λ x. Listed x (step d st)) (ground arith) (check_cluster_self d st k).0
  check_clusters_complete clusters start (j ∷ order) st h c i (Memᴰ.tail m) found =
      check_clusters_complete clusters start order _ h c i m found
