-- ===== src/ClusterMap/Configured.antt =====
-- Every cluster that is handed out is the configured one (src/ClusterMap.cc).
use kineticio.Prelude.{
  ◌<◌, ◌≡◌, refl, sym, subst, List, some, leb, arith, inl, inr, Bool-cases, Option-cases, bytes_eq,
  bytes_eq_refl, bytes_eq→eq, Result, ok, throw,
}
use kineticio.Str.{Bytes}
use kineticio.ClusterMap.{
  ClusterInformation, Cluster, ClusterMap, find, connect, make_cluster, add_cluster, build_cluster,
  get_cluster, reset, empty_map, Connection,
}

module _ (Options : Type 0) where
  -- The cluster is made from the present configuration of the id, all its drives are known, and it
  -- has more data than parity chunks.
  pub record IsConfigured (m : ClusterMap Options) (id : Bytes) (c : Cluster Options) : Type 0 where
    pub information : ClusterInformation
    pub connections : List (Connection Options)
    pub listed : find id m.cluster_info ≡ some information
    pub connected :
        connect Options m.drive_info information.min_reconnect_interval information.drives
        ≡ ok connections
    pub made : c ≡ make_cluster Options id information connections
    pub more_data : c.num_parity < c.num_data

  pub record IsValid (m : ClusterMap Options) : Type 0 where
    pub cached :
        (id : Bytes) (c : Cluster Options) → find id m.cluster_cache ≡ some c → IsConfigured m id c

  -- The steps of a map: a new configuration, or a request.
  pub data Reached : ClusterMap Options → Type 0 where
    start : Reached (empty_map Options)
    configure :
        {m : ClusterMap Options} (info : List (Bytes × ClusterInformation))
        (drives : List (Bytes × Options))
        → Reached m
        → Reached (reset Options info drives m)
    request :
        {m : ClusterMap Options} (id : Bytes) → Reached m → Reached (get_cluster Options id m).1

  module _ (m : ClusterMap Options) (id : Bytes) (c : Cluster Options) where
    IsConfigured-add_cluster :
        (i : Bytes) (d : Cluster Options)
        → IsConfigured m i d
        → IsConfigured (add_cluster Options id c m) i d
    unfolding add_cluster
    IsConfigured-add_cluster i d x = record {
      information = x.information;
      connections = x.connections;
      listed = x.listed;
      connected = x.connected;
      made = x.made;
      more_data = x.more_data;
    }

    find-add_cluster : find id (add_cluster Options id c m).cluster_cache ≡ some c
    unfolding add_cluster find
    find-add_cluster = rw (bytes_eq_refl id)

    add_cluster-IsValid : IsValid m → IsConfigured m id c → IsValid (add_cluster Options id c m)
    unfolding add_cluster find
    add_cluster-IsValid valid x = record {
      cached = λ i d h. elim (Bool-cases (bytes_eq i id)) [
        | inl e ↦
            let same : c ≡ d = ground arith in
            subst (λ y. IsConfigured (add_cluster Options id c m) i y) same
              (subst (λ j. IsConfigured (add_cluster Options id c m) j c) (sym (bytes_eq→eq i id e))
                (IsConfigured-add_cluster id c x))
        | inr e ↦ IsConfigured-add_cluster i d (valid.cached i d (ground arith))
      ];
    }

  -- A request keeps the map valid, and what it returns is configured and found again.
  abbrev Served : Bytes → Result (Cluster Options) × ClusterMap Options → Type 0
  Served id (r, m) =
      IsValid m
      × ((c : Cluster Options)
          → r ≡ ok c
          → IsConfigured m id c × (find id m.cluster_cache ≡ some c))

  build_cluster-Served :
      (id : Bytes) (ki : ClusterInformation) (m : ClusterMap Options)
      → IsValid m
      → find id m.cluster_info ≡ some ki
      → Served id (build_cluster Options id ki m)
  unfolding build_cluster
  build_cluster-Served id ki m valid listed =
      by_connections (connect Options m.drive_info ki.min_reconnect_interval ki.drives) refl
    where
      by_connections :
          (r : Result (List (Connection Options)))
          → connect Options m.drive_info ki.min_reconnect_interval ki.drives ≡ r
          → Served id (build_cluster Options id ki m)
      by_connections (throw e) h = rw (h, build_cluster) (valid, λ c k. cc)
      by_connections (ok cs) h = elim (Bool-cases (leb ki.num_data ki.num_parity)) [
        | inl few ↦ rw (h, build_cluster, few) (valid, λ c k. cc)
        | inr more ↦
            let c = make_cluster Options id ki cs in
            let x : IsConfigured m id c = record {
              information = ki;
              connections = cs;
              listed = listed;
              connected = h;
              made = refl;
              more_data = ground arith;
            } in
            rw (h, build_cluster, more)
              (
                add_cluster-IsValid m id c valid x,
                λ d k.
                    let same : c ≡ d = cc in
                    subst
                      (λ y.
                        IsConfigured (add_cluster Options id c m) id y
                        × (find id (add_cluster Options id c m).cluster_cache ≡ some y))
                      same (IsConfigured-add_cluster m id c id c x, find-add_cluster m id c),
              )
      ]

  get_cluster-Served :
      (id : Bytes) (m : ClusterMap Options) → IsValid m → Served id (get_cluster Options id m)
  unfolding get_cluster
  get_cluster-Served id m valid = elim (Option-cases (find id m.cluster_cache)) [
    | inr (c, e) ↦
        rw (e, get_cluster)
          (
            valid,
            λ d k.
                let same : c ≡ d = cc in
                let found : find id m.cluster_cache ≡ some d = cc in
                (valid.cached id d found, found),
          )
    | inl e ↦ elim (Option-cases (find id m.cluster_info)) [
      | inl f ↦ rw (e, get_cluster, f) (valid, λ d k. cc)
      | inr (ki, f) ↦ rw (e, get_cluster, f) (build_cluster-Served id ki m valid f)
    ]
  ]

  Reached-IsValid : {m : ClusterMap Options} → Reached m → IsValid m
  unfolding empty_map reset find
  Reached-IsValid start = record { cached = λ i d h. cc }
  Reached-IsValid (configure info drives r) = record { cached = λ i d h. cc }
  Reached-IsValid (request {m} id r) = (get_cluster-Served id m (Reached-IsValid r)).0

  get_cluster-cached :
      (id : Bytes) (m : ClusterMap Options) (c : Cluster Options)
      → find id m.cluster_cache ≡ some c
      → get_cluster Options id m ≡ (ok c, m)
  unfolding get_cluster
  get_cluster-cached id m c e = rw (e, get_cluster)

  -- In a map that was reached by configurations and requests, a cluster that is handed out is made
  -- from the id's present configuration with all its drives known and more data than parity chunks,
  -- and a second request returns the same one and leaves the map as it is.
  pub get_cluster-IsConfigured :
      {m : ClusterMap Options} (id : Bytes) (c : Cluster Options)
      → Reached m
      → (get_cluster Options id m).0 ≡ ok c
      → IsConfigured (get_cluster Options id m).1 id c
        × (get_cluster Options id (get_cluster Options id m).1
            ≡ (ok c, (get_cluster Options id m).1))
  get_cluster-IsConfigured {m} id c reached h =
      let (x, found) = (get_cluster-Served id m (Reached-IsValid reached)).1 c h in
      (x, get_cluster-cached id _ c found)
