-- ===== src/ClusterMap.antt =====
-- src/ClusterMap.cc: the clusters by their ids, made when they are first asked for. A hash map is an
-- association list. `Options` are the client library's two connection options of a drive. The
-- construction of the KineticAdminCluster itself is its arguments only, and the redundancy
-- providers are kept by their two numbers, of which the code makes a name.
pub mod Configured
use kineticio.Prelude.{
  ℕ, Bool, true, false, List, [], ◌∷◌, Option, none, some, leb, ◌==◌, ◌&&◌, ◌||◌, bytes_eq,
  if◌then◌else◌, Result, ok, throw, no_such_device, invalid_argument,
}
use kineticio.Str.{Bytes}

pub record ClusterInformation : Type 0 where
  pub num_data : ℕ
  pub num_parity : ℕ
  pub block_size : ℕ
  pub min_reconnect_interval : ℕ
  pub operation_timeout : ℕ
  pub drives : List Bytes

-- The value that a map has for a key.
unfoldable pub find : {A : Type 0} → Bytes → List (Bytes × A) → Option A
find key [] = none
find key ((k, a) ∷ m) = if bytes_eq key k then some a else find key m

-- rpCache.count
unfoldable pub has_provider : ℕ → ℕ → List (ℕ × ℕ) → Bool
has_provider d p [] = false
has_provider d p ((d', p') ∷ ps) = (d == d' && p == p') || has_provider d p ps

module _ (Options : Type 0) where
  -- What the constructor of KineticAutoConnection is given.
  pub record Connection : Type 0 where
    pub options : Options
    pub min_reconnect_interval : ℕ

  -- What the constructor of KineticAdminCluster is given, with the provider's numbers.
  pub record Cluster : Type 0 where
    pub id : Bytes
    pub block_size : ℕ
    pub operation_timeout : ℕ
    pub connections : List Connection
    pub num_data : ℕ
    pub num_parity : ℕ

  pub record ClusterMap : Type 0 where
    pub cluster_info : List (Bytes × ClusterInformation)
    pub drive_info : List (Bytes × Options)
    pub cluster_cache : List (Bytes × Cluster)
    pub provider_cache : List (ℕ × ℕ)

  -- The loop over the drives.
  unfoldable pub connect : List (Bytes × Options) → ℕ → List Bytes → Result (List Connection)
  unfolding find
  connect drive_info interval [] = ok []
  connect drive_info interval (wwn ∷ wwns) = elim (find wwn drive_info) [
    | none ↦ throw no_such_device
    | some o ↦ elim (connect drive_info interval wwns) [
      | throw e ↦ throw e
      | ok cs ↦ ok (record { options = o; min_reconnect_interval = interval } ∷ cs)
    ]
  ]

  -- The cluster of an id, as it is configured.
  abbrev pub make_cluster : Bytes → ClusterInformation → List Connection → Cluster
  make_cluster id ki connections = record {
    id = id;
    block_size = ki.block_size;
    operation_timeout = ki.operation_timeout;
    connections = connections;
    num_data = ki.num_data;
    num_parity = ki.num_parity;
  }

  -- The end of getCluster: both caches with the new cluster.
  unfoldable pub add_cluster : Bytes → Cluster → ClusterMap → ClusterMap
  unfolding has_provider
  add_cluster id c m = record m {
    cluster_cache = (id, c) ∷ m.cluster_cache;
    provider_cache =
        if has_provider c.num_data c.num_parity m.provider_cache
        then m.provider_cache
        else (c.num_data, c.num_parity) ∷ m.provider_cache;
  }

  -- getCluster, with a configuration for the id
  unfoldable pub build_cluster :
      Bytes → ClusterInformation → ClusterMap → Result Cluster × ClusterMap
  unfolding connect add_cluster
  build_cluster id ki m = elim (connect m.drive_info ki.min_reconnect_interval ki.drives) [
    | throw e ↦ (throw e, m)
    | ok connections ↦ if leb ki.num_data ki.num_parity then (throw invalid_argument, m) else (
      ok (make_cluster id ki connections),
      add_cluster id (make_cluster id ki connections) m,
    )
  ]

  -- getCluster
  unfoldable pub get_cluster : Bytes → ClusterMap → Result Cluster × ClusterMap
  unfolding find build_cluster
  get_cluster id m = elim (find id m.cluster_cache) [
    | some c ↦ (ok c, m)
    | none ↦ elim (find id m.cluster_info) [
      | none ↦ (throw no_such_device, m)
      | some ki ↦ build_cluster id ki m
    ]
  ]

  -- reset
  unfoldable pub reset :
      List (Bytes × ClusterInformation) → List (Bytes × Options) → ClusterMap → ClusterMap
  reset cluster_info drive_info m = record m {
    cluster_info = cluster_info;
    drive_info = drive_info;
    cluster_cache = [];
  }

  -- The constructor.
  unfoldable pub empty_map : ClusterMap
  empty_map = record { cluster_info = []; drive_info = []; cluster_cache = []; provider_cache = [] }
