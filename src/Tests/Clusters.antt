-- ===== src/Tests/Clusters.antt =====
-- An example for the map of clusters (src/ClusterMap.cc).
use kineticio.Prelude.{ℕ, ◌≡◌, refl, [], ◌∷◌, List, ok, bytes_eq}
use kineticio.Str.{Bytes}
use kineticio.ClusterMap.{
  ClusterInformation, Cluster, ClusterMap, find, connect, make_cluster, build_cluster, get_cluster,
  reset, empty_map,
}
use kineticio.ClusterMap.Configured.{IsConfigured, start, configure, get_cluster-IsConfigured}

-- Two data chunks, one parity, and three drives, whose options are numbers.
abbrev information : ClusterInformation
information = record {
  num_data = 2;
  num_parity = 1;
  block_size = 1024;
  min_reconnect_interval = 10;
  operation_timeout = 30;
  drives = (1 ∷ []) ∷ (2 ∷ []) ∷ (3 ∷ []) ∷ [];
}

abbrev drive_options : List (Bytes × ℕ)
drive_options = (1 ∷ [], 100) ∷ (2 ∷ [], 200) ∷ (3 ∷ [], 300) ∷ []

abbrev configured : ClusterMap ℕ
configured = reset ℕ ((9 ∷ [], information) ∷ []) drive_options (empty_map ℕ)

abbrev cluster : Cluster ℕ
cluster = make_cluster ℕ (9 ∷ []) information (
    record { options = 100; min_reconnect_interval = 10 }
    ∷ record { options = 200; min_reconnect_interval = 10 }
    ∷ record { options = 300; min_reconnect_interval = 10 }
    ∷ [])

cluster_found : (get_cluster ℕ (9 ∷ []) configured).0 ≡ ok cluster
unfolding get_cluster reset empty_map find connect build_cluster bytes_eq
cluster_found = refl

get_cluster-IsConfigured_example :
    IsConfigured ℕ (get_cluster ℕ (9 ∷ []) configured).1 (9 ∷ []) cluster
    × (get_cluster ℕ (9 ∷ []) (get_cluster ℕ (9 ∷ []) configured).1
        ≡ (ok cluster, (get_cluster ℕ (9 ∷ []) configured).1))
get_cluster-IsConfigured_example =
    get_cluster-IsConfigured ℕ (9 ∷ []) cluster
      (configure ((9 ∷ [], information) ∷ []) drive_options start) cluster_found
