-- ===== src/Remote.antt =====
-- What ClusterInterface.hh promises of versioned put and get, for one key and with no failures and no
-- other client: the specification against which a block is flushed. (include/ClusterInterface.hh)
use kineticio.Prelude.{ℕ, ◌+◌, Option, none, some, [], if◌then◌else◌, bytes_eq}
use kineticio.Str.{Bytes}
use kineticio.Kinetic.{StatusCode, status_ok, remote_not_found, remote_version_mismatch}
use kineticio.ClusterInterface.{ClusterInterface}

-- The key's version and value, the clock, and how each new version is made.
pub record Remote : Type 0 where
  pub entry : Option (Bytes × Bytes)
  pub clock : ℕ
  pub count : ℕ
  pub new_version : ℕ → Bytes

-- A missing key is written with the empty version.
abbrev pub current_version : Remote → Bytes
current_version w = elim w.entry [ none ↦ [] | some (v, _) ↦ v ]

abbrev pub given_version : Option Bytes → Bytes
given_version none = []
given_version (some v) = v

unfoldable pub remote_put :
    Option Bytes → Bytes → Option Bytes → Remote → StatusCode × Option Bytes × Remote
remote_put version value out w =
    if bytes_eq (given_version version) (current_version w)
    then (
      status_ok,
      some (w.new_version w.count),
      record w { entry = some (w.new_version w.count, value); count = w.count + 1 },
    )
    else (remote_version_mismatch, out, w)

unfoldable pub remote_get :
    Option Bytes → Option Bytes → Remote → StatusCode × Option Bytes × Option Bytes × Remote
remote_get version value w = elim w.entry [
  | none ↦ (remote_not_found, version, value, w)
  | some (v, x) ↦ (status_ok, some v, some x, w)
]

unfoldable pub remote_get_version : Option Bytes → Remote → StatusCode × Option Bytes × Remote
remote_get_version version w = elim w.entry [
  | none ↦ (remote_not_found, version, w)
  | some (v, _) ↦ (status_ok, some v, w)
]

abbrev pub remote_cluster : ℕ → ClusterInterface Remote
remote_cluster cap = record {
  instance_id = [];
  max_value_size = cap;
  get_version = λ key version w. remote_get_version version w;
  get = λ key version value w. remote_get version value w;
  put = λ key version value out w. remote_put version value out w;
  now = λ w. w.clock;
}
