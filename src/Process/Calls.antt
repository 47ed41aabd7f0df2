-- ===== src/Process/Calls.antt =====
-- What the process reads and calls (pkg/server/server.go, types.go), and the steps that it is made of.
use k8s_dqlite.Prelude.{ℕ, String, Bool, Option, List}
use k8s_dqlite.Bytes.{Bytes}
use k8s_dqlite.Results.{Error, Result, ok, err, caused}

pub record InitConfiguration : Type 0 where
  pub address : Bytes
  pub cluster : List Bytes

-- UpdateConfiguration is its address.
pub record NodeInfo : Type 0 where
  pub id : ℕ
  pub address : Bytes
  pub role : ℕ

-- Threshold and Trailing of the snapshot.
pub record TuningConfiguration : Type 0 where
  pub snapshot : Option (ℕ × ℕ)
  pub network_latency : Option ℕ
  pub kine_compact_interval : Option ℕ
  pub kine_poll_interval : Option ℕ

-- The minimum version of TLS.
pub data TlsVersion : Type 0 where
  tls10 tls11 tls12 tls13 : TlsVersion

-- The options of the application. With TLS stand the minimum version and, where it is not 0, the cache size.
pub data AppOption : Type 0 where
  with_address : Bytes → AppOption
  with_cluster : List Bytes → AppOption
  with_failure_domain : ℕ → AppOption
  with_tls : TlsVersion → ℕ → AppOption
  with_snapshot_params : ℕ × ℕ → AppOption
  with_network_latency : ℕ → AppOption
  with_disk_mode : AppOption

abbrev pub Step : Type 0 → Type 0 → Type 0
Step S A = S → Result A × S

module _ {S : Type 0} where
  abbrev pub pure : {A : Type 0} → A → Step S A
  pure a s = (ok a, s)

  abbrev pub raise : {A : Type 0} → Error → Step S A
  raise e s = (err e, s)

  abbrev pub continue : {A B : Type 0} → Result A → (A → Step S B) → Step S B
  continue (ok a) f s = f a s
  continue (err e) f s = (err e, s)

  infixl 5 ◌>>=◌ ◌>>◌
  abbrev pub ◌>>=◌ : {A B : Type 0} → Step S A → (A → Step S B) → Step S B
  ◌>>=◌ m f s = let (r, s') = m s in continue r f s'

  abbrev pub ◌>>◌ : {A B : Type 0} → Step S A → Step S B → Step S B
  m >> k = m >>= λ _. k

  abbrev pub renamed : {A : Type 0} → (Error → Error) → Result A × S → Result A × S
  renamed why (ok a, s) = (ok a, s)
  renamed why (err e, s) = (err (why e), s)

  -- fmt.Errorf around the error of a step.
  abbrev pub wrap : {A : Type 0} → String → Step S A → Step S A
  wrap text m s = renamed (caused text) (m s)

-- What the process calls. The names are those of files in the storage directory.
pub record Outside (S : Type 0) : Type 0 where
  pub stat : Bytes → Step S Bool
  pub read_dir : Step S (List Bytes)
  pub read_file : Bytes → Step S Bytes
  pub write_file : Bytes → Bytes → Step S (Unit {0})
  pub remove : Bytes → Step S (Unit {0})
  pub parse_init : Bytes → Result InitConfiguration
  pub parse_update : Bytes → Result Bytes
  pub parse_info : Bytes → Result NodeInfo
  pub parse_domain : Bytes → Result ℕ
  pub parse_tuning : Bytes → Result TuningConfiguration
  pub write_info : NodeInfo → Result Bytes
  pub write_cluster : List NodeInfo → Result Bytes
  pub reconfigure_membership : List NodeInfo → Step S (Unit {0})
  pub load_key_pair : Step S (Unit {0})
  pub append_certs : Bytes → Bool
  -- The name of the driver of the application that is made.
  pub app_new : List AppOption → Step S Bytes
  pub show_duration : ℕ → Bytes
  pub encode : List (Bytes × List Bytes) → Bytes

-- The settings that New is called with.
pub record Settings : Type 0 where
  pub listen : Bytes
  pub enable_tls : Bool
  pub disk_mode : Bool
  pub client_session_cache_size : ℕ
  pub min_tls_version : Bytes
  pub low_available_storage_action : Bytes
  pub watch_query_timeout : ℕ
