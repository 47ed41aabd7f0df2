-- ===== src/Process.antt =====
-- The server process (pkg/server/server.go, util.go, types.go): its start from the files of the storage
-- directory, and the check of the disk. Files, YAML, certificates and the dqlite application are parameters.
mod Calls
pub mod Params
pub mod Disk
pub mod Starts
pub mod Opening
pub mod Lifetime
pub use Calls.*
use k8s_dqlite.Prelude.{
  ℕ, zero, suc, String, Bool, true, false, not, Option, none, some, List, [], ◌∷◌, ◌++◌,
  if◌then◌else◌, ltb, all, any,
}
use k8s_dqlite.Bytes.{Bytes, codes, same}
use k8s_dqlite.Results.{Error, Result, ok, err, message, caused}
use k8s_dqlite.Endpoint.{TlsConfig, Config}
use k8s_dqlite.Process.Params.{endpoint_of}

-- The files that may be there when a node is initialised.
abbrev pub expected_files : List Bytes
expected_files =
    codes "cluster.crt"
    ∷ codes "cluster.key"
    ∷ codes "init.yaml"
    ∷ codes "failure-domain"
    ∷ codes "tuning.yaml"
    ∷ []

unfoldable pub expected : Bytes → Bool
unfolding same
expected name = any (same name) expected_files

abbrev pub known_action : Bytes → Bool
unfolding same
known_action action = any (same action) (codes "none" ∷ codes "handover" ∷ codes "terminate" ∷ [])

abbrev pub tls_version : Bytes → Option TlsVersion
unfolding same
tls_version name =
    if same name (codes "tls10")
    then some tls10
    else if same name (codes "tls11")
    then some tls11
    else if any (same name) ([] ∷ codes "tls12" ∷ [])
    then some tls12
    else if same name (codes "tls13")
    then some tls13
    else none

module _ {S : Type 0} (o : Outside S) where
  abbrev pub lifted : {A : Type 0} → String → Result A → Step S A
  lifted text (ok a) s = (ok a, s)
  lifted text (err e) s = (err (caused text e), s)

  unfoldable pub file_unmarshal : {A : Type 0} → (Bytes → Result A) → Bytes → Step S A
  file_unmarshal parse name = do
    b ← wrap "failed to read file contents" (o.read_file name)
    lifted "failed to parse as yaml" (parse b)

  unfoldable pub file_marshal : {A : Type 0} → (A → Result Bytes) → A → Bytes → Step S (Unit {0})
  file_marshal write v name = do
    b ← lifted "failed to marshal yaml" (write v)
    wrap "failed to write file" (o.write_file name b)

  unfoldable pub file_exists : Bytes → Step S Bool
  file_exists name = wrap "failed to stat" (o.stat name)

  abbrev pub is_empty : Bytes → Bool
  is_empty [] = true
  is_empty (x ∷ xs) = false

  abbrev pub require : Bool → String → Step S (Unit {0})
  require true text s = (ok tt, s)
  require false text s = (err (message text), s)

  -- The part of New that handles init.yaml.
  unfoldable pub handle_init : Step S (List AppOption)
  unfolding file_unmarshal same
  handle_init = do
    files ← wrap "failed to list storage dir contents" o.read_dir
    require (all expected files) "data directory seems to have existing state"
    init ← wrap "failed to read init.yaml" (file_unmarshal o.parse_init (codes "init.yaml"))
    require (not (is_empty init.address)) "empty address in init.yaml"
    wrap "failed to remove init.yaml after init" (o.remove (codes "init.yaml"))
    pure (with_address init.address ∷ with_cluster init.cluster ∷ [])

  -- The part that handles update.yaml.
  unfoldable pub handle_update : Step S (List AppOption)
  unfolding file_unmarshal file_marshal
  handle_update = do
    address ←
        wrap "failed to read update.yaml" (file_unmarshal o.parse_update (codes "update.yaml"))
    require (not (is_empty address)) "empty address in update.yaml"
    old ← wrap "failed to read info.yaml" (file_unmarshal o.parse_info (codes "info.yaml"))
    let info : NodeInfo = record { id = old.id; address = address; role = old.role }
    wrap "failed to reconfigure dqlite membership for new address"
        (o.reconfigure_membership (info ∷ []))
    wrap "failed to write new address in info.yaml"
        (file_marshal o.write_info info (codes "info.yaml"))
    wrap "failed to write new address in cluster.yaml"
        (file_marshal o.write_cluster (info ∷ []) (codes "cluster.yaml"))
    wrap "failed to remove update.yaml after dqlite address update" (o.remove (codes "update.yaml"))
    pure []

  abbrev pub when : {A : Type 0} → Bool → Step S A → A → Step S A
  when true m a = m
  when false m a = pure a

  unfoldable pub handle_address : Step S (List AppOption)
  unfolding file_exists handle_init handle_update
  handle_address = do
    must_init ← wrap "failed to check for init.yaml" (file_exists (codes "init.yaml"))
    let update : Step S (List AppOption) = (do
      must_update ← wrap "failed to check for update.yaml" (file_exists (codes "update.yaml"))
      when must_update handle_update [])
    if must_init then handle_init else update

  unfoldable pub handle_failure_domain : Step S ℕ
  unfolding file_exists file_unmarshal
  handle_failure_domain = do
    exists ← wrap "failed to check failure-domain" (file_exists (codes "failure-domain"))
    when exists
        (wrap "failed to parse failure-domain from file"
          (file_unmarshal o.parse_domain (codes "failure-domain")))
        0

  abbrev pub versioned : ℕ → Option TlsVersion → Step S (List AppOption)
  versioned cache none = raise (message "unsupported TLS version")
  versioned cache (some version) = pure (with_tls version cache ∷ [])

  unfoldable pub handle_tls : Settings → Step S (List AppOption)
  handle_tls settings = do
    wrap "failed to load keypair from cluster.crt and cluster.key" o.load_key_pair
    pem ← wrap "failed to read cluster.crt" (o.read_file (codes "cluster.crt"))
    require (o.append_certs pem) "failed to add certificate to pool"
    versioned settings.client_session_cache_size (tls_version settings.min_tls_version)

  abbrev pub no_tuning : TuningConfiguration
  no_tuning = record {
    snapshot = none;
    network_latency = none;
    kine_compact_interval = none;
    kine_poll_interval = none;
  }

  unfoldable pub handle_tuning : Step S TuningConfiguration
  unfolding file_exists file_unmarshal
  handle_tuning = do
    exists ← wrap "failed to check for tuning.yaml" (file_exists (codes "tuning.yaml"))
    when exists
        (wrap "failed to read tuning.yaml" (file_unmarshal o.parse_tuning (codes "tuning.yaml")))
        no_tuning

  abbrev pub given : {A : Type 0} → (A → AppOption) → Option A → List AppOption
  given f none = []
  given f (some a) = f a ∷ []

  abbrev pub kine_tls : Bool → TlsConfig
  kine_tls true = record {
    ca_file = [];
    cert_file = codes "cluster.crt";
    key_file = codes "cluster.key";
  }
  kine_tls false = record { ca_file = []; cert_file = []; key_file = [] }

  abbrev pub disk_option : Bool → List AppOption
  disk_option true = with_disk_mode ∷ []
  disk_option false = []

  -- New, after the test of the action.
  unfoldable pub make : Settings → Step S Config
  unfolding handle_address handle_failure_domain handle_tls handle_tuning endpoint_of
  make settings = do
    address ← handle_address
    domain ← handle_failure_domain
    tls ← when settings.enable_tls (handle_tls settings) []
    tuning ← handle_tuning
    driver ← wrap "failed to create dqlite app" (
        o.app_new (
          address
          ++ (with_failure_domain domain ∷ tls)
          ++ given with_snapshot_params tuning.snapshot
          ++ given with_network_latency tuning.network_latency
          ++ disk_option settings.disk_mode))
    pure (record {
      listener = settings.listen;
      endpoint =
          endpoint_of o.show_duration o.encode driver tuning.kine_compact_interval
            tuning.kine_poll_interval settings.watch_query_timeout;
      tls = kine_tls settings.enable_tls;
    })

  -- New: the configuration of the endpoint, where the application was made.
  unfoldable pub new : Settings → Step S Config
  unfolding make same
  new settings =
      require (known_action settings.low_available_storage_action)
        "unsupported low available storage action"
      >> make settings
