-- ===== src/Config.antt =====
-- The configuration of a node (cd2n-lib/config/config.go).
pub mod Bounds
pub mod Directories
mod Tests
use cess_dcdn_components.Transfer.Storage.{or_else}
use cess_dcdn_components.Base.FilePath.{join}
use cess_dcdn_components.Base.Int.{is_zero, leb_ℤ, ltb_ℤ, pos, ℤ}
use cess_dcdn_components.Base.{
  Action, Bytes, List, [], codes, get_state, if◌then◌else◌, is_nil, modify, pure, wrapping, ℕ, ◌*◌,
  ◌>>=◌, ◌>>◌, ◌^◌, ◌||◌, ◌∷◌,
}

pub record CessChainConfig : Type 0 where
  pub rpc : List Bytes
  pub network : Bytes
  pub mnemonic : Bytes

pub record P2pConfig : Type 0 where
  pub boots : List Bytes
  pub p2p_port : ℤ
  pub work_space : Bytes

pub record CacherConfig : Type 0 where
  pub cache_price : Bytes
  pub cache_dir : Bytes
  pub expiration : ℤ
  pub cache_size : ℤ
  pub free_downloads : ℤ

pub record CdnProtoConfig : Type 0 where
  pub chain_id : ℤ
  pub staking : Bytes
  pub gas_free_cap : ℤ
  pub gas_limit : ℕ
  pub token_contract : Bytes
  pub proto_contract : Bytes
  pub node_token_id : Bytes
  pub node_acc_private_key : Bytes
  pub token_acc_address : Bytes
  pub token_acc_sign : Bytes

pub record DefaultConfig : Type 0 where
  pub chain : CessChainConfig
  pub resrc_p2p : P2pConfig
  pub cache_p2p : P2pConfig
  pub cacher : CacherConfig
  pub proto : CdnProtoConfig
  pub node_work_space : Bytes
  pub actor_svc_port : ℤ

abbrev pub default_config_path : Bytes
default_config_path = codes "./config.yaml"

abbrev pub default_cache_path : Bytes
default_cache_path = codes "./cache/"

abbrev pub default_p2p_workspace : Bytes
default_p2p_workspace = codes "./cdn_node/cache_p2p"

abbrev pub default_cache_price : Bytes
default_cache_price = codes "10000000000000000"

abbrev pub default_download_point : ℤ
default_download_point = pos 4

abbrev pub default_temp_dir : Bytes
default_temp_dir = codes "./cdn_node/temp/"

-- The package's variables, and the rest of the world.
pub record Globals (D : Type 0) : Type 0 where
  pub config : DefaultConfig
  pub temp_dir : Bytes
  pub disk : D

-- `viper`, which keeps a file's path and type, and what it read: it decodes into a configuration, of
-- which a part may be filled in when it fails; and `os.Stat` and `os.MkdirAll`.
pub record Loader (D : Type 0) : Type 0 where
  pub set_config_file : Bytes → D → D
  pub set_config_type : Bytes → D → D
  pub read_in_config : Action D (Unit {0})
  pub unmarshal : Action (DefaultConfig × D) (Unit {0})
  pub stat : Bytes → Action D (Unit {0})
  pub mkdir_all : Bytes → Action D (Unit {0})

abbrev pub text_or : Bytes → Bytes → Bytes
text_or s t = if is_nil s then t else s

-- The lines of `ParseDefaultConfig` that fill in the numbers.
unfoldable pub fill_cacher : CacherConfig → CacherConfig
fill_cacher c = record c {
  cache_size = if leb_ℤ c.cache_size (pos (2 ^ 35)) then pos (2 ^ 35) else c.cache_size;
  expiration =
      if leb_ℤ c.expiration (pos 0) || ltb_ℤ (pos (7 * 24 * 60)) c.expiration
      then pos (3 * 60)
      else c.expiration;
  cache_price = text_or c.cache_price default_cache_price;
  free_downloads = if is_zero c.free_downloads then default_download_point else c.free_downloads;
}

abbrev pub in_workspace : Bytes → Bytes → Bytes → Bytes
in_workspace space path fallback = join (space ∷ text_or path fallback ∷ [])

-- All lines between the reading of the file and the making of the directories.
unfoldable pub fill_config : DefaultConfig → DefaultConfig
unfolding fill_cacher
fill_config c =
    let space = text_or c.node_work_space default_cache_path in
    let cacher = fill_cacher c.cacher in
    record c {
      cacher = record cacher {
        cache_dir = in_workspace space c.cacher.cache_dir default_cache_path;
      };
      cache_p2p = record c.cache_p2p {
        work_space = in_workspace space c.cache_p2p.work_space default_p2p_workspace;
      };
      resrc_p2p = record c.resrc_p2p {
        work_space = in_workspace space c.resrc_p2p.work_space (codes "./resource_p2p");
      };
      node_work_space = space;
      actor_svc_port = if is_zero c.actor_svc_port then pos 8080 else c.actor_svc_port;
    }

-- `TempDir` is moved into a work space that the file names.
abbrev pub temp_dir_of : DefaultConfig → Bytes → Bytes
temp_dir_of c temp_dir =
    if is_nil c.node_work_space then temp_dir else join (c.node_work_space ∷ codes "temp" ∷ [])

module _ {D : Type 0} (loader : Loader D) where
  -- A call that sees the world and not the package's variables.
  abbrev pub on_disk : {A : Type 0} → Action D A → Action (Globals D) A
  on_disk m g = let (r, d) = m g.disk in (r, record g { disk = d })

  -- `ParseCommonConfig` at the type of the node's configuration: the state has what the pointer is to.
  unfoldable pub parse_common_config : Bytes → Bytes → Action (DefaultConfig × D) (Unit {0})
  parse_common_config path ctype = do
    modify (λ s. (
      s.0,
      loader.set_config_type ctype (loader.set_config_file (text_or path default_config_path) s.1),
    ))
    wrapping "parse config file error"
        (λ s. let (r, d) = loader.read_in_config s.1 in (r, (s.0, d)))
    wrapping "parse config file error" loader.unmarshal

  abbrev pub on_config : {A : Type 0} → Action (DefaultConfig × D) A → Action (Globals D) A
  on_config m g = let (r, (c, d)) = m (g.config, g.disk) in (r, record g { config = c; disk = d })

  -- `if _, err := os.Stat(path); err != nil { err = os.MkdirAll(path, 0755) ... }`
  unfoldable pub ensure_dir : Bytes → Action D (Unit {0})
  ensure_dir path =
      or_else (loader.stat path) (λ _. pure tt)
        (wrapping "parse default config file error" (loader.mkdir_all path))

  unfoldable pub ensure_dirs : List Bytes → Action D (Unit {0})
  unfolding ensure_dir
  ensure_dirs [] = pure tt
  ensure_dirs (p ∷ ps) = ensure_dir p >> ensure_dirs ps

  -- The directories of a configuration, in the order in which they are made.
  abbrev pub directories : DefaultConfig → Bytes → List Bytes
  directories c temp_dir =
      c.cacher.cache_dir ∷ c.cache_p2p.work_space ∷ c.resrc_p2p.work_space ∷ temp_dir ∷ []

  abbrev pub store_config : Globals D → Globals D
  store_config g = record g {
    config = fill_config g.config;
    temp_dir = temp_dir_of g.config g.temp_dir;
  }

  -- `ParseDefaultConfig`
  unfoldable pub parse_default_config : Bytes → Action (Globals D) (Unit {0})
  unfolding parse_common_config ensure_dirs fill_config
  parse_default_config path = do
    on_config (parse_common_config path (codes "yaml"))
    modify store_config
    g ← get_state
    on_disk (ensure_dirs (directories g.config g.temp_dir))
