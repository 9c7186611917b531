-- ===== src/Config/Tests.antt =====
-- A configuration file in memory, and the theorems about the configuration at concrete inputs.
use cess_dcdn_components.Base.Text.{text_eq, text_eq_refl}
use cess_dcdn_components.Base.Int.{negsuc, pos}
use cess_dcdn_components.Base.FilePath.{join}
use cess_dcdn_components.Config.Bounds.{IsUsable, fill_config-IsUsable}
use cess_dcdn_components.Config.{
  DefaultConfig, Globals, Loader, P2pConfig, default_temp_dir, fill_config, parse_default_config,
}
use cess_dcdn_components.Base.{
  Bool, Bytes, List, [], arith, codes, err, false, if◌then◌else◌, ok, refl, true, ◌||◌, ◌∷◌, ◌≡◌,
}
use cess_dcdn_components.Config.Directories.{Answers, IsLoader, Parsed, parse_default_config_lem}

abbrev no_p2p : P2pConfig
no_p2p = record { boots = []; p2p_port = pos 0; work_space = [] }

-- Nothing was set.
abbrev no_config : DefaultConfig
no_config = record {
  chain = record { rpc = []; network = []; mnemonic = [] };
  resrc_p2p = no_p2p;
  cache_p2p = no_p2p;
  cacher = record {
    cache_price = [];
    cache_dir = [];
    expiration = pos 20000;
    cache_size = negsuc 4;
    free_downloads = pos 0;
  };
  proto = record {
    chain_id = pos 0;
    staking = [];
    gas_free_cap = pos 0;
    gas_limit = 0;
    token_contract = [];
    proto_contract = [];
    node_token_id = [];
    node_acc_private_key = [];
    token_acc_address = [];
    token_acc_sign = [];
  };
  node_work_space = [];
  actor_svc_port = pos 0;
}

-- The disk is the list of its directories.
abbrev has_dir : Bytes → List Bytes → Bool
has_dir p [] = false
has_dir p (q ∷ qs) = text_eq q p || has_dir p qs

abbrev memory_loader : Loader (List Bytes)
memory_loader = record {
  set_config_file = λ path d. d;
  set_config_type = λ ctype d. d;
  read_in_config = λ d. (ok tt, d);
  unmarshal = λ s. (ok tt, s);
  stat = λ p d. (if has_dir p d then ok tt else err [], d);
  mkdir_all = λ p d. (ok tt, p ∷ d);
}

abbrev InMemory : Bytes → List Bytes → Type 0
InMemory p d = has_dir p d ≡ true

stat-InMemory :
    (p : Bytes) (d : List Bytes) (b : Bool)
    → has_dir p d ≡ b
    → Answers memory_loader InMemory p (if b then ok tt else err [], d)
stat-InMemory p d true h = h
stat-InMemory p d false h = tt

memory_law : IsLoader memory_loader InMemory
memory_law = record {
  stat_there = λ p d. stat-InMemory p d (has_dir p d) refl;
  mkdir_there = λ p d. ground (arith, text_eq_refl p);
  stat_keeps = λ p q d h. h;
  mkdir_keeps = λ p q d h. ground arith;
  read_returns = λ d. tt;
  unmarshal_returns = λ s. tt;
}

abbrev no_globals : Globals (List Bytes)
no_globals = record { config = no_config; temp_dir = default_temp_dir; disk = [] }

-- Without a work space the node works in the directory of the cache, and the temporary files stay in the
-- default work space.
parse_run :
    (parse_default_config memory_loader [] no_globals).1.disk
    ≡ codes "./cdn_node/temp/"
      ∷ codes "cache/resource_p2p"
      ∷ codes "cache/cdn_node/cache_p2p"
      ∷ codes "cache/cache"
      ∷ []
unfolding parse_default_config join text_eq
parse_run = refl

fill_config-IsUsable_example : IsUsable (fill_config no_config)
fill_config-IsUsable_example = fill_config-IsUsable no_config

parse_default_config_lem_example :
    Parsed memory_loader InMemory (parse_default_config memory_loader [] no_globals)
parse_default_config_lem_example =
    parse_default_config_lem memory_loader InMemory memory_law [] no_globals
