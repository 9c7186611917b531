-- ===== src/Config/Directories.antt =====
-- What a node finds on the disk once `ParseDefaultConfig` has answered.
use Prim.Native.String.{String}
use cess_dcdn_components.Transfer.Storage.{or_else}
use cess_dcdn_components.Config.{
  default_config_path, on_disk, parse_common_config, parse_default_config, store_config, text_or,
  DefaultConfig, Globals, Loader, directories, ensure_dir, ensure_dirs,
}
use cess_dcdn_components.Base.{
  codes, get_state, modify, ◌>>=◌, ◌>>◌, Action, All, Bytes, List, Outcome, [], err, next, ok,
  panic, pure, wrapped, wrapping, ◌∷◌,
}
use cess_dcdn_components.Config.Bounds.{fill_config-IsUsable, IsUsable}

module _ {D : Type 0} (loader : Loader D) (There : Bytes → D → Type 0) where
  -- The answer about a path: the directory is there, or there is an error.
  abbrev pub Answers : Bytes → Outcome (Unit {0}) × D → Type 0
  Answers p (ok u, d) = There p d
  Answers p (err e, d) = Unit
  Answers p (panic, d) = ⊥

  abbrev pub Returns : {A B : Type 0} → Outcome A × B → Type 0
  Returns (ok a, b) = Unit
  Returns (err e, b) = Unit
  Returns (panic, b) = ⊥

  -- `os.Stat` and `os.MkdirAll` tell whether the directory is there, and remove none; the reader of the
  -- file does not panic.
  pub record IsLoader : Type 0 where
    pub stat_there : (p : Bytes) (d : D) → Answers p (loader.stat p d)
    pub mkdir_there : (p : Bytes) (d : D) → Answers p (loader.mkdir_all p d)
    pub stat_keeps : (p q : Bytes) (d : D) → There q d → There q (loader.stat p d).1
    pub mkdir_keeps : (p q : Bytes) (d : D) → There q d → There q (loader.mkdir_all p d).1
    pub read_returns : (d : D) → Returns (loader.read_in_config d)
    pub unmarshal_returns : (s : DefaultConfig × D) → Returns (loader.unmarshal s)

  abbrev AllThere : List Bytes → D → Type 0
  AllThere ps d = All (λ p. There p d) ps

  abbrev Made : List Bytes → Outcome (Unit {0}) × D → Type 0
  Made ps (ok u, d) = AllThere ps d
  Made ps (err e, d) = Unit
  Made ps (panic, d) = ⊥

  -- The node's configuration is within its bounds and its four directories are there.
  abbrev pub Parsed : Outcome (Unit {0}) × Globals D → Type 0
  Parsed (ok u, g) =
      IsUsable g.config × All (λ p. There p g.disk) (directories loader g.config g.temp_dir)
  Parsed (err e, g) = Unit
  Parsed (panic, g) = ⊥

  module _ (law : IsLoader) where
    Made-mkdir :
        (p : Bytes) (r : Outcome (Unit {0}) × D)
        → Answers p r
        → Made (p ∷ []) (wrapped "parse default config file error" r)
    Made-mkdir p (ok u, d) h = (h, tt)
    Made-mkdir p (err e, d) h = tt
    Made-mkdir p (panic, d) h = absurd h

    Made-stat :
        (p : Bytes) (r : Outcome (Unit {0}) × D)
        → Answers p r
        → Made (p ∷ []) (
            or_else
              (λ _. r)
              (λ _. pure tt)
              (wrapping "parse default config file error" (loader.mkdir_all p))
              r.1)
    Made-stat p (ok u, d) h = (h, tt)
    Made-stat p (err e, d) h = Made-mkdir p (loader.mkdir_all p d) (law.mkdir_there p d)
    Made-stat p (panic, d) h = absurd h

    ensure_dir-Made : (p : Bytes) (d : D) → Made (p ∷ []) (ensure_dir loader p d)
    unfolding ensure_dir
    ensure_dir-Made p d = Made-stat p (loader.stat p d) (law.stat_there p d)

    keeps-stat :
        (p q : Bytes) (r : Outcome (Unit {0}) × D)
        → There q r.1
        → There q
            (or_else
              (λ _. r)
              (λ _. pure tt)
              (wrapping "parse default config file error" (loader.mkdir_all p))
              r.1).1
    keeps-stat p q (ok u, d) h = h
    keeps-stat p q (err e, d) h = law.mkdir_keeps p q d h
    keeps-stat p q (panic, d) h = h

    ensure_dir_keeps : (p q : Bytes) (d : D) → There q d → There q (ensure_dir loader p d).1
    unfolding ensure_dir
    ensure_dir_keeps p q d h = keeps-stat p q (loader.stat p d) (law.stat_keeps p q d h)

    bind_keeps :
        (q : Bytes) (r : Outcome (Unit {0}) × D) (k : Action D (Unit {0}))
        → There q r.1
        → ((d : D) → There q d → There q (k d).1)
        → There q (next (λ _. k) r).1
    bind_keeps q (ok u, d) k h f = f d h
    bind_keeps q (err e, d) k h f = h
    bind_keeps q (panic, d) k h f = h

    ensure_dirs_keeps :
        (ps : List Bytes) (q : Bytes) (d : D) → There q d → There q (ensure_dirs loader ps d).1
    unfolding ensure_dirs
    ensure_dirs_keeps [] q d h = h
    ensure_dirs_keeps (p ∷ ps) q d h =
        bind_keeps q (ensure_dir loader p d) (ensure_dirs loader ps) (ensure_dir_keeps p q d h)
          (λ e h. ensure_dirs_keeps ps q e h)

    with_first :
        (p : Bytes) (ps : List Bytes) (r : Outcome (Unit {0}) × D)
        → There p r.1
        → Made ps r
        → Made (p ∷ ps) r
    with_first p ps (ok u, d) h k = (h, k)
    with_first p ps (err e, d) h k = tt
    with_first p ps (panic, d) h k = k

    bind-Made :
        (p : Bytes) (ps : List Bytes) (r : Outcome (Unit {0}) × D)
        → Made (p ∷ []) r
        → ((d : D) → Made ps (ensure_dirs loader ps d))
        → Made (p ∷ ps) (next (λ _. ensure_dirs loader ps) r)
    bind-Made p ps (ok u, d) h k =
        with_first p ps (ensure_dirs loader ps d) (ensure_dirs_keeps ps p d h.0) (k d)
    bind-Made p ps (err e, d) h k = tt
    bind-Made p ps (panic, d) h k = absurd h

    ensure_dirs-Made : (ps : List Bytes) (d : D) → Made ps (ensure_dirs loader ps d)
    unfolding ensure_dirs
    ensure_dirs-Made [] d = tt
    ensure_dirs-Made (p ∷ ps) d =
        bind-Made p ps (ensure_dir loader p d) (ensure_dir-Made p d) (λ e. ensure_dirs-Made ps e)

    Returns-wrapped :
        {A B : Type 0} (msg : String) (r : Outcome A × B) → Returns r → Returns (wrapped msg r)
    Returns-wrapped msg (ok a, b) h = tt
    Returns-wrapped msg (err e, b) h = tt
    Returns-wrapped msg (panic, b) h = absurd h

    -- The same of the state that the reader of the file sees.
    abbrev beside : {A : Type 0} → DefaultConfig → Outcome A × D → Outcome A × (DefaultConfig × D)
    beside c r = (r.0, (c, r.1))

    Returns-beside :
        {A : Type 0} (c : DefaultConfig) (r : Outcome A × D) → Returns r → Returns (beside c r)
    Returns-beside c (ok a, d) h = tt
    Returns-beside c (err e, d) h = tt
    Returns-beside c (panic, d) h = absurd h

    Returns-next :
        {A B S : Type 0} (f : A → Action S B) (r : Outcome A × S)
        → Returns r
        → ((a : A) (s : S) → Returns (f a s))
        → Returns (next f r)
    Returns-next f (ok a, s) h k = k a s
    Returns-next f (err e, s) h k = tt
    Returns-next f (panic, s) h k = absurd h

    parse_common_config-Returns :
        (path ctype : Bytes) (s : DefaultConfig × D)
        → Returns (parse_common_config loader path ctype s)
    unfolding parse_common_config
    parse_common_config-Returns path ctype (c, d) =
        Returns-next (λ _. wrapping "parse config file error" loader.unmarshal)
          (wrapped "parse config file error" (beside c (loader.read_in_config (named d))))
          (Returns-wrapped "parse config file error" (beside c (loader.read_in_config (named d)))
            (Returns-beside c (loader.read_in_config (named d)) (law.read_returns (named d))))
          (λ _ s.
            Returns-wrapped "parse config file error" (loader.unmarshal s)
              (law.unmarshal_returns s))
      where
        named : D → D
        named d =
            loader.set_config_type ctype
              (loader.set_config_file (text_or path default_config_path) d)

    abbrev prepare : Action (Globals D) (Unit {0})
    prepare = do
      modify (store_config loader)
      g ← get_state
      on_disk loader (ensure_dirs loader (directories loader g.config g.temp_dir))

    on_disk-Parsed :
        (g : Globals D) (r : Outcome (Unit {0}) × D)
        → IsUsable g.config
        → Made (directories loader g.config g.temp_dir) r
        → Parsed (r.0, record g { disk = r.1 })
    on_disk-Parsed g (ok u, d) h k = (h, k)
    on_disk-Parsed g (err e, d) h k = tt
    on_disk-Parsed g (panic, d) h k = absurd k

    prepare-Parsed : (g : Globals D) → Parsed (prepare g)
    prepare-Parsed g =
        on_disk-Parsed (store_config loader g) (ensure_dirs loader dirs g.disk)
          (fill_config-IsUsable g.config) (ensure_dirs-Made dirs g.disk)
      where
        dirs : List Bytes
        dirs = directories loader (store_config loader g).config (store_config loader g).temp_dir

    next-Parsed :
        (g : Globals D) (r : Outcome (Unit {0}) × (DefaultConfig × D))
        → Returns r
        → Parsed (next (λ _. prepare) (r.0, record g { config = r.1.0; disk = r.1.1 }))
    next-Parsed g (ok u, (c, d)) h = prepare-Parsed (record g { config = c; disk = d })
    next-Parsed g (err e, (c, d)) h = tt
    next-Parsed g (panic, (c, d)) h = absurd h

    -- If the calls on the disk tell what is there and the reader of the file returns, `ParseDefaultConfig`
    -- returns too; when it succeeds, the configuration is within its bounds, and its cache, the two peers'
    -- work spaces and the directory for temporary files are on the disk.
    pub parse_default_config_lem :
        (path : Bytes) (g : Globals D) → Parsed (parse_default_config loader path g)
    unfolding parse_default_config
    parse_default_config_lem path g =
        next-Parsed g (parse_common_config loader path (codes "yaml") (g.config, g.disk))
          (parse_common_config-Returns path (codes "yaml") (g.config, g.disk))
