-- ===== src/Mysql/Program/Required.antt =====
-- When the program mysql2pgsql starts to copy.
use rds_dbsync.Base.{
  ℕ, ◌≡◌, refl, sym, subst, ap, ◌∙◌, Option, none, some, List, Text, codes, bind_inv,
}
use rds_dbsync.TableList.{Arrays, load_table_list_file}
use rds_dbsync.Mysql.Program.{
  Settings, Status, Opt, Parsed, parsed, returns, ends, syncs, Call, set_options, configured, main,
  defaults, with_config, with_call, with_list_file, with_lists, with_settings, threads_of,
}

-- The call has the values of the configuration.
pub record IsConfigured (atoi : Text → ℕ) (config : Text → Text → Option Text) (call : Call)
    : Type 0 where
  pub host_lem : config (codes "src.mysql") (codes "host") ≡ some call.host
  pub sport : Text
  pub sport_lem : config (codes "src.mysql") (codes "port") ≡ some sport
  pub port_lem : call.port ≡ atoi sport
  pub user_lem : config (codes "src.mysql") (codes "user") ≡ some call.user
  pub passwd_lem : config (codes "src.mysql") (codes "password") ≡ some call.passwd
  pub db_lem : config (codes "src.mysql") (codes "db") ≡ some call.db
  pub encodingdir_lem : config (codes "src.mysql") (codes "encodingdir") ≡ some call.encodingdir
  pub encoding_lem : config (codes "src.mysql") (codes "encoding") ≡ some call.encoding
  pub desc_lem : config (codes "desc.pgsql") (codes "connect_string") ≡ some call.desc

some_inj : {A : Type 0} (a b : A) → some a ≡ some b → a ≡ b
some_inj a b h = cc

syncs_inj : (a b : Call) → syncs a ≡ syncs b → a ≡ b
syncs_inj a b h = cc

-- The table list that the options name, if any, is the one that was loaded.
abbrev pub Listed : (Text → Option (List ℕ)) → Option Text → Option Arrays → Type 0
Listed read none lists = lists ≡ none
Listed read (some name) lists =
    (a : Arrays) × (load_table_list_file (read name) ≡ some a) × (lists ≡ some a)

configured-IsConfigured :
    (atoi : Text → ℕ) (t : Settings) (config : Text → Text → Option Text) (call : Call)
    → configured atoi t config ≡ some call
    → IsConfigured atoi config call × (call.lists ≡ none) × (call.num_thread ≡ threads_of t)
unfolding configured
configured-IsConfigured atoi t config call h =
    let (host, e1, h1) = bind_inv (config (codes "src.mysql") (codes "host")) _ call h in
    let (sport, e2, h2) = bind_inv (config (codes "src.mysql") (codes "port")) _ call h1 in
    let (user, e3, h3) = bind_inv (config (codes "src.mysql") (codes "user")) _ call h2 in
    let (passwd, e4, h4) = bind_inv (config (codes "src.mysql") (codes "password")) _ call h3 in
    let (db, e5, h5) = bind_inv (config (codes "src.mysql") (codes "db")) _ call h4 in
    let (dir, e6, h6) = bind_inv (config (codes "src.mysql") (codes "encodingdir")) _ call h5 in
    let (encoding, e7, h7) = bind_inv (config (codes "src.mysql") (codes "encoding")) _ call h6 in
    let (desc, e8, h8) =
      bind_inv (config (codes "desc.pgsql") (codes "connect_string")) _ call h7 in
    let same = some_inj _ call h8 in
    (
      record {
        host_lem = e1 ∙ ap (λ c. some c.host) same;
        sport = sport;
        sport_lem = e2;
        port_lem = sym (ap (λ c. c.port) same);
        user_lem = e3 ∙ ap (λ c. some c.user) same;
        passwd_lem = e4 ∙ ap (λ c. some c.passwd) same;
        db_lem = e5 ∙ ap (λ c. some c.db) same;
        encodingdir_lem = e6 ∙ ap (λ c. some c.encodingdir) same;
        encoding_lem = e7 ∙ ap (λ c. some c.encoding) same;
        desc_lem = e8 ∙ ap (λ c. some c.desc) same;
      },
      sym (ap (λ c. c.lists) same),
      sym (ap (λ c. c.num_thread) same),
    )

-- What is known where the program starts to copy.
abbrev pub Started :
    (Text → ℕ)
    → (Text → Option (List ℕ))
    → (Text → Option (Text → Text → Option Text))
    → List Opt
    → Call
    → Type 0
Started atoi read init_config opts call =
    (t : Settings) × (config : Text → Text → Option Text) × (set_options atoi opts defaults
      ≡ parsed t)
    × (init_config t.cfg_file ≡ some config)
    × IsConfigured atoi config call
    × Listed read t.table_list_file call.lists
    × (call.num_thread ≡ threads_of t)

-- The arrays are no value of the configuration.
with_arrays : Call → Option Arrays → Call
with_arrays call lists = record call { lists = lists }

loaded_lists :
    (loaded : Option Arrays) (call0 call : Call)
    → with_lists call0 loaded ≡ syncs call
    → (a : Arrays) × (loaded ≡ some a) × (with_arrays call0 (some a) ≡ call)
unfolding with_arrays
loaded_lists none call0 call h = cc
loaded_lists (some a) call0 call h = (a, refl, syncs_inj _ call h)

no_settings : (status : Status) (call : Call) → ends status ≡ syncs call → ⊥
no_settings status call h = cc

module _ (atoi : Text → ℕ) where
  with_arrays-IsConfigured :
      (config : Text → Text → Option Text) (call : Call) (lists : Option Arrays)
      → IsConfigured atoi config call
      → IsConfigured atoi config (with_arrays call lists)
  unfolding with_arrays
  with_arrays-IsConfigured config call lists c = record {
    host_lem = c.host_lem;
    sport = c.sport;
    sport_lem = c.sport_lem;
    port_lem = c.port_lem;
    user_lem = c.user_lem;
    passwd_lem = c.passwd_lem;
    db_lem = c.db_lem;
    encodingdir_lem = c.encodingdir_lem;
    encoding_lem = c.encoding_lem;
    desc_lem = c.desc_lem;
  }

module _ (atoi : Text → ℕ) (read : Text → Option (List ℕ)) where
  listed :
      (name : Option Text) (call0 call : Call) (config : Text → Text → Option Text)
      → IsConfigured atoi config call0
      → call0.lists ≡ none
      → with_list_file read call0 name ≡ syncs call
      → IsConfigured atoi config call
        × Listed read name call.lists
        × (call.num_thread ≡ call0.num_thread)
  unfolding with_arrays
  listed none call0 call config c n h =
      let same = syncs_inj call0 call h in
      (
        subst (IsConfigured atoi config) same c,
        ap (λ x. x.lists) (sym same) ∙ n,
        ap (λ x. x.num_thread) (sym same),
      )
  listed (some name) call0 call config c n h =
      let (a, loaded, same) = loaded_lists (load_table_list_file (read name)) call0 call h in
      (
        subst (IsConfigured atoi config) same
            (with_arrays-IsConfigured atoi config call0 (some a) c),
        (a, loaded, ap (λ x. x.lists) (sym same)),
        ap (λ x. x.num_thread) (sym same),
      )

  with_call-Listed :
      (t : Settings) (config : Text → Text → Option Text) (o : Option Call) (call : Call)
      → configured atoi t config ≡ o
      → with_call read t o ≡ syncs call
      → IsConfigured atoi config call
        × Listed read t.table_list_file call.lists
        × (call.num_thread ≡ threads_of t)
  with_call-Listed t config none call e h = absurd (no_settings _ call h)
  with_call-Listed t config (some call0) call e h =
      let (c, n, threads) = configured-IsConfigured atoi t config call0 e in
      let (c', l, same) = listed t.table_list_file call0 call config c n h in
      (c', l, same ∙ threads)

  module _ (init_config : Text → Option (Text → Text → Option Text)) where
    with_config-Started :
        (opts : List Opt) (t : Settings) (o : Option (Text → Text → Option Text)) (call : Call)
        → set_options atoi opts defaults ≡ parsed t
        → init_config t.cfg_file ≡ o
        → with_config atoi read t o ≡ syncs call
        → Started atoi read init_config opts call
    with_config-Started opts t none call e i h = absurd (no_settings _ call h)
    with_config-Started opts t (some config) call e i h =
        let (c, l, threads) = with_call-Listed t config (configured atoi t config) call refl h in
        (t, config, e, i, c, l, threads)

    with_settings-Started :
        (opts : List Opt) (p : Parsed) (call : Call)
        → set_options atoi opts defaults ≡ p
        → with_settings atoi read init_config p ≡ syncs call
        → Started atoi read init_config opts call
    with_settings-Started opts (returns status) call e h = absurd (no_settings status call h)
    with_settings-Started opts (parsed t) call e h =
        with_config-Started opts t (init_config t.cfg_file) call e refl h

    -- The program starts to copy only if no option made it return, the configuration file could be
    -- read and has all eight values, which the call then has, and the table list, if the options name
    -- one, was loaded, and is the one of the call; the number of threads is 1 where only the
    -- statements are asked for, and else the one of the options.
    pub main-Started :
        (opts : List Opt) (call : Call)
        → main atoi read init_config opts ≡ syncs call
        → Started atoi read init_config opts call
    unfolding main
    main-Started opts call h =
        with_settings-Started opts (set_options atoi opts defaults) call refl h
