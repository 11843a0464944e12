-- ===== src/Config.antt =====
-- dbsync/readcfg.cpp and dbsync/dbsync-pgsql2pgsql.c: the values of a configuration file, and the
-- program that copies from PostgreSQL. The parser of the file (dbsync/ini.c, a copy of another
-- project) is an argument. `Scan`, `to_bool` and `find_replace` are called by nothing.
use rds_dbsync.Base.{
  ℕ, ◌≡◌, ◌≢◌, ◌↔◌, refl, ap, sym, Bool, true, false, ◌||◌, Option, none, some, [], ◌∷◌, Text,
  codes, if◌then◌else◌,
}

abbrev pub is_empty : Text → Bool
is_empty [] = true
is_empty (c ∷ cs) = false

-- `get_config` leaves `*value` alone where the value is missing or empty.
abbrev pub unless_empty : Text → Option Text
unless_empty [] = none
unless_empty (c ∷ cs) = some (c ∷ cs)

abbrev or_default : Text → Option Text → Text
or_default d none = d
or_default d (some t) = t

-- The program returns, or calls `db_sync_main` with the three strings and the number of threads.
pub data Outcome : Type 0 where
  returns : ℕ → Outcome
  syncs : Text → Text → Text → ℕ → Outcome

abbrev pub with_strings : Option Text → Option Text → Option Text → Outcome
with_strings (some src) (some desc) (some local) = syncs src desc local 5
with_strings _ _ _ = returns 1

module _ {Ini : Type 0} (ini_load : Text → Option Ini)
    (ini_get : Ini → Text → Text → Option Text) where
  -- The constructor, with the file that it holds.
  unfoldable pub config : Text → Option Ini
  config filename = if is_empty filename then none else ini_load filename

  -- A handle, where there is a file.
  unfoldable pub init_config : Text → Option Ini
  init_config cfgpath = config cfgpath

  -- `Config::Get`, of a handle.
  unfoldable pub get : Ini → Text → Text → Text → Text
  get conf sec key defaultvalue =
      if is_empty key || is_empty sec
      then defaultvalue
      else or_default defaultvalue (ini_get conf sec key)

  -- `get_config`, of sections and keys that are not NULL: what it stores in `*value`, where it
  -- returns 0.
  unfoldable pub get_config : Ini → Text → Text → Option Text
  get_config cfg sec key = unless_empty (get cfg sec key [])

  abbrev pub with_file : Option Ini → Outcome
  with_file none = returns 1
  with_file (some cfg) =
      with_strings (get_config cfg (codes "src.pgsql") (codes "connect_string"))
        (get_config cfg (codes "desc.pgsql") (codes "connect_string"))
        (get_config cfg (codes "local.pgsql") (codes "connect_string"))

  -- `main` of dbsync/dbsync-pgsql2pgsql.c.
  unfoldable pub main : Outcome
  main = with_file (init_config (codes "my.cfg"))

  -- The file has this value, and it is not empty.
  abbrev pub Holds : Ini → Text → Text → Text → Type 0
  Holds cfg sec key value = (ini_get cfg sec key ≡ some value) × (value ≢ [])

  unless_empty_lem : (t v : Text) → (unless_empty t ≡ some v) ↔ ((t ≡ v) × (v ≢ []))
  unless_empty_lem [] v = (λ h. cc, λ h. absurd (h.1 (sym h.0)))
  unless_empty_lem (c ∷ cs) v = (λ h. let e : c ∷ cs ≡ v = cc in (e, λ z. cc), λ h. ap some h.0)

  or_default_lem : (o : Option Text) (v : Text) → v ≢ [] → (or_default [] o ≡ v) ↔ (o ≡ some v)
  or_default_lem none v ne = (λ h. absurd (ne (sym h)), λ h. cc)
  or_default_lem (some t) v ne = (λ h. ap some h, λ h. cc)

  get_config-Holds :
      (cfg : Ini) (sec key value : Text)
      → is_empty key || is_empty sec ≡ false
      → (get_config cfg sec key ≡ some value) ↔ Holds cfg sec key value
  unfolding get_config get
  get_config-Holds cfg sec key value named = rw named (
    λ h.
        let (e, ne) = (unless_empty_lem (or_default [] (ini_get cfg sec key)) value).0 h in
        ((or_default_lem (ini_get cfg sec key) value ne).0 e, ne),
    λ h.
        (unless_empty_lem (or_default [] (ini_get cfg sec key)) value).1
          ((or_default_lem (ini_get cfg sec key) value h.1).1 h.0, h.1),
  )

  with_strings_inv :
      (a b c : Option Text) (src desc local : Text) (n : ℕ)
      → with_strings a b c ≡ syncs src desc local n
      → (a ≡ some src) × (b ≡ some desc) × (c ≡ some local) × (n ≡ 5)
  with_strings_inv (some s) (some d) (some l) src desc local n h = (cc, cc, cc, cc)
  with_strings_inv none b c src desc local n h = cc
  with_strings_inv (some s) none c src desc local n h = cc
  with_strings_inv (some s) (some d) none src desc local n h = cc

  -- The file is there, and has the three strings, which are not empty.
  abbrev pub Configured : Text → Text → Text → Type 0
  Configured src desc local =
      (cfg : Ini) × (ini_load (codes "my.cfg") ≡ some cfg)
      × Holds cfg (codes "src.pgsql") (codes "connect_string") src
      × Holds cfg (codes "desc.pgsql") (codes "connect_string") desc
      × Holds cfg (codes "local.pgsql") (codes "connect_string") local

  with_file_inv :
      (o : Option Ini) (src desc local : Text) (n : ℕ)
      → ini_load (codes "my.cfg") ≡ o
      → with_file o ≡ syncs src desc local n
      → Configured src desc local × (n ≡ 5)
  with_file_inv none src desc local n e h = cc
  with_file_inv (some cfg) src desc local n e h =
      let (s, d, l, five) = with_strings_inv _ _ _ src desc local n h in
      (
        (
          cfg,
          e,
          (get_config-Holds cfg (codes "src.pgsql") (codes "connect_string") src refl).0 s,
          (get_config-Holds cfg (codes "desc.pgsql") (codes "connect_string") desc refl).0 d,
          (get_config-Holds cfg (codes "local.pgsql") (codes "connect_string") local refl).0 l,
        ),
        five,
      )

  -- The program calls `db_sync_main` exactly if the configuration file is there and has the three
  -- connection strings, none of them empty; then with these strings and five threads.
  pub main-syncs :
      (src desc local : Text) (n : ℕ)
      → (main ≡ syncs src desc local n) ↔ (Configured src desc local × (n ≡ 5))
  unfolding main init_config config
  main-syncs src desc local n = (
    λ h. with_file_inv (ini_load (codes "my.cfg")) src desc local n refl h,
    λ h.
        let ((cfg, e, s, d, l), five) = h in
        rw
          (
            e,
            (get_config-Holds cfg (codes "src.pgsql") (codes "connect_string") src refl).1 s,
            (get_config-Holds cfg (codes "desc.pgsql") (codes "connect_string") desc refl).1 d,
            (get_config-Holds cfg (codes "local.pgsql") (codes "connect_string") local refl).1 l,
            five,
          )
          refl,
  )
