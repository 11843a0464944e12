-- ===== src/Mysql/Program.antt =====
-- The program mysql2pgsql: `main` (dbsync/dbsync-mysql2pgsql.c). What `getopt`, `atoi`, the reader
-- of the configuration and the file system give is an argument.
pub mod Required
use rds_dbsync.Base.{
  ℕ, ◌*◌, ◌+◌, ◌-◌, ◌%◌, ◌^◌, ltb, Bool, true, false, Option, none, some, List, [], ◌∷◌, Text,
  codes, if◌then◌else◌, ◌>>=◌,
}
use rds_dbsync.TableList.{Arrays, load_table_list_file}
use rds_dbsync.Mysql.{Options}

-- The variables that the options set.
pub record Settings : Type 0 where
  pub num_thread : ℕ
  pub options : Options
  pub target_schema : Option Text
  pub table_list_file : Option Text
  pub cfg_file : Text

abbrev pub defaults : Settings
defaults = record {
  num_thread = 5;
  options = record {
    get_ddl_only = false;
    simple_wo_part = false;
    first_col_as_dist_key = false;
    buffer_size = 0;
  };
  target_schema = none;
  table_list_file = none;
  cfg_file = codes "my.cfg";
}

-- A result of `getopt`: the options of the string ":l:c:j:dnfhs:b:", an option without its value,
-- an option that is not known, and what else there might be.
pub data Opt : Type 0 where
  l c j b s : Text → Opt
  d n f h missing unknown : Opt
  otherwise : ℕ → Opt

-- What `main` returns by itself.
pub data Status : Type 0 where
  success failure minus_one : Status

pub data Parsed : Type 0 where
  parsed : Settings → Parsed
  returns : Status → Parsed

-- The arguments of `mysql2pgsql_sync_main`, with those of `src` that are configured.
pub record Call : Type 0 where
  pub desc : Text
  pub num_thread : ℕ
  pub host : Text
  pub port : ℕ
  pub user : Text
  pub passwd : Text
  pub db : Text
  pub encodingdir : Text
  pub encoding : Text
  pub lists : Option Arrays
  pub target_schema : Option Text
  pub ignore_copy_error_count_each_table : ℕ
  pub options : Options

pub data Outcome : Type 0 where
  ends : Status → Outcome
  syncs : Call → Outcome

abbrev pub with_lists : Call → Option Arrays → Outcome
with_lists call none = ends minus_one
with_lists call (some arrays) = syncs (record call { lists = some arrays })

abbrev pub with_list_file : (Text → Option (List ℕ)) → Call → Option Text → Outcome
with_list_file read call none = syncs call
with_list_file read call (some name) = with_lists call (load_table_list_file (read name))

abbrev then_set : Parsed → (Settings → Parsed) → Parsed
then_set (parsed t) g = g t
then_set (returns status) g = returns status

-- The table list, where one is named, is loaded when all values are there.
abbrev pub with_call : (Text → Option (List ℕ)) → Settings → Option Call → Outcome
with_call read t none = ends failure
with_call read t (some call) = with_list_file read call t.table_list_file

-- Only one thread where just the statements are generated.
abbrev pub threads_of : Settings → ℕ
threads_of t = if t.options.get_ddl_only then 1 else t.num_thread

-- The bits of an int as the size_t that it becomes beside a length.
abbrev pub int_to_size : ℕ → ℕ
int_to_size bits = if ltb bits (2 ^ 31) then bits else bits + (2 ^ 64 - 2 ^ 32)

-- `atoi` gives an int as its 32 bits, a negative one in two's complement; a product of ints is taken
-- to wrap.
module _ (atoi : Text → ℕ) where
  -- One turn of the loop over the options.
  abbrev pub set_option : Opt → Settings → Parsed
  set_option (l value) t = parsed (record t { table_list_file = some value })
  set_option (c value) t = parsed (record t { cfg_file = value })
  set_option (j value) t = parsed (record t { num_thread = atoi value })
  set_option (b value) t = parsed (record t {
    options = record t.options { buffer_size = int_to_size (1024 * atoi value % 2 ^ 32) };
  })
  set_option (s value) t = parsed (record t { target_schema = some value })
  set_option d t = parsed (record t { options = record t.options { get_ddl_only = true } })
  set_option n t = parsed (record t { options = record t.options { simple_wo_part = true } })
  set_option f t = parsed (record t { options = record t.options { first_col_as_dist_key = true } })
  set_option h t = returns success
  set_option missing t = parsed t
  set_option unknown t = parsed t
  set_option (otherwise res) t = returns minus_one

  unfoldable pub set_options : List Opt → Settings → Parsed
  set_options [] t = parsed t
  set_options (o ∷ os) t = then_set (set_option o t) (set_options os)

  -- `none`, where it is given, is the value 0.
  abbrev count_of : Option Text → ℕ
  count_of none = 0
  count_of (some t) = atoi t

  -- The chain of `get_config`, and the test that no value is missing; the call without the arrays.
  unfoldable pub configured : Settings → (Text → Text → Option Text) → Option Call
  configured t config = config (codes "src.mysql") (codes "host") >>= λ host.
      config (codes "src.mysql") (codes "port") >>= λ sport.
      config (codes "src.mysql") (codes "user") >>= λ user.
      config (codes "src.mysql") (codes "password") >>= λ passwd.
      config (codes "src.mysql") (codes "db") >>= λ db.
      config (codes "src.mysql") (codes "encodingdir") >>= λ encodingdir.
      config (codes "src.mysql") (codes "encoding") >>= λ encoding.
      config (codes "desc.pgsql") (codes "connect_string") >>= λ desc. some (record {
        desc = desc;
        num_thread = threads_of t;
        host = host;
        port = atoi sport;
        user = user;
        passwd = passwd;
        db = db;
        encodingdir = encodingdir;
        encoding = encoding;
        lists = none;
        target_schema = t.target_schema;
        ignore_copy_error_count_each_table =
            count_of (config (codes "desc.pgsql") (codes "ignore_copy_error_count_each_table"));
        options = t.options;
      })

  abbrev pub with_config :
      (Text → Option (List ℕ)) → Settings → Option (Text → Text → Option Text) → Outcome
  with_config read t none = ends failure
  with_config read t (some config) = with_call read t (configured t config)

  abbrev pub with_settings :
      (Text → Option (List ℕ)) → (Text → Option (Text → Text → Option Text)) → Parsed → Outcome
  with_settings read init_config (returns status) = ends status
  with_settings read init_config (parsed t) = with_config read t (init_config t.cfg_file)

  -- `main`, with the reader of files, and `init_config` with the `get_config` of its result.
  unfoldable pub main :
      (Text → Option (List ℕ)) → (Text → Option (Text → Text → Option Text)) → List Opt → Outcome
  main read init_config opts = with_settings read init_config (set_options opts defaults)
