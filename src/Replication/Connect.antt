-- ===== src/Replication/Connect.antt =====
-- `GetConnection` (dbsync/utils.c): the parameters of the replication connection and its checks. What
-- libpq makes of the string and of the parameters is an argument.
pub mod Filled
use rds_dbsync.Base.{
  ℕ, suc, ◌+◌, ◌<◌, ◌≡◌, ◌∙◌, refl, ap, sym, Bool, true, false, not, ◌&&◌, Option, none, some, List,
  [], ◌∷◌, ◌++◌, map, append_assoc, append-nil, arith, Text, codes, str_eq, length, length-append,
  length-snoc, length-map, map-snoc, ltb, lt→ltb, if◌then◌else◌, ◌>>=◌, array, store, store-array,
  store-array-map, array-snoc_default,
}

-- A `PQconninfoOption`: its keyword, and its value, if it has one.
abbrev pub ConnOption : Type 0
ConnOption = Text × Option Text

-- `val != NULL && val[0] != '\0'`.
abbrev pub is_set : Option Text → Bool
is_set none = false
is_set (some []) = false
is_set (some (c ∷ cs)) = true

-- The count of the options that are set, above 7.
unfoldable pub argcount : List ConnOption → ℕ
argcount [] = 7
argcount ((keyword, val) ∷ opts) = let rest = argcount opts in if is_set val then suc rest else rest

-- The two arrays, as large as `pg_malloc0` made them, and `i`.
pub record Params : Type 0 where
  pub size : ℕ
  pub keywords : ℕ → Option Text
  pub values : ℕ → Option Text
  pub i : ℕ

abbrev pub new_params : ℕ → Params
new_params size = record { size = size; keywords = array none []; values = array none []; i = 0 }

-- Writes at `i`; `none` is a write behind the arrays.
unfoldable pub put : Option Text → Option Text → Params → Option Params
put keyword value p =
    if ltb p.i p.size
    then some
        (record p { keywords = store p.keywords p.i keyword; values = store p.values p.i value })
    else none

-- `i++`.
abbrev pub next : Params → Params
next p = record p { i = suc p.i }

abbrev pub add : Text → Option Text → Params → Option Params
add keyword value p = put (some keyword) value p >>= λ q. some (next q)

unfoldable pub add_options : List ConnOption → Params → Option Params
add_options [] p = some p
add_options ((keyword, val) ∷ opts) p =
    (if is_set val then add keyword val p else some p) >>= λ q. add_options opts q

-- The parameters that are given to the library.
unfoldable pub params_of : List ConnOption → Option Params
params_of opts = do
  p ← add_options opts (new_params (suc (argcount opts)))
  q ← add (codes "replication") (some (codes "database")) p
  r ← add (codes "fallback_application_name") (some (codes "ali_logicaldecode")) q
  put none none r

-- What the library answers: no memory for a connection, one that failed, or one with its
-- `integer_datetimes`.
pub data Dialled : Type 0 where
  no_memory failed : Dialled
  dialled : Option Text → Dialled

-- `exit(1)`, NULL, or a connection.
pub data Connection : Type 0 where
  exits no_connection connected : Connection

-- `int64_timestamp` says whether HAVE_INT64_TIMESTAMP is defined.
unfoldable pub check_datetimes : Bool → Option Text → Connection
check_datetimes int64_timestamp none = exits
check_datetimes int64_timestamp (some value) =
    if str_eq value (if int64_timestamp then codes "on" else codes "off") then connected else exits

abbrev pub behind_dial : Bool → Dialled → Connection
behind_dial int64_timestamp no_memory = exits
behind_dial int64_timestamp failed = no_connection
behind_dial int64_timestamp (dialled value) = check_datetimes int64_timestamp value

module _ (int64_timestamp : Bool) (parse : Text → Option (List ConnOption))
    (dial : Params → Dialled) where
  abbrev pub dial_with : List ConnOption → Option Connection
  dial_with opts = params_of opts >>= λ p. some (behind_dial int64_timestamp (dial p))

  abbrev pub behind_parse : Option (List ConnOption) → Option Connection
  behind_parse none = some exits
  behind_parse (some opts) = dial_with opts

  -- Without a string only the fixed parameters are given.
  unfoldable pub get_connection : Option Text → Option Connection
  get_connection none = dial_with []
  get_connection (some connection_string) = behind_parse (parse connection_string)
