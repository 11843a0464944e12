-- ===== src/Connections.antt =====
-- Connections to PostgreSQL: the settings and the transactions of dbsync/misc.c. A connection is
-- what was asked on it so far; what libpq answers is an argument.
pub mod Settings
use rds_dbsync.Base.{
  ℕ, Bool, true, false, ◌&&◌, ◌||◌, not, Option, none, some, List, [], ◌∷◌, ◌++◌, Text, codes, leb,
  ◌==◌, if◌then◌else◌,
}

-- The calls of libpq that change a session.
pub data Command : Type 0 where
  execute : Text → Command
  set_client_encoding : Text → Command
  put_copy_data : Text → Command
  put_copy_end : Command
  get_result : Command

abbrev pub History : Type 0
History = List Command

-- Whether a call, behind those that went before, has the status that the code asks for.
abbrev pub Server : Type 0
Server = History → Command → Bool

-- What a function returns, and the connection behind it.
abbrev pub Answer : Type 0
Answer = ℕ × History

abbrev snapshot_text : Option Text → Text
snapshot_text none = []
snapshot_text (some snapshot) = codes "SET TRANSACTION SNAPSHOT '" ++ snapshot ++ codes "';\n"

-- The statement that begins the transaction at the origin.
abbrev pub origin_begin : Option Text → Bool → Text
origin_begin snapshot is_greenplum =
    (if is_greenplum
      then codes "BEGIN"
      else codes "BEGIN TRANSACTION ISOLATION LEVEL REPEATABLE READ, READ ONLY;\n")
    ++ snapshot_text snapshot

abbrev pub target_begin : Text
target_begin = codes "BEGIN TRANSACTION ISOLATION LEVEL READ COMMITTED;\n"

module _ (server : Server) where
  unfoldable pub issue : Command → History → Bool × History
  issue command history = (server history command, history ++ command ∷ [])

  abbrev rc_of : Bool × History → Answer
  rc_of (ok, history) = (if ok then 0 else 1, history)

  -- `ExecuteSqlStatement`.
  unfoldable pub execute_sql_statement : Text → History → Answer
  execute_sql_statement query history = rc_of (issue (execute query) history)

  -- A statement whose result is not looked at, where the test holds.
  unfoldable pub set_if : Bool → Text → History → History
  set_if condition query history =
      let (rc, after) = execute_sql_statement query history in if condition then after else history

  -- Which digits a server writes depends on its version.
  abbrev float_digits : ℕ → History → History
  float_digits remote_version history =
      let new = set_if true (codes "SET extra_float_digits TO 3") history in
      let old = set_if (leb 70400 remote_version) (codes "SET extra_float_digits TO 2") history in
      if leb 90000 remote_version then new else old

  -- The settings, one after the other.
  abbrev pub set_all : ℕ → Bool → History → History
  set_all remote_version is_greenplum h0 =
      let h1 = set_if true (codes "SET DATESTYLE = ISO") h0 in
      let h2 = set_if (leb 80400 remote_version) (codes "SET INTERVALSTYLE = POSTGRES") h1 in
      let h3 = float_digits remote_version h2 in
      let h4 =
        set_if (leb 80300 remote_version && not is_greenplum)
          (codes "SET synchronize_seqscans TO off") h3 in
      let h5 = set_if (leb 70300 remote_version) (codes "SET statement_timeout = 0") h4 in
      set_if (leb 90300 remote_version) (codes "SET lock_timeout = 0") h5

  unfoldable pub setup_connection : ℕ → Bool → History → Answer
  setup_connection remote_version is_greenplum history =
      let (ok, asked) = issue (set_client_encoding (codes "utf8")) history in
      let set = set_all remote_version is_greenplum asked in if ok then (0, set) else (1, asked)

  -- `BEGIN` and, where it succeeds, the settings.
  abbrev begin_with : Text → ℕ → Bool → History → Answer
  begin_with query pg_version is_greenplum history =
      let (ok, begun) = issue (execute query) history in
      let (rc, set_up) = setup_connection pg_version is_greenplum begun in
      if ok then (0, set_up) else (1, begun)

  unfoldable pub start_copy_origin_tx : Option Text → ℕ → Bool → History → Answer
  start_copy_origin_tx snapshot pg_version is_greenplum =
      begin_with (origin_begin snapshot is_greenplum) pg_version is_greenplum

  unfoldable pub start_copy_target_tx : ℕ → Bool → History → Answer
  start_copy_target_tx pg_version is_greenplum = begin_with target_begin pg_version is_greenplum

  unfoldable pub finish_copy_origin_tx : History → Answer
  finish_copy_origin_tx history = rc_of (issue (execute (codes "ROLLBACK")) history)

  unfoldable pub finish_copy_target_tx : History → Answer
  finish_copy_target_tx history = rc_of (issue (execute (codes "COMMIT")) history)

  -- `setup_connection_from_mysql` of dbsync/mysql2pgsql.c.
  unfoldable pub setup_connection_from_mysql : History → Answer
  setup_connection_from_mysql history = (
    0,
    set_if true (codes "SET backslash_quote TO on")
        (set_if true (codes "SET standard_conforming_strings TO off") history),
  )

-- `strstr(s, t) != NULL`.
unfoldable pub starts_with : Text → Text → Bool
starts_with [] t = true
starts_with (c ∷ cs) [] = false
starts_with (c ∷ cs) (d ∷ ds) = c == d && starts_with cs ds

unfoldable pub contains : Text → Text → Bool
contains t [] = starts_with t []
contains t (c ∷ cs) = starts_with t (c ∷ cs) || contains t cs

-- What the query for the version returns, if it succeeds.
unfoldable pub is_greenplum : Option Text → Bool
is_greenplum none = false
is_greenplum (some version) = contains (codes "Greenplum") version

-- The string with which a connection is asked for; whether it stands.
abbrev pub dsn : Text → Text → Text
dsn connstring connname =
    connstring ++ (codes " fallback_application_name='" ++ (connname ++ codes "'"))

unfoldable pub pglogical_connect : (Text → Bool) → Text → Text → Bool
pglogical_connect connects connstring connname = connects (dsn connstring connname)
