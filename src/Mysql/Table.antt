-- ===== src/Mysql/Table.antt =====
-- A table's turn in `mysql2pgsql_copy_data` (dbsync/mysql2pgsql.c): the query at the source, the
-- COPY at the target and its transaction.
pub mod Committed
use rds_dbsync.Base.{
  ℕ, Bool, true, false, ◌&&◌, Option, none, some, List, [], ◌∷◌, ◌++◌, map, Text, codes,
  if◌then◌else◌, ltb,
}
use rds_dbsync.Quote.{Escapes, TypeOid}
use rds_dbsync.Connections.{
  Command, execute, put_copy_data, put_copy_end, get_result, History, Server, issue,
  start_copy_target_tx, finish_copy_target_tx,
}
use rds_dbsync.Mysql.{Field, Options, fetch_colmum_info}
use rds_dbsync.Mysql.Copy.{Row, Copying, CopyState, CopyOutcome, going, exited, copy_table_rows}

-- `Task_hd`, as it is given to a thread.
pub record Task : Type 0 where
  pub schemaname : Option Text
  pub relname : Text
  pub query : Option Text

-- What `mysql_fetch_row` gives before its first NULL, which stands for the end of the rows or for an
-- error: `mysql_use_result` leaves the rows at the server. The loop does not ask which it was.
pub data FetchEnd : Type 0 where
  all_fetched fetch_failed : FetchEnd

pub record Fetched : Type 0 where
  pub rows : List Row
  pub ending : FetchEnd

-- What a thread works with: the target and how libpq writes an identifier for it, the source (the
-- columns of a query's result and what is fetched of it, `none` where the query fails), and when
-- the program is told to stop, by the number of the rows of the table that are counted.
pub record Env : Type 0 where
  pub options : Options
  pub esc : Escapes
  pub db : Text
  pub source : Text → Option (List Field × Fetched)
  pub server : Server
  pub escape_identifier : Text → Text
  pub isgp : Bool
  pub desc_version : ℕ
  pub desc_is_greenplum : Bool
  pub ignore_error_count : ℕ
  pub decimal : ℕ → Text
  pub time_to_abort : ℕ → Bool

-- Whether the thread goes to its exit, `complete`, what `count` is set to, and the target.
pub record TableResult : Type 0 where
  pub exits : Bool
  pub complete : Bool
  pub count : Option ℕ
  pub history : History

abbrev pub exit_with : Option ℕ → History → TableResult
exit_with count history = record {
  exits = true;
  complete = false;
  count = count;
  history = history;
}

abbrev pub completed : Option ℕ → History → TableResult
completed count history = record {
  exits = false;
  complete = true;
  count = count;
  history = history;
}

-- `goto exit` where a call does not have the status asked for.
abbrev pub require : Option ℕ → Bool × History → (History → TableResult) → TableResult
require count (true, history) f = f history
require count (false, history) f = exit_with count history

module _ (env : Env) where
  abbrev or_all : Text → Option Text → Text
  or_all relname none = codes "select * from `" ++ env.db ++ codes "`.`" ++ relname ++ codes "`"
  or_all relname (some query) = query

  -- `STMT_SELECT`, or the query of the table's line.
  abbrev pub select_text : Task → Text
  select_text task = or_all task.relname task.query

  abbrev pub source_query : Task → Text
  source_query task =
      select_text task ++ (if env.options.get_ddl_only then codes " limit 1 " else [])

  abbrev target_schema : Option Text → Text
  target_schema none = []
  target_schema (some schema) = env.escape_identifier schema ++ codes "."

  abbrev pub copy_text : Task → Text
  copy_text task =
      codes "COPY "
      ++ target_schema task.schemaname
      ++ env.escape_identifier task.relname
      ++ codes " FROM stdin DELIMITERS '|' with csv QUOTE ''''"
      ++ (if env.isgp && ltb 0 env.ignore_error_count
          then codes " SEGMENT REJECT LIMIT " ++ env.decimal env.ignore_error_count
          else [])

  -- The rows are copied on a target that has been asked this.
  abbrev pub copying : List TypeOid → History → Copying
  copying column_oids history = record {
    esc = env.esc;
    column_oids = column_oids;
    buffer_size = env.options.buffer_size;
    puts = λ sent t. env.server (history ++ map put_copy_data sent) (put_copy_data t);
    time_to_abort = env.time_to_abort;
  }

  -- The end of the COPY and of the transaction, whose result is not looked at.
  abbrev finish : ℕ → History → TableResult
  finish row_count history = require (some row_count) (issue env.server put_copy_end history) (λ h.
      require (some row_count) (issue env.server get_result h)
        (λ h'. completed (some row_count) (finish_copy_target_tx env.server h').1))

  -- What follows the loop over the rows.
  abbrev pub after_rows : History → CopyOutcome → TableResult
  after_rows history (going s) = finish s.row_count (history ++ map put_copy_data s.sent)
  after_rows history (exited true s) =
      exit_with (some s.row_count) (history ++ map put_copy_data s.sent)
  after_rows history (exited false s) =
      exit_with none (history ++ map put_copy_data s.sent ++ put_copy_data s.query ∷ [])

  abbrev pub with_columns : Task → List Row → Option (List TypeOid × Text) → History → TableResult
  with_columns task rows none history = exit_with none history
  with_columns task rows (some (column_oids, ddl)) history =
      let copied =
        require none (issue env.server (execute (copy_text task)) history)
          (λ h. after_rows h (copy_table_rows (copying column_oids h) rows)) in
      if env.options.get_ddl_only then completed none history else copied

  abbrev pub with_result : Task → Option (List Field × Fetched) → History → TableResult
  with_result task none history = exit_with none history
  with_result task (some (fields, fetched)) history =
      with_columns task fetched.rows
        (fetch_colmum_info env.options task.schemaname task.relname fields env.isgp) history

  -- The transaction of a table; whether it began is not looked at.
  abbrev pub begun_table : History → History
  begun_table history =
      if env.options.get_ddl_only
      then history
      else (start_copy_target_tx env.server env.desc_version env.desc_is_greenplum history).1

  unfoldable pub copy_table : Task → History → TableResult
  copy_table task history = with_result task (env.source (source_query task)) (begun_table history)
