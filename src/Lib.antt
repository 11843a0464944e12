-- ===== src/Lib.antt =====
-- A verification library for rds_dbsync, which copies a PostgreSQL or MySQL database to a target
-- and keeps a PostgreSQL source replicated by logical decoding.
--
-- The parts and their files:
-- * ali_decoding/ali_decoding.c, the output plugin that runs in the source server: Plugin.antt.
--   Each callback takes the buffer it writes to and returns what is sent (pg_decode_begin_txn,
--   pg_decode_commit_txn, pg_decode_change, write_rel, write_tuple, write_colum_info);
--   Plugin/Startup.antt has pg_decode_startup and its options. Plugin/Described.antt says which
--   message a change is; Plugin/Format.antt and Plugin/Changes.antt prove what is written.
-- * dbsync/pg_logicaldecode.h and dbsync/pg_logicaldecode.c, the client's end of the protocol:
--   Message.antt has ALI_PG_DECODE_MESSAGE, Decode.antt the handlers and Decode/Parts.antt what
--   they share, as readers that pass on the input that is left. A write behind an array is
--   `none`. The rest of Decode/ proves what is read back.
-- * Wire.antt is the format of the messages as a description of its own, between the two ends.
--   Codec.antt puts the ends together.
-- * dbsync/utils.c 118-669 and 1781-1824, from a message to a SQL statement: Sql.antt, over
--   Sql/Choice.antt, with the proofs in the rest of Sql/. A null pointer that is read is `none`.
-- * quote_literal_internal (dbsync/misc.c), quote_literal_local (dbsync/utils.c) and
--   quote_literal_local_withoid (dbsync/mysql2pgsql.c): Quote.antt. Quote/Literal.antt has
--   the lexer of the target for literals, Quote/Csv.antt its reader of copied fields.
-- * dbsync/utils.c 49-116, 671-789 and 1318-1346, the log of the messages: Log.antt has
--   out_put_decode_message and init_logfile, Log/Writes.antt the loop that writes.
-- * dbsync/utils.c 965-979, 1025-1091 and 1537-1634, a frame of exec_logical_decoder, sendFeedback
--   and their integers: Stream.antt, with the proofs in Stream/. Stream/Loop.antt has the loop of
--   exec_logical_decoder around a frame, from turn to turn of its socket, and Stream/Clock.antt
--   how long it sleeps and the timestamps.
-- * dbsync/utils.c 834-963, 1093-1396 and 1751-1864, the replication connection, its slot, the start
--   of the stream and the text of a position: Replication.antt, Replication/Connect.antt for
--   GetConnection, and Replication/Lsn.antt.
-- * dbsync/pgsync.c, the thread that receives: Receive.antt has the loop of
--   logical_decoding_receive_thread, with the trace of what it tells the source and of what it
--   stores, Receive/Start.antt what stands before the loop; the proofs are in Receive/.
-- * dbsync/pgsync.c, the entry for a PostgreSQL source: SyncMain.antt has db_sync_main as the list
--   of its actions, SyncMain/Order.antt the order of them; TableCopy.antt has a table's turn of
--   copy_table_data, TableCopy/Thread.antt its thread.
-- * dbsync/pgsync.c, the thread that applies the queue of statements: Apply.antt, with the proofs
--   in Apply/, and Apply/Start.antt for what stands before its loop. The target is what it answers
--   to a statement and how that changes it.
-- * Pipeline.antt puts the parts together, from the callbacks of the plugin to the target.
-- * dbsync/demo.cpp, the program that logs the changes of a database: Demo.antt.
-- * dbsync/readcfg.cpp and dbsync/dbsync-pgsql2pgsql.c, the configuration and the program for a
--   PostgreSQL source: Config.antt.
-- * dbsync/pgsync.c and dbsync/mysql2pgsql.c, the task queue of the copy threads: Tasks.antt, with
--   the takes of all threads as a step relation.
-- * dbsync/dbsync-mysql2pgsql.c, the program for a MySQL source: TableList.antt has
--   load_table_list_file on the bytes of the file, with the proofs in TableList/;
--   Mysql/Program.antt has main, from the options to the call of mysql2pgsql_sync_main.
-- * dbsync/mysql2pgsql.c, the copy of a MySQL source: Mysql.antt has fetch_colmum_info,
--   Mysql/Connect.antt connect_to_mysql, Mysql/Copy.antt the loop over the rows,
--   Mysql/Table.antt a table's turn of mysql2pgsql_copy_data, Mysql/Sync.antt the loop of a thread and
--   the queue and the sums of mysql2pgsql_sync_main. Mysql/Columns.antt, Mysql/Chunks.antt,
--   Mysql/Whole.antt, Mysql/Lines.antt and the modules below Table, Sync and Program hold the proofs.
-- * dbsync/misc.c 86-131 and 160-334, the settings and the transactions of a connection:
--   Connections.antt. A connection is the list of what was asked on it; the server is a function
--   from that list and the next call to whether the call has the status that the code asks for.
-- * Base.antt is what the files share, Examples.antt the concrete buffers, messages and targets on
--   which the theorems are applied.
--
-- The plugin and the decoder interact over the bytes on the wire only; the decoder fills the
-- message that the SQL generation reads; its statements are the rows of the apply thread's queue.
-- A round of the apply thread reads what another connection sees of its table by then, in the order
-- of the ids; the receiving thread adds rows to it in one transaction of the local database for each
-- transaction of the source. Pipeline/Database.antt has the local database as PostgreSQL documents
-- it: rows of an open transaction are not seen before END, and a number of a sequence is not taken
-- back. Pipeline/Visible.antt follows it over a log of whole transactions.
-- The arrays of the table list become the queue of the copy threads, whose tables go through the
-- settings and the transactions of a connection.
--
-- PostgreSQL's message buffers (Pqformat.antt), the functions of the source server (the record
-- Server of Plugin.antt), SQL_STR_DOUBLE (the record Escapes of Quote.antt), strtoul, the parser
-- of the configuration file and the target database are parameters. Each loop is structural
-- recursion on its number of rounds or on the list that it goes through; the two loops of
-- mysql2pgsql_sync_main that look for a NULL run on the number of cells of the array, and are
-- proved to find it. The loop that writes the log runs on the answers of write, and is proved to
-- end where each takes a byte. Arrays hold 1664 cells as in the header; integers on the wire are
-- bounded by their width, `2 ^ 16`, `2 ^ 32` and `2 ^ 64`; `atoi` gives the 32 bits of an int. The
-- rows that mysql_fetch_row gives end in a NULL, for their end or for an error.
--
-- Not modelled: memory contexts and allocation, what goes to the standard error, the wrappers of the
-- thread library, the connections of libpq, what the MySQL client library does, the helpers of the
-- configuration that nothing calls, and the copies of PostgreSQL's and other projects' code
-- (dbsync/pqformat.c, dbsync/stringinfo.c, dbsync/ini.c, the end of dbsync/misc.c).
pub mod Apply
pub mod Base
pub mod Codec
pub mod Config
pub mod Connections
pub mod Decode
pub mod Demo
pub mod Examples
pub mod Log
pub mod Message
pub mod Mysql
pub mod Pipeline
pub mod Plugin
pub mod Pqformat
pub mod Quote
pub mod Receive
pub mod Replication
pub mod Sql
pub mod Stream
pub mod SyncMain
pub mod TableCopy
pub mod TableList
pub mod Tasks
pub mod Wire
