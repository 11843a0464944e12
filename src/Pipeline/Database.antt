-- ===== src/Pipeline/Database.antt =====
-- The local database as the table `sync_sqls` of dbsync/pgsync.c lives in it: what another
-- connection sees, and what stands in a transaction that is not committed.
use rds_dbsync.Base.{
  ℕ, suc, Bool, true, false, List, [], ◌∷◌, ◌++◌, Text, codes, str_eq, ◌==◌, if◌then◌else◌,
}
use rds_dbsync.Message.{msgkind_begin, msgkind_commit}
use rds_dbsync.Stream.Loop.{Event, reported, executed, inserted, refused, started}
use rds_dbsync.Apply.{QueueRow}
use rds_dbsync.Pipeline.{Sent, Entry, begun, changed, committed}

-- The rows that the apply thread's connection sees, those of the open transaction, and how many
-- numbers the sequence of the table gave out.
pub record Database : Type 0 where
  pub visible : List QueueRow
  pub pending : List QueueRow
  pub is_open : Bool
  pub count : ℕ

-- A BEGIN within a transaction has no effect but a warning, nor has an END outside of one. A
-- number that was given out is not taken back.
abbrev pub begin_db : Database → Database
begin_db db = record db { is_open = true }

abbrev pub end_db : Database → Database
end_db db = record db { visible = db.visible ++ db.pending; pending = []; is_open = false }

abbrev pub roll_back : Database → Database
roll_back db = record db { pending = []; is_open = false }

abbrev pub new_row : (ℕ → ℕ) → ℕ → Text → QueueRow
new_row serial n sql = record { id = serial n; sql = sql }

abbrev pub insert_db : (ℕ → ℕ) → Text → Database → Database
insert_db serial sql db =
    let rows = new_row serial db.count sql ∷ [] in
    if db.is_open
    then record db { pending = db.pending ++ rows; count = suc db.count }
    else record db { visible = db.visible ++ rows; count = suc db.count }

abbrev pub execute_db : Text → Database → Database
execute_db sql db =
    if str_eq sql (codes "BEGIN")
    then begin_db db
    else if str_eq sql (codes "END")
    then end_db db
    else if str_eq sql (codes "ROLLBACK")
    then roll_back db
    else db

-- A statement that is refused undoes its transaction.
abbrev pub event_db : (ℕ → ℕ) → Event → Database → Database
event_db serial (inserted sql p) db = insert_db serial sql db
event_db serial (executed sql) db = execute_db sql db
event_db serial (refused sql) db = roll_back db
event_db serial (reported packet) db = db
event_db serial (started p) db = db

-- Behind the events, the last one first; at the start the table is empty.
unfoldable pub database : (ℕ → ℕ) → List Event → Database
database serial [] = record { visible = []; pending = []; is_open = false; count = 0 }
database serial (e ∷ es) = event_db serial e (database serial es)

-- The rows for these statements, from this number on.
unfoldable pub new_rows : (ℕ → ℕ) → ℕ → List Text → List QueueRow
new_rows serial n [] = []
new_rows serial n (sql ∷ sqls) = new_row serial n sql ∷ new_rows serial (suc n) sqls

-- The statement of a message of this kind is stored.
abbrev pub store_db : (ℕ → ℕ) → ℕ → Text → Database → Database
store_db serial kind sql db =
    let before = if kind == msgkind_begin then begin_db db else db in
    let behind = insert_db serial sql before in
    if kind == msgkind_commit then end_db behind else behind

module _ {Tuple : Type 0} where
  abbrev pub entry_db : (ℕ → ℕ) → Entry Tuple → Text → Database → Database
  entry_db serial (begun txn) sql db = insert_db serial sql (begin_db db)
  entry_db serial (changed rel change) sql db = insert_db serial sql db
  entry_db serial (committed txn commit_lsn) sql db = end_db (insert_db serial sql db)

  -- The statements of a log, one for each entry.
  unfoldable pub log_db : (ℕ → ℕ) → List (Sent Tuple) → List Text → Database → Database
  log_db serial [] sqls db = db
  log_db serial (s ∷ log) [] db = db
  log_db serial (s ∷ log) (sql ∷ sqls) db = log_db serial log sqls (entry_db serial s.entry sql db)

  -- Whether a transaction is open behind an entry, where it may come.
  abbrev pub Comes : Bool → Entry Tuple → (Bool → Type 0) → Type 0
  Comes false (begun txn) f = f true
  Comes true (changed rel change) f = f true
  Comes true (committed txn commit_lsn) f = f false
  Comes _ _ f = ⊥

  -- The log is made of transactions, one behind the other; whether one is open at its start, and
  -- at its end.
  abbrev pub Transactions : Bool → List (Sent Tuple) → Bool → Type 0
  Transactions true [] true = Unit {0}
  Transactions false [] false = Unit {0}
  Transactions _ [] _ = ⊥
  Transactions b (s ∷ log) end = Comes b s.entry (λ o. Transactions o log end)
