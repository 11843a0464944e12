-- ===== src/Pipeline/Visible.antt =====
-- What another connection sees of the table `sync_sqls` behind whole transactions.
use rds_dbsync.Base.{
  ℕ, suc, ◌<◌, ◌≡◌, ◌∙◌, refl, ap, sym, Bool, true, false, List, [], ◌∷◌, ◌++◌, map, Text,
  append-nil, append_assoc, length, arith,
}
use rds_dbsync.Apply.{QueueRow}
use rds_dbsync.Pipeline.{Sent, Entry, begun, changed, committed}
use rds_dbsync.Pipeline.Database.{
  Database, begin_db, new_row, insert_db, new_rows, entry_db, log_db, Comes, Transactions,
}

-- What holds where a transaction is open, or none is.
abbrev pub Within : Bool → Database → Type 0
Within true db = db.is_open ≡ true
Within false db = (db.is_open ≡ false) × (db.pending ≡ [])

abbrev pub table : Database → List QueueRow
table db = db.visible ++ db.pending

pub table-closed : (db : Database) → Within false db → table db ≡ db.visible
table-closed db h = rw h.1 (append-nil db.visible)

abbrev pub sql_of : QueueRow → Text
sql_of row = row.sql

pub sqls-new_rows :
    (serial : ℕ → ℕ) (n : ℕ) (sqls : List Text) → map sql_of (new_rows serial n sqls) ≡ sqls
unfolding new_rows
sqls-new_rows serial n [] = refl
sqls-new_rows serial n (sql ∷ sqls) = ap (◌∷◌ sql) (sqls-new_rows serial (suc n) sqls)

opened : (b : Bool) (db : Database) → Within b db → b ≡ true → db.is_open ≡ true
opened true db w e = w
opened false db w e = cc

module _ (serial : ℕ → ℕ) where
  -- A row more, within the transaction.
  abbrev Grows : Text → Database → Database → Type 0
  Grows sql db db' =
      (table db' ≡ table db ++ new_row serial db.count sql ∷ []) × (db'.count ≡ suc db.count)

  insert_db-Grows :
      (sql : Text) (db : Database)
      → db.is_open ≡ true
      → ((insert_db serial sql db).is_open ≡ true) × Grows sql db (insert_db serial sql db)
  insert_db-Grows sql db h =
      rw h
        (refl, (sym (append_assoc db.visible db.pending (new_row serial db.count sql ∷ [])), refl))

  module _ {Tuple : Type 0} where
    -- One entry; a begin may come within a transaction, too.
    pub entry_db-Grows :
        (b : Bool) (e : Entry Tuple) (sql : Text) (db : Database) (f : Bool → Type 0)
        → Comes b e f
        → (b ≡ true → db.is_open ≡ true)
        → (o : Bool) × f o
          × Within o (entry_db serial e sql db)
          × Grows sql db (entry_db serial e sql db)
    entry_db-Grows false (begun txn) sql db f c h =
        let (up, grown) = insert_db-Grows sql (begin_db db) refl in (true, c, up, grown)
    entry_db-Grows true (changed rel change) sql db f c h =
        let (up, grown) = insert_db-Grows sql db (h refl) in (true, c, up, grown)
    entry_db-Grows true (committed txn commit_lsn) sql db f c h =
        let (up, (same, count)) = insert_db-Grows sql db (h refl) in
        let db' = insert_db serial sql db in
        (false, c, (refl, refl), (append-nil (db'.visible ++ db'.pending) ∙ same, count))
    entry_db-Grows false (changed rel change) sql db f c h = absurd c
    entry_db-Grows false (committed txn commit_lsn) sql db f c h = absurd c
    entry_db-Grows true (begun txn) sql db f c h = absurd c

    -- A log with a statement for each entry.
    pub log_db-Within :
        (log : List (Sent Tuple)) (sqls : List Text) (db : Database) (b end : Bool)
        → length sqls ≡ length log
        → Transactions b log end
        → Within b db
        → Within end (log_db serial log sqls db)
          × (table (log_db serial log sqls db) ≡ table db ++ new_rows serial db.count sqls)
    unfolding log_db new_rows
    log_db-Within [] [] db true true len t w = (w, sym (append-nil (table db)))
    log_db-Within [] [] db false false len t w = (w, sym (append-nil (table db)))
    log_db-Within [] [] db true false len t w = absurd t
    log_db-Within [] [] db false true len t w = absurd t
    log_db-Within [] (sql ∷ sqls) db b end len t w = ground (arith, len)
    log_db-Within (s ∷ log) [] db b end len t w = ground (arith, len)
    log_db-Within (s ∷ log) (sql ∷ sqls) db b end len t w =
        let db1 = entry_db serial s.entry sql db in
        let (o, t1, w1, (same, count)) =
          entry_db-Grows b s.entry sql db (λ o. Transactions o log end) t (opened b db w) in
        let (done, rows) = log_db-Within log sqls db1 o end (omega arith) t1 w1 in
        (
          done,
          rows
              ∙ ap (λ n. table db1 ++ new_rows serial n sqls) count
              ∙ ap (λ rs. rs ++ new_rows serial (suc db.count) sqls) same
              ∙ append_assoc (table db) (new_row serial db.count sql ∷ [])
                  (new_rows serial (suc db.count) sqls),
        )

    -- A log that comes from its start on within a transaction, as no other begins.
    pub log_db-again :
        (log : List (Sent Tuple)) (sqls : List Text) (db : Database)
        → length sqls ≡ length log
        → Transactions false log false
        → 0 < length log
        → Within false (log_db serial log sqls db)
          × (table (log_db serial log sqls db) ≡ table db ++ new_rows serial db.count sqls)
    unfolding log_db new_rows
    log_db-again [] sqls db len t more = ground (arith, more)
    log_db-again (s ∷ log) [] db len t more = ground (arith, len)
    log_db-again (s ∷ log) (sql ∷ sqls) db len t more =
        let db1 = entry_db serial s.entry sql db in
        let (o, t1, w1, (same, count)) =
          entry_db-Grows false s.entry sql db (λ o. Transactions o log false) t (λ h. cc) in
        let (done, rows) = log_db-Within log sqls db1 o false (omega arith) t1 w1 in
        (
          done,
          rows
              ∙ ap (λ n. table db1 ++ new_rows serial n sqls) count
              ∙ ap (λ rs. rs ++ new_rows serial (suc db.count) sqls) same
              ∙ append_assoc (table db) (new_row serial db.count sql ∷ [])
                  (new_rows serial (suc db.count) sqls),
        )

module _ {Tuple : Type 0} where
  Comes-weaken :
      (b : Bool) (e : Entry Tuple) (f g : Bool → Type 0)
      → Comes b e f
      → ((o : Bool) → f o → g o)
      → Comes b e g
  Comes-weaken false (begun txn) f g c h = h true c
  Comes-weaken true (changed rel change) f g c h = h true c
  Comes-weaken true (committed txn commit_lsn) f g c h = h false c
  Comes-weaken false (changed rel change) f g c h = absurd c
  Comes-weaken false (committed txn commit_lsn) f g c h = absurd c
  Comes-weaken true (begun txn) f g c h = absurd c

  pub Transactions-append :
      (xs ys : List (Sent Tuple)) (a b c : Bool)
      → Transactions a xs b
      → Transactions b ys c
      → Transactions a (xs ++ ys) c
  Transactions-append [] ys true true c h k = k
  Transactions-append [] ys false false c h k = k
  Transactions-append [] ys true false c h k = absurd h
  Transactions-append [] ys false true c h k = absurd h
  Transactions-append (s ∷ xs) ys a b c h k =
      Comes-weaken a s.entry (λ o. Transactions o xs b) (λ o. Transactions o (xs ++ ys) c) h
        (λ o t. Transactions-append xs ys o b c t k)

  -- Where a transaction is opened, there is an entry.
  pub opened-entry : (log : List (Sent Tuple)) → Transactions false log true → 0 < length log
  opened-entry [] t = absurd t
  opened-entry (s ∷ log) t = omega arith
