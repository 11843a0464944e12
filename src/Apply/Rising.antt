-- ===== src/Apply/Rising.antt =====
-- Rows of `sync_sqls` whose ids grow, under the cursor of dbsync/pgsync.c.
use rds_dbsync.Base.{
  ℕ, ◌<◌, ◌≤◌, ◌≡◌, refl, ap, ◌∙◌, true, false, List, [], ◌∷◌, ◌++◌, arith, ltb, lt→ltb, leb,
  if◌then◌else◌, All, Bool,
}
use rds_dbsync.Apply.{QueueRow, newer, insert_by_id, order_by_id, rows_behind}

-- The ids grow from row to row, and the first is larger than `low`.
abbrev pub Rising : ℕ → List QueueRow → Type 0
Rising low [] = Unit {0}
Rising low (row ∷ rows) = (low < row.id) × Rising row.id rows

newer-append : (k : ℕ) (xs ys : List QueueRow) → newer k (xs ++ ys) ≡ newer k xs ++ newer k ys
unfolding newer
newer-append k [] ys = refl
newer-append k (row ∷ xs) ys = prefix_lem (ltb k row.id) (newer-append k xs ys)
  where
    prefix_lem :
        (c : Bool)
        → newer k (xs ++ ys) ≡ newer k xs ++ newer k ys
        → (if c then row ∷ newer k (xs ++ ys) else newer k (xs ++ ys))
          ≡ (if c then row ∷ newer k xs else newer k xs) ++ newer k ys
    prefix_lem true e = ap (◌∷◌ row) e
    prefix_lem false e = e

ltb_old : (k id : ℕ) → id ≤ k → ltb k id ≡ false
ltb_old k id h = ground arith

leb_new : (k id : ℕ) → k < id → leb k id ≡ true
leb_new k id h = ground arith

newer_old : (k : ℕ) (rows : List QueueRow) → All (λ row. row.id ≤ k) rows → newer k rows ≡ []
unfolding newer
newer_old k [] h = refl
newer_old k (row ∷ rows) (old, h) = rw (ltb_old k row.id old) (newer_old k rows h)

newer-Rising : (k low : ℕ) (rows : List QueueRow) → k ≤ low → Rising low rows → newer k rows ≡ rows
unfolding newer
newer-Rising k low [] h r = refl
newer-Rising k low (row ∷ rows) h (up, r) =
    rw (lt→ltb k row.id (omega arith)) (ap (◌∷◌ row) (newer-Rising k row.id rows (omega arith) r))

insert_by_id-Rising :
    (row : QueueRow) (rows : List QueueRow)
    → Rising row.id rows
    → insert_by_id row rows ≡ row ∷ rows
unfolding insert_by_id
insert_by_id-Rising row [] r = refl
insert_by_id-Rising row (first ∷ rows) (up, r) = rw (leb_new row.id first.id up) refl

order_by_id-Rising : (low : ℕ) (rows : List QueueRow) → Rising low rows → order_by_id rows ≡ rows
unfolding order_by_id
order_by_id-Rising low [] r = refl
order_by_id-Rising low (row ∷ rows) (up, r) =
    ap (insert_by_id row) (order_by_id-Rising row.id rows r) ∙ insert_by_id-Rising row rows r

-- The cursor finds just the new rows.
pub rows_behind-Rising :
    (k : ℕ) (table rows : List QueueRow)
    → All (λ row. row.id ≤ k) table
    → Rising k rows
    → rows_behind k (table ++ rows) ≡ rows
unfolding rows_behind
rows_behind-Rising k table rows old r =
    ap order_by_id (
      newer-append k table rows
      ∙ ap (λ xs. xs ++ newer k rows) (newer_old k table old)
      ∙ newer-Rising k k rows (omega arith) r)
    ∙ order_by_id-Rising k rows r
