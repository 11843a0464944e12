-- ===== src/Mysql/Whole.antt =====
-- A COPY that nothing stops sends the lines of all rows.
use rds_dbsync.Base.{
  ℕ, ◌≡◌, refl, true, false, Bool-cases, inl, inr, List, [], ◌∷◌, map, Text, length, leb, ltb,
}
use rds_dbsync.Mysql.Copy.{
  Row, CopyState, CopyOutcome, going, Copying, put_copy_data, add_row, flush_full, copy_row,
  copy_rows, flush_rest, copy_table_rows,
}
use rds_dbsync.Mysql.Chunks.{concat, line, start, copy_table_rows-going}

abbrev True : CopyState → Type 0
True s = Unit

module _ (env : Copying) (takes : (sent : List Text) (t : Text) → env.puts sent t ≡ true)
    (no_abort : (n : ℕ) → env.time_to_abort n ≡ false) where
  abbrev Goes : (CopyState → Type 0) → CopyOutcome → Type 0
  Goes P o = (s : CopyState) × (o ≡ going s) × P s

  put-Goes : (s : CopyState) → Goes True (put_copy_data env s)
  put-Goes s = rw (takes s.sent s.query) (_, refl, tt)

  flush_full-Goes : (s : CopyState) → Goes True (flush_full env s)
  flush_full-Goes s = elim (Bool-cases (leb env.buffer_size (length s.query))) [
    | inl e ↦ let (t, g, q) = put-Goes s in rw e (t, g, tt)
    | inr e ↦ rw e (s, refl, tt)
  ]

  copy_row-Goes : (row : Row) (s : CopyState) → Goes True (copy_row env row s)
  unfolding copy_row
  copy_row-Goes row s =
      let (t, g, q) = flush_full-Goes (add_row env row s) in
      rw (g, no_abort t.row_count) (t, refl, tt)

  copy_rows-Goes : (rows : List Row) (s : CopyState) → Goes True (copy_rows env rows s)
  unfolding copy_rows
  copy_rows-Goes [] s = (s, refl, tt)
  copy_rows-Goes (row ∷ rows) s =
      let (t, g, q) = copy_row-Goes row s in rw g (copy_rows-Goes rows t)

  flush_rest-Goes : (s : CopyState) → Goes True (flush_rest env s)
  flush_rest-Goes s = elim (Bool-cases (ltb 0 (length s.query))) [
    | inl e ↦ rw (e, takes s.sent s.query) (_, refl, tt)
    | inr e ↦ rw e (s, refl, tt)
  ]

  -- If the target takes all data and no abort is asked for, then the copy goes on to the end, the
  -- rows are all counted, and the data taken are the lines of all rows, one behind the other,
  -- whatever the size of the buffer.
  pub copy_table_rows-sent :
      (rows : List Row)
      → (s : CopyState) × (copy_table_rows env rows ≡ going s)
        × (s.row_count ≡ length rows)
        × (concat s.sent ≡ concat (map (line env) rows))
  unfolding copy_table_rows
  copy_table_rows-sent rows =
      let (t, g, q) = copy_rows-Goes rows start in
      let (u, g', q') = flush_rest-Goes t in
      let whole : copy_table_rows env rows ≡ going u = rw (g, g') refl in
      let (counted, all) = copy_table_rows-going env rows u whole in (u, whole, counted, all)
