-- ===== src/Mysql/Chunks.antt =====
-- The data that a COPY is sent, whatever the size of the buffer.
use rds_dbsync.Base.{
  ℕ, suc, ◌≡◌, refl, sym, subst, ap, ◌∙◌, Bool, true, false, Bool-cases, inl, inr, List, [], ◌∷◌,
  ◌++◌, map, Text, codes, length, length-append, map-snoc, leb, ltb, if◌then◌else◌, append_assoc,
  append-nil, arith,
}
use rds_dbsync.Quote.{Escapes, TypeOid}
use rds_dbsync.Mysql.Copy.{
  Row, cell_text, between, add_cells, CopyState, CopyOutcome, going, exited, and_then, Copying,
  put_copy_data, add_row, flush_full, check_abort, copy_row, copy_rows, flush_rest, copy_table_rows,
}

abbrev pub concat : List Text → Text
concat [] = []
concat (t ∷ ts) = t ++ concat ts

concat-snoc : (ts : List Text) (t : Text) → concat (ts ++ t ∷ []) ≡ concat ts ++ t
concat-snoc [] t = append-nil t
concat-snoc (u ∷ ts) t = ap (λ x. u ++ x) (concat-snoc ts t) ∙ sym (append_assoc u (concat ts) t)

abbrev pub start : CopyState
start = record { query = []; row_count = 0; sent = [] }

-- The fields of a row, a bar between any two.
abbrev pub fields_text : Escapes → List TypeOid → ℕ → Row → Text
fields_text esc [] i row = []
fields_text esc (o ∷ os) i row =
    between i ++ cell_text esc o (row i) ++ fields_text esc os (suc i) row

add_cells-append :
    (esc : Escapes) (os : List TypeOid) (i : ℕ) (row : Row) (query : Text)
    → add_cells esc os i row query ≡ query ++ fields_text esc os i row
unfolding add_cells
add_cells-append esc [] i row query = sym (append-nil query)
add_cells-append esc (o ∷ os) i row query =
    add_cells-append esc os (suc i) row (query ++ between i ++ cell_text esc o (row i))
    ∙ simp append_assoc refl

none_left : (t : Text) → ltb 0 (length t) ≡ false → t ≡ []
none_left [] h = refl
none_left (c ∷ cs) h = absurd (ground (arith, h))

-- Nothing is left in the buffer, if the copy went on.
abbrev Flushed : CopyOutcome → Type 0
Flushed (going s) = s.query ≡ []
Flushed (exited counted s) = Unit

module _ (env : Copying) where
  -- The line of a row.
  abbrev pub line : Row → Text
  line row = fields_text env.esc env.column_oids 0 row ++ codes "\n"

  -- All that was sent or stands in the buffer.
  abbrev pub written : CopyState → Text
  written s = concat s.sent ++ s.query

  abbrev state_of : CopyOutcome → CopyState
  state_of (going s) = s
  state_of (exited counted s) = s

  -- The rows counted are the first ones, and their lines are what was written.
  unfoldable pub Wrote : List Row → CopyState → Type 0
  Wrote rows s = (s.row_count ≡ length rows) × (written s ≡ concat (map line rows))

  -- The outcome behind the rows that are done and those that were left: where the loop went on, all
  -- are done.
  abbrev pub Holds : List Row → List Row → CopyOutcome → Type 0
  Holds done left (going s) = Wrote (done ++ left) s
  Holds done left (exited counted s) =
      (more : List Row) × (rest : List Row) × (more ++ rest ≡ left) × Wrote (done ++ more) s

  Holds-append :
      (done first second : List Row) (o : CopyOutcome)
      → Holds (done ++ first) second o
      → Holds done (first ++ second) o
  Holds-append done first second (going s) h = rw (← append_assoc done first second) h
  Holds-append done first second (exited counted s) (more, rest, e, w) = (
    first ++ more,
    rest,
    append_assoc first more rest ∙ ap (λ x. first ++ x) e,
    rw (← append_assoc done first more) w,
  )

  Holds-and_then :
      (done first second : List Row) (o : CopyOutcome) (f : CopyState → CopyOutcome)
      → Holds done first o
      → ((s : CopyState) → Wrote (done ++ first) s → Holds (done ++ first) second (f s))
      → Holds done (first ++ second) (and_then o f)
  Holds-and_then done first second (going s) f h k = Holds-append done first second (f s) (k s h)
  Holds-and_then done first second (exited counted s) f (more, rest, e, w) k =
      (more, rest ++ second, sym (append_assoc more rest second) ∙ ap (λ x. x ++ second) e, w)

  add_row-Wrote :
      (rows : List Row) (row : Row) (s : CopyState)
      → Wrote rows s
      → Wrote (rows ++ row ∷ []) (add_row env row s)
  unfolding Wrote
  add_row-Wrote rows row s h = (
    omega (arith, length-append rows (row ∷ []), h.0),
    rw
        (
          map-snoc line rows row,
          concat-snoc (map line rows) (line row),
          ← h.1,
          add_cells-append env.esc env.column_oids 0 row s.query,
        )
        (simp append_assoc refl),
  )

  put-Wrote : (rows : List Row) (s : CopyState) → Wrote rows s → Holds rows [] (put_copy_data env s)
  unfolding Wrote
  put-Wrote rows s h = elim (Bool-cases (env.puts s.sent s.query)) [
    | inl e ↦
        rw (e, append-nil rows)
          (h.0, append-nil (concat (s.sent ++ s.query ∷ [])) ∙ concat-snoc s.sent s.query ∙ h.1)
    | inr e ↦ rw e ([], [], refl, rw (append-nil rows) h)
  ]

  if-Wrote :
      (rows : List Row) (c : Bool) (s : CopyState)
      → Wrote rows s
      → Holds rows [] (if c then put_copy_data env s else going s)
  if-Wrote rows true s h = put-Wrote rows s h
  if-Wrote rows false s h = rw (append-nil rows) h

  check_abort-Wrote :
      (rows : List Row) (s : CopyState) → Wrote rows s → Holds rows [] (check_abort env s)
  check_abort-Wrote rows s h = elim (Bool-cases (env.time_to_abort s.row_count)) [
    | inl e ↦ rw e ([], [], refl, rw (append-nil rows) h)
    | inr e ↦ rw (e, append-nil rows) h
  ]

  copy_row-Wrote :
      (done : List Row) (row : Row) (s : CopyState)
      → Wrote done s
      → Holds done (row ∷ []) (copy_row env row s)
  unfolding copy_row
  copy_row-Wrote done row s h =
      let counted = add_row env row s in
      Holds-and_then done (row ∷ []) [] (flush_full env counted) (check_abort env)
        (Holds-append done (row ∷ []) [] (flush_full env counted) (
          if-Wrote (done ++ row ∷ []) (leb env.buffer_size (length counted.query)) counted
            (add_row-Wrote done row s h)))
        (λ t k. check_abort-Wrote (done ++ row ∷ []) t k)

  copy_rows-Wrote :
      (done rows : List Row) (s : CopyState) → Wrote done s → Holds done rows (copy_rows env rows s)
  unfolding copy_rows
  copy_rows-Wrote done [] s h = rw (append-nil done) h
  copy_rows-Wrote done (row ∷ rows) s h =
      Holds-and_then done (row ∷ []) rows (copy_row env row s) (copy_rows env rows)
        (copy_row-Wrote done row s h) (λ t k. copy_rows-Wrote (done ++ row ∷ []) rows t k)

  start-Wrote : Wrote [] start
  unfolding Wrote
  start-Wrote = (refl, refl)

  -- Whatever the size of the buffer, and wherever the copy stops, the data that were taken, followed
  -- by what is left in the buffer, are the lines of the rows that were counted, which are the first
  -- rows; if the copy does not stop early, those are all rows.
  pub copy_table_rows-Wrote : (rows : List Row) → Holds [] rows (copy_table_rows env rows)
  unfolding copy_table_rows
  copy_table_rows-Wrote rows =
      subst (λ x. Holds [] x (copy_table_rows env rows)) (append-nil rows)
        (Holds-and_then [] rows [] (copy_rows env rows start) (flush_rest env)
          (copy_rows-Wrote [] rows start start-Wrote)
          (λ s h. if-Wrote rows (ltb 0 (length s.query)) s h))

  flush_rest-Flushed : (s : CopyState) → Flushed (flush_rest env s)
  flush_rest-Flushed s = elim (Bool-cases (ltb 0 (length s.query))) [
    | inl e ↦ elim (Bool-cases (env.puts s.sent s.query)) [
      | inl e' ↦ rw (e, e') refl
      | inr e' ↦ rw (e, e') tt
    ]
    | inr e ↦ rw e (none_left s.query e)
  ]

  and_then-Flushed : (o : CopyOutcome) → Flushed (and_then o (flush_rest env))
  and_then-Flushed (going s) = flush_rest-Flushed s
  and_then-Flushed (exited counted s) = tt

  -- A copy that went on has sent the lines of all rows, and has counted all.
  pub copy_table_rows-going :
      (rows : List Row) (s : CopyState)
      → copy_table_rows env rows ≡ going s
      → (s.row_count ≡ length rows) × (concat s.sent ≡ concat (map line rows))
  unfolding copy_table_rows Wrote
  copy_table_rows-going rows s h =
      let w : Wrote rows s = subst (Holds [] rows) h (copy_table_rows-Wrote rows) in
      let empty : s.query ≡ [] = subst Flushed h (and_then-Flushed (copy_rows env rows start)) in
      (w.0, sym (append-nil (concat s.sent)) ∙ ap (λ x. concat s.sent ++ x) (sym empty) ∙ w.1)
