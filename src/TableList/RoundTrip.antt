-- ===== src/TableList/RoundTrip.antt =====
-- A table list that is written out is read back.
use rds_dbsync.Base.{
  ℕ, ◌+◌, ◌<◌, ◌≡◌, refl, true, false, Option, none, some, List, [], ◌∷◌, ◌++◌, map, arith, Text,
  All, ◌==◌, append-nil, ap, length, IsCString, map_option,
}
use rds_dbsync.TableList.{
  is_blank, lines_of, skip_blanks, up_to_colon, behind_colon, trim_end, null_if_empty, table_of,
  query_of, load_table_list_file,
}
use rds_dbsync.TableList.Lines.{
  IsBlank, Without, StartsSolid, EndsSolid, skip_blanks-append, up_to_colon-append,
  behind_colon-append, trim_end-append, lines_of-append,
}
use rds_dbsync.TableList.Bounds.{Entry, entries, arrays_of, load_table_list_file-arrays_of}

-- What stands in a line: blanks, a name, blanks and, behind a colon, blanks and a query.
pub record Line : Type 0 where
  pub before : Text
  pub table : Text
  pub after : Text
  pub query : Option (Text × Text)

abbrev query_bytes : Option (Text × Text) → List ℕ
query_bytes none = []
query_bytes (some (blanks, query)) = 58 ∷ blanks ++ query

abbrev line_bytes : Line → List ℕ
line_bytes l = l.before ++ (l.table ++ (l.after ++ query_bytes l.query))

-- The whole file; each line ends in a line feed.
abbrev pub file_bytes : List Line → List ℕ
file_bytes [] = []
file_bytes (l ∷ ls) = line_bytes l ++ 10 ∷ file_bytes ls

abbrev IsQuery : Option (Text × Text) → Type 0
IsQuery none = Unit
IsQuery (some (blanks, query)) =
    IsBlank blanks × (0 < length query) × StartsSolid query × IsCString query × Without 10 query

-- A name is not empty, neither begins nor ends in a blank, and has no colon; a query is not empty
-- and does not begin with a blank; neither has a zero or a line feed.
pub record IsLine (l : Line) : Type 0 where
  pub before_lem : IsBlank l.before
  pub after_lem : IsBlank l.after
  pub some_table : 0 < length l.table
  pub starts : StartsSolid l.table
  pub ends : EndsSolid l.table
  pub no_zero : IsCString l.table
  pub no_newline : Without 10 l.table
  pub no_colon : Without 58 l.table
  pub query_lem : IsQuery l.query

abbrev pub entry : Line → Entry
entry l = (l.table, map_option (λ q. q.1) l.query)

module _ {ℓ} (P : ℕ → Type ℓ) where
  All-append : (s t : Text) → All P s → All P t → All P (s ++ t)
  All-append [] t h k = k
  All-append (c ∷ cs) t h k = (h.0, All-append cs t h.1 k)

  IsBlank-All : ((c : ℕ) → is_blank c ≡ true → P c) → (t : Text) → IsBlank t → All P t
  IsBlank-All f [] h = tt
  IsBlank-All f (c ∷ cs) h = (f c h.0, IsBlank-All f cs h.1)

blank_nonzero : (c : ℕ) → is_blank c ≡ true → 0 < c
blank_nonzero c h = ground arith

blank_no_newline : (c : ℕ) → is_blank c ≡ true → (c == 10) ≡ false
blank_no_newline c h = ground arith

blank_no_colon : (c : ℕ) → is_blank c ≡ true → (c == 58) ≡ false
blank_no_colon c h = ground arith

StartsSolid-append : (t rest : Text) → 0 < length t → StartsSolid t → StartsSolid (t ++ rest)
StartsSolid-append [] rest p h = absurd (omega (arith, p))
StartsSolid-append (c ∷ cs) rest p h = h

null_if_empty-some : (t : Text) → 0 < length t → null_if_empty t ≡ some t
null_if_empty-some [] h = absurd (omega (arith, h))
null_if_empty-some (c ∷ cs) h = refl

up_to_colon-query_bytes : (query : Option (Text × Text)) → up_to_colon (query_bytes query) ≡ []
unfolding up_to_colon
up_to_colon-query_bytes none = refl
up_to_colon-query_bytes (some (blanks, query)) = refl

query_text :
    (query : Option (Text × Text))
    → IsQuery query
    → null_if_empty (skip_blanks (behind_colon (query_bytes query))) ≡ map_option (λ q. q.1) query
unfolding behind_colon skip_blanks
query_text none h = refl
query_text (some (blanks, query)) h =
    rw (skip_blanks-append blanks query h.0 h.2) (null_if_empty-some query h.1)

skip_blanks-line_bytes :
    (l : Line) → IsLine l → skip_blanks (line_bytes l) ≡ l.table ++ (l.after ++ query_bytes l.query)
skip_blanks-line_bytes l h =
    skip_blanks-append l.before (l.table ++ (l.after ++ query_bytes l.query)) h.before_lem
      (StartsSolid-append l.table (l.after ++ query_bytes l.query) h.some_table h.starts)

after_no_colon : (l : Line) → IsLine l → Without 58 l.after
after_no_colon l h = IsBlank-All _ blank_no_colon l.after h.after_lem

table_of-line_bytes : (l : Line) → IsLine l → table_of (line_bytes l) ≡ some l.table
unfolding table_of
table_of-line_bytes l h =
    rw
      (
        skip_blanks-line_bytes l h,
        up_to_colon-append l.table (l.after ++ query_bytes l.query) h.no_colon,
        up_to_colon-append l.after (query_bytes l.query) (after_no_colon l h),
        up_to_colon-query_bytes l.query,
        append-nil l.after,
        trim_end-append l.table l.after h.ends h.after_lem,
      )
      (null_if_empty-some l.table h.some_table)

query_of-line_bytes :
    (l : Line) → IsLine l → query_of (line_bytes l) ≡ map_option (λ q. q.1) l.query
unfolding query_of
query_of-line_bytes l h =
    rw
      (
        skip_blanks-line_bytes l h,
        behind_colon-append l.table (l.after ++ query_bytes l.query) h.no_colon,
        behind_colon-append l.after (query_bytes l.query) (after_no_colon l h),
      )
      (query_text l.query h.query_lem)

line_bytes-All {ℓ} :
    {P : ℕ → Type ℓ}
    → ((c : ℕ) → is_blank c ≡ true → P c)
    → (l : Line) → IsLine l
    → All P l.table
    → All P (query_bytes l.query)
    → All P (line_bytes l)
line_bytes-All f l h t q =
    All-append _ l.before (l.table ++ (l.after ++ query_bytes l.query))
      (IsBlank-All _ f l.before h.before_lem)
      (All-append _ l.table (l.after ++ query_bytes l.query) t
        (All-append _ l.after (query_bytes l.query) (IsBlank-All _ f l.after h.after_lem) q))

query_no_zero : (query : Option (Text × Text)) → IsQuery query → IsCString (query_bytes query)
query_no_zero none h = tt
query_no_zero (some (blanks, query)) h =
    (omega arith, All-append _ blanks query (IsBlank-All _ blank_nonzero blanks h.0) h.3)

query_no_newline : (query : Option (Text × Text)) → IsQuery query → Without 10 (query_bytes query)
query_no_newline none h = tt
query_no_newline (some (blanks, query)) h =
    (refl, All-append _ blanks query (IsBlank-All _ blank_no_newline blanks h.0) h.4)

line_no_zero : (l : Line) → IsLine l → IsCString (line_bytes l)
line_no_zero l h = line_bytes-All blank_nonzero l h h.no_zero (query_no_zero l.query h.query_lem)

line_no_newline : (l : Line) → IsLine l → Without 10 (line_bytes l)
line_no_newline l h =
    line_bytes-All blank_no_newline l h h.no_newline (query_no_newline l.query h.query_lem)

file_no_zero : (ls : List Line) → All IsLine ls → IsCString (file_bytes ls)
file_no_zero [] h = tt
file_no_zero (l ∷ ls) h =
    All-append _ (line_bytes l) (10 ∷ file_bytes ls) (line_no_zero l h.0)
      (omega arith, file_no_zero ls h.1)

last_line : table_of [] ≡ none
unfolding table_of skip_blanks up_to_colon trim_end
last_line = refl

entries-file_bytes :
    (ls : List Line) → All IsLine ls → entries (lines_of (file_bytes ls)) ≡ map entry ls
unfolding lines_of
entries-file_bytes [] h = rw last_line refl
entries-file_bytes (l ∷ ls) h =
    rw
      (
        lines_of-append (line_bytes l) (file_bytes ls) (line_no_newline l h.0),
        table_of-line_bytes l h.0,
        query_of-line_bytes l h.0,
      )
      (ap (◌∷◌ (entry l)) (entries-file_bytes ls h.1))

length-lines_of-file_bytes :
    (ls : List Line) → All IsLine ls → length (lines_of (file_bytes ls)) ≡ length ls + 1
unfolding lines_of
length-lines_of-file_bytes [] h = refl
length-lines_of-file_bytes (l ∷ ls) h =
    rw (lines_of-append (line_bytes l) (file_bytes ls) (line_no_newline l h.0))
      (omega (arith, length-lines_of-file_bytes ls h.1))

two_more : (n : ℕ) (es : List Entry) → some (arrays_of (n + 1 + 1) es) ≡ some (arrays_of (n + 2) es)
two_more n es = ap (λ k. some (arrays_of k es)) (omega arith)

-- A file of well-formed lines, each ended by a line feed, is read as the names and the queries that
-- stand in its lines, in their order and without the blanks around them; the arrays have two cells
-- more than the file has lines.
pub load_table_list_file-file_bytes :
    (ls : List Line)
    → All IsLine ls
    → load_table_list_file (some (file_bytes ls)) ≡ some (arrays_of (length ls + 2) (map entry ls))
load_table_list_file-file_bytes ls h =
    let loaded = (load_table_list_file-arrays_of (file_bytes ls) (file_no_zero ls h)).0 in
    rw (loaded, entries-file_bytes ls h, length-lines_of-file_bytes ls h)
      (two_more (length ls) (map entry ls))
