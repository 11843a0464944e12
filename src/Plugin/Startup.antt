-- ===== src/Plugin/Startup.antt =====
-- ali_decoding/ali_decoding.c: the startup callback, its options and the switches it sets. What
-- the server holds are arguments: the name of the database's encoding, `extra_float_digits`, and
-- `strtoul`, which is `none` where it sets `errno`.
use rds_dbsync.Base.{
  ℕ, ◌≤◌, ◌^◌, ◌%◌, ◌≡◌, refl, ap, Bool, true, false, Option, none, some, List, [], ◌∷◌, ◌++◌,
  arith, Text, codes, str_eq, str_eq_sound, ltb, if◌then◌else◌, ◌>>=◌, Option-cases, Bool-cases,
  inl, inr, bind_inv, guard_inv, subst, map_option,
}
use rds_dbsync.Plugin.{OutputData}
use rds_dbsync.Plugin.Described.{IsStreaming}

-- A DefElem: its name and its argument, `none` for NULL.
abbrev pub DefElem : Type 0
DefElem = Text × Option Text

-- `palloc0`.
abbrev pub zero_output : OutputData
zero_output = record {
  client_version = 0;
  client_encoding = none;
  output_key_info = false;
  output_column_info = false;
  output_type_as_name = false;
}

abbrev encoding_or : Text → Option Text → Text
encoding_or d none = d
encoding_or d (some t) = t

-- What a streaming client gets: the switches, and the float digits, counted from -15.
unfoldable pub start_streaming : Text → ℕ → OutputData → Option (OutputData × ℕ)
start_streaming database_encoding digits opts =
    let encoding = encoding_or database_encoding opts.client_encoding in
    if str_eq encoding database_encoding
    then some (
      record opts {
        client_encoding = some encoding;
        output_key_info = true;
        output_column_info = true;
        output_type_as_name = true;
      },
      if ltb digits 18 then 18 else digits,
    )
    else none

digits_lem : (digits : ℕ) → 18 ≤ (if ltb digits 18 then 18 else digits)
digits_lem digits = ground arith

-- What the callback promises to the writers.
pub record Started (database_encoding : Text) (answer : OutputData × ℕ) : Type 0 where
  pub streaming : IsStreaming answer.0
  pub encoding : answer.0.client_encoding ≡ some database_encoding
  pub float_digits : 18 ≤ answer.1

start_streaming-Started :
    (database_encoding : Text) (digits : ℕ) (opts : OutputData) (answer : OutputData × ℕ)
    → start_streaming database_encoding digits opts ≡ some answer
    → Started database_encoding answer
unfolding start_streaming
start_streaming-Started db digits opts answer h =
    let (same, e) = guard_inv (str_eq (encoding_or db opts.client_encoding) db) _ answer h in
    subst (Started db) e (record {
      streaming = record { key_info = refl; column_info = refl; type_as_name = refl };
      encoding = ap some (str_eq_sound (encoding_or db opts.client_encoding) db same);
      float_digits = digits_lem digits;
    })

module _ (strtoul : Text → Option ℕ) where
  unfoldable pub parse_uint32 : Option Text → Option ℕ
  parse_uint32 none = none
  parse_uint32 (some t) = strtoul t >>= λ n. some (n % 2 ^ 32)

  -- One round of the loop over the options.
  unfoldable pub startup_option : OutputData → DefElem → Option OutputData
  startup_option opts (name, arg) =
      if str_eq name (codes "version")
      then (parse_uint32 arg >>= λ n. some (record opts { client_version = n }))
      else if str_eq name (codes "encoding")
      then (arg >>= λ encoding. some (record opts { client_encoding = some encoding }))
      else none

  unfoldable pub startup_options : OutputData → List DefElem → Option OutputData
  startup_options opts [] = some opts
  startup_options opts (elem ∷ elems) = do
    opts' ← startup_option opts elem
    startup_options opts' elems

  unfoldable pub pg_decode_startup : Text → ℕ → Bool → List DefElem → Option (OutputData × ℕ)
  pg_decode_startup database_encoding digits is_init elems = do
    opts ← startup_options zero_output elems
    if is_init then some (opts, digits) else start_streaming database_encoding digits opts

  -- Where the startup of a streaming client does not end in an error, it sets every switch that
  -- the writers of the row messages read, the encoding of the database, and all digits of a
  -- float.
  pub pg_decode_startup-Started :
      (database_encoding : Text) (digits : ℕ) (elems : List DefElem) (answer : OutputData × ℕ)
      → pg_decode_startup database_encoding digits false elems ≡ some answer
      → Started database_encoding answer
  unfolding pg_decode_startup
  pg_decode_startup-Started db digits elems answer h =
      let (opts, e, k) =
        bind_inv (startup_options zero_output elems) (start_streaming db digits) answer h in
      start_streaming-Started db digits opts answer k

  startup_options-unknown :
      (opts : OutputData) (before after : List DefElem) (name : Text) (arg : Option Text)
      → str_eq name (codes "version") ≡ false
      → str_eq name (codes "encoding") ≡ false
      → startup_options opts (before ++ (name, arg) ∷ after) ≡ none
  unfolding startup_options startup_option
  startup_options-unknown opts [] after name arg hv he = rw (hv, he) refl
  startup_options-unknown opts (elem ∷ before) after name arg hv he =
      elim (Option-cases (startup_option opts elem)) [
        | inl e ↦ rw (e, ◌>>=◌) refl
        | inr (opts', e) ↦ rw (e, ◌>>=◌) (startup_options-unknown opts' before after name arg hv he)
      ]

  -- An option of another name than the two ends the startup with an error, wherever it stands.
  pub pg_decode_startup-unknown :
      (database_encoding : Text) (digits : ℕ) (is_init : Bool) (before after : List DefElem)
      (name : Text) (arg : Option Text)
      → str_eq name (codes "version") ≡ false
      → str_eq name (codes "encoding") ≡ false
      → pg_decode_startup database_encoding digits is_init (before ++ (name, arg) ∷ after) ≡ none
  unfolding pg_decode_startup
  pg_decode_startup-unknown db digits is_init before after name arg hv he =
      rw (startup_options-unknown zero_output before after name arg hv he, ◌>>=◌) refl

  -- With a version that can be read and an encoding as options, the startup of a streaming client
  -- succeeds exactly if the encoding is that of the database, and then holds the version's low 32
  -- bits.
  pub pg_decode_startup-options :
      (database_encoding encoding version : Text) (digits n : ℕ)
      → strtoul version ≡ some n
      → map_option
          (λ answer. answer.0.client_version)
          (pg_decode_startup database_encoding digits false
            ((codes "version", some version) ∷ (codes "encoding", some encoding) ∷ []))
        ≡ (if str_eq encoding database_encoding then some (n % 2 ^ 32) else none)
  unfolding pg_decode_startup startup_options startup_option start_streaming parse_uint32 str_eq
  pg_decode_startup-options db encoding version digits n h =
      rw (h, ◌>>=◌)
        (elim (Bool-cases (str_eq encoding db)) [ inl e ↦ rw e refl | inr e ↦ rw e refl ])
