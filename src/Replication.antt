-- ===== src/Replication.antt =====
-- dbsync/utils.c 1093-1396 and 1751-1864: the replication connection of the decoder, its slot, the
-- start of the stream, and the text of a position in the log. What the server replies to a command is
-- an argument.
pub mod Lsn
pub mod Connect
use rds_dbsync.Base.{
  ℕ, zero, suc, ◌+◌, ◌*◌, ◌/◌, ◌%◌, ◌^◌, ◌-◌, Bool, true, false, not, ◌&&◌, ◌||◌, Option, none,
  some, List, [], ◌∷◌, ◌++◌, Text, codes, length, ltb, leb, ◌==◌, if◌then◌else◌,
}

-- A reply: whether it has the status asked for, its rows and its columns, and a value.
pub record Reply : Type 0 where
  pub has_status : Bool
  pub ntuples : ℕ
  pub nfields : ℕ
  pub value : ℕ → ℕ → Text

-- The fields of `Decoder_handler` that say what to do.
pub record Plan : Type 0 where
  pub connection_string : Option Text
  pub replication_slot : Option Text
  pub outfile : Option Text
  pub do_create_slot : Bool
  pub do_start_slot : Bool
  pub do_drop_slot : Bool
  pub startpos : ℕ

-- `init_hander`.
abbrev pub init_hander : Plan
init_hander = record {
  connection_string = none;
  replication_slot = some (codes "rds_logical_sync_slot");
  outfile = some (codes "-");
  do_create_slot = false;
  do_start_slot = true;
  do_drop_slot = false;
  startpos = 0;
}

abbrev is_null : Option Text → Bool
is_null none = true
is_null (some t) = false

-- The return code.
unfoldable pub check_handler_parameters : Plan → ℕ
check_handler_parameters plan =
    if is_null plan.replication_slot
    then 1
    else if plan.do_start_slot && is_null plan.outfile
    then 1
    else if not plan.do_drop_slot && (not plan.do_create_slot && not plan.do_start_slot)
    then 1
    else if plan.do_drop_slot && (plan.do_create_slot || plan.do_start_slot)
    then 1
    else if not (plan.startpos == 0) && (plan.do_create_slot || plan.do_drop_slot)
    then 1
    else 0

-- A hexadecimal digit of `%X`, and the value of a digit of either case.
abbrev pub hex_digit : ℕ → ℕ
hex_digit d = if ltb d 10 then 48 + d else 55 + d

abbrev pub digit_value : ℕ → ℕ
digit_value c = if ltb c 58 then c - 48 else if ltb c 71 then c - 55 else c - 87

abbrev pub is_hex : ℕ → Bool
is_hex c = leb 48 c && leb c 57 || (leb 65 c && leb c 70 || leb 97 c && leb c 102)

-- `%X` of a number of at most so many digits.
unfoldable pub hex : ℕ → ℕ → Text
hex zero n = []
hex (suc k) n =
    let front = hex k (n / 16) in
    if ltb n 16 then hex_digit n ∷ [] else front ++ hex_digit (n % 16) ∷ []

-- `%X/%X` of the halves of a position.
unfoldable pub lsn_text : ℕ → Text
lsn_text lsn = hex 8 (lsn / 2 ^ 32 % 2 ^ 32) ++ (codes "/" ++ hex 8 (lsn % 2 ^ 32))

-- The command that starts the stream; `version` is the decimal text of `PG_VERSION_NUM`.
unfoldable pub start_replication : Text → ℕ → Text → Text
start_replication slot startpos version =
    codes "START_REPLICATION SLOT \""
    ++ slot
    ++ codes "\" LOGICAL "
    ++ lsn_text startpos
    ++ codes " (version '"
    ++ version
    ++ codes "', encoding 'UTF8')"

-- The digits that a text starts with (`strspn`), and what stands behind them.
unfoldable pub hex_span : Text → Text × Text
hex_span [] = ([], [])
hex_span (c ∷ cs) =
    let (digits, rest) = hex_span cs in if is_hex c then (c ∷ digits, rest) else ([], c ∷ cs)

-- `strtoul` of digits, base 16.
unfoldable pub hex_value : ℕ → Text → ℕ
hex_value acc [] = acc
hex_value acc (c ∷ cs) = hex_value (acc * 16 + digit_value c) cs

abbrev fits_component : Text → Bool
fits_component digits = ltb 0 (length digits) && leb (length digits) 8

-- Behind the slash; the value is 0 where the text is none of a position.
abbrev second_half : ℕ → Text × Text → ℕ
second_half high (digits, []) =
    if fits_component digits then high % 2 ^ 32 * 2 ^ 32 + hex_value 0 digits % 2 ^ 32 else 0
second_half high (digits, c ∷ rest) = 0

abbrev first_half : Text × Text → ℕ
first_half (digits, []) = 0
first_half (digits, c ∷ rest) =
    let lsn = second_half (hex_value 0 digits) (hex_span rest) in
    if fits_component digits && c == 47 then lsn else 0

unfoldable pub pg_lsn_in : Text → ℕ
pg_lsn_in lsn = first_half (hex_span lsn)

-- A slot that was created: `startpos`, `replication_slot`, `*lsn` and the snapshot.
pub record Slot : Type 0 where
  pub startpos : ℕ
  pub replication_slot : Text
  pub lsn : ℕ
  pub snapshot : Text

module _ (reply : Text → Reply) where
  -- The return code; the connection stands where it is 0.
  unfoldable pub initialize_connection : Option Text → Bool → ℕ
  initialize_connection none connects = 1
  initialize_connection (some connection_string) connects =
      let r = reply (codes "IDENTIFY_SYSTEM") in
      if not connects
      then 1
      else if not r.has_status
      then 1
      else if not (r.ntuples == 1) || ltb r.nfields 4
      then 1
      else 0

  -- `sscanf` gives the halves of the position, if it finds them.
  abbrev slot_of : (Text → Option (ℕ × ℕ)) → Reply → Option (ℕ × ℕ) → Option Slot
  slot_of sscanf r none = none
  slot_of sscanf r (some (hi, lo)) = some (record {
    startpos = hi * 2 ^ 32 + lo;
    replication_slot = r.value 0 0;
    lsn = pg_lsn_in (r.value 0 1);
    snapshot = r.value 0 2;
  })

  unfoldable pub create_replication_slot :
      (Text → Option (ℕ × ℕ)) → Bool → Option Text → Option Slot
  create_replication_slot sscanf do_create_slot none = none
  create_replication_slot sscanf do_create_slot (some slot) =
      let r =
        reply (codes "CREATE_REPLICATION_SLOT \"" ++ slot ++ codes "\" LOGICAL \"ali_decoding\"") in
      if do_create_slot && (r.has_status && (r.ntuples == 1 && r.nfields == 4))
      then slot_of sscanf r (sscanf (r.value 0 1))
      else none

  -- The return code.
  unfoldable pub drop_replication_slot : Bool → Text → ℕ
  drop_replication_slot do_drop_slot slot =
      let r = reply (codes "DROP_REPLICATION_SLOT \"" ++ slot ++ codes "\"") in
      if do_drop_slot && (r.has_status && (r.ntuples == 0 && r.nfields == 0)) then 0 else 1

  -- The return code; without a connection nothing is asked.
  unfoldable pub init_streaming : Bool → Text → ℕ → Text → ℕ
  init_streaming connected slot startpos version =
      let r = reply (start_replication slot startpos version) in
      if connected then (if r.has_status then 0 else 1) else 1
