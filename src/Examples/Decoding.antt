-- ===== src/Examples/Decoding.antt =====
-- The theorems on the decoding protocol, applied to examples.
use rds_dbsync.Base.{
  ℕ, ◌≡◌, refl, true, false, Option, none, some, List, [], ◌∷◌, ◌++◌, arith, Text, codes, ◌^◌, ◌%◌,
  str_eq, map_option, if◌then◌else◌,
}
use rds_dbsync.Message.{zero_message}
use rds_dbsync.Pqformat.{msb}
use rds_dbsync.Wire.{message_bytes, message_of, commit_bytes}
use rds_dbsync.Plugin.{pg_decode_change, Change, Server, OutputData}
use rds_dbsync.Plugin.Described.{IsStreaming, describe, change_of, key_of}
use rds_dbsync.Plugin.Changes.{pg_decode_change-message_bytes}
use rds_dbsync.Plugin.Format.{column_of, cell_of, cells_of}
use rds_dbsync.Plugin.Startup.{
  pg_decode_startup, Started, pg_decode_startup-Started, pg_decode_startup-options, startup_options,
  startup_option, start_streaming, parse_uint32,
}
use rds_dbsync.Decode.{bdr_process_remote_action, process_remote_commit}
use rds_dbsync.Decode.Transactions.{commit_flags_reported}
use rds_dbsync.Codec.{decode-pg_decode_change}
use rds_dbsync.Examples.{server, items, streaming, inserted}
use rds_dbsync.Examples.Buffers.{buffers}
use rds_dbsync.Examples.Messages.{inserted-FitsMessage}

streaming-IsStreaming : IsStreaming streaming
streaming-IsStreaming = record { key_info = refl; column_info = refl; type_as_name = refl }

abbrev new_item : Change (List (Option Text))
new_item = Change.insert (some (codes "7") ∷ some (codes "it's") ∷ [])

decode-pg_decode_change_example :
    (bytes : List ℕ) × (pg_decode_change buffers server streaming items new_item [] ≡ some bytes)
    × (bdr_process_remote_action buffers zero_message (bytes ++ 9 ∷ [])
        ≡ some ((message_of inserted, true), 9 ∷ []))
unfolding describe change_of key_of column_of cell_of cells_of
decode-pg_decode_change_example =
    decode-pg_decode_change server buffers items streaming new_item inserted (9 ∷ [])
      streaming-IsStreaming tt refl inserted-FitsMessage

pg_decode_change-message_bytes_example :
    pg_decode_change buffers server streaming items new_item (1 ∷ [])
    ≡ map_option (λ m. 1 ∷ [] ++ message_bytes m) (describe server items new_item)
pg_decode_change-message_bytes_example =
    pg_decode_change-message_bytes server buffers items streaming streaming-IsStreaming new_item
      (1 ∷ []) tt

-- A server whose type cache has no type.
abbrev untyped : Server Text (List (Option Text))
untyped = record server { type_output = λ oid. none }

commit_flags_reported_example :
    (process_remote_commit buffers zero_message
        (msb 4 1 ++ (msb 8 110 ++ (msb 8 120 ++ (msb 8 5 ++ []))))
      ≡ some ((zero_message, false), msb 8 110 ++ (msb 8 120 ++ (msb 8 5 ++ []))))
    × (bdr_process_remote_action buffers zero_message (commit_bytes 1 110 120 5 ++ [])
        ≡ some ((zero_message, true), msb 8 110 ++ (msb 8 120 ++ (msb 8 5 ++ []))))
commit_flags_reported_example =
    commit_flags_reported buffers zero_message 1 110 120 5 [] (omega arith) (omega arith)

-- `strtoul` on the one version that a client sends.
abbrev one : Text → Option ℕ
one t = some 1

abbrev started : OutputData × ℕ
started = (record streaming { client_version = 1 }, 18)

pg_decode_startup-Started_example : Started (codes "UTF8") started
unfolding pg_decode_startup startup_options startup_option start_streaming parse_uint32 str_eq
pg_decode_startup-Started_example =
    pg_decode_startup-Started one (codes "UTF8") 15
      ((codes "version", some (codes "1")) ∷ (codes "encoding", some (codes "UTF8")) ∷ []) started
      refl

pg_decode_startup-options_example :
    map_option
      (λ answer. answer.0.client_version)
      (pg_decode_startup one
        (codes "UTF8")
        15
        false
        ((codes "version", some (codes "1")) ∷ (codes "encoding", some (codes "UTF8")) ∷ []))
    ≡ (if str_eq (codes "UTF8") (codes "UTF8") then some (1 % 2 ^ 32) else none)
pg_decode_startup-options_example =
    pg_decode_startup-options one (codes "UTF8") (codes "UTF8") (codes "1") 15 1 refl
