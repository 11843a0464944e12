-- ===== src/Examples/Listing.antt =====
-- The theorems on the table list, applied to examples.
use rds_dbsync.Base.{
  ℕ, ◌+◌, ◌≡◌, ◌<◌, refl, true, none, some, List, [], ◌∷◌, map, ◌>>=◌, arith, codes, length,
}
use rds_dbsync.TableList.{lines_of, load_table_list_file}
use rds_dbsync.TableList.Bounds.{arrays_of, entries, load_table_list_file-arrays_of}
use rds_dbsync.TableList.RoundTrip.{
  Line, IsLine, entry, file_bytes, load_table_list_file-file_bytes,
}
use rds_dbsync.Mysql.Sync.{start_sync, start_queue}
use rds_dbsync.Mysql.Sync.Queue.{task_of, start_sync-load_table_list_file}
use rds_dbsync.Examples.Messages.{c_string_lem}

abbrev orders : Line
orders = record {
  before = codes " ";
  table = codes "my orders";
  after = codes " ";
  query = some (codes " ", codes "select 1");
}

abbrev clients : Line
clients = record { before = []; table = codes "clients"; after = []; query = none }

orders-IsLine : IsLine orders
orders-IsLine = record {
  before_lem = (refl, tt);
  after_lem = (refl, tt);
  some_table = omega arith;
  starts = refl;
  ends = refl;
  no_zero = c_string_lem (codes "my orders") refl;
  no_newline = (refl, (refl, (refl, (refl, (refl, (refl, (refl, (refl, (refl, tt)))))))));
  no_colon = (refl, (refl, (refl, (refl, (refl, (refl, (refl, (refl, (refl, tt)))))))));
  query_lem = (
    (refl, tt),
    omega arith,
    refl,
    c_string_lem (codes "select 1") refl,
    (refl, (refl, (refl, (refl, (refl, (refl, (refl, (refl, tt)))))))),
  );
}

clients-IsLine : IsLine clients
clients-IsLine = record {
  before_lem = tt;
  after_lem = tt;
  some_table = omega arith;
  starts = refl;
  ends = refl;
  no_zero = c_string_lem (codes "clients") refl;
  no_newline = (refl, (refl, (refl, (refl, (refl, (refl, (refl, tt)))))));
  no_colon = (refl, (refl, (refl, (refl, (refl, (refl, (refl, tt)))))));
  query_lem = tt;
}

load_table_list_file-file_bytes_example :
    load_table_list_file (some (file_bytes (orders ∷ clients ∷ [])))
    ≡ some (arrays_of (length (orders ∷ clients ∷ []) + 2) (map entry (orders ∷ clients ∷ [])))
load_table_list_file-file_bytes_example =
    load_table_list_file-file_bytes (orders ∷ clients ∷ []) (orders-IsLine, (clients-IsLine, tt))

abbrev list_bytes : List ℕ
list_bytes = codes "\n :x\n t : q"

load_table_list_file-arrays_of_example :
    (load_table_list_file (some list_bytes)
      ≡ some (arrays_of (length (lines_of list_bytes) + 1) (entries (lines_of list_bytes))))
    × (length (entries (lines_of list_bytes)) < length (lines_of list_bytes) + 1)
load_table_list_file-arrays_of_example =
    load_table_list_file-arrays_of list_bytes (c_string_lem (codes "\n :x\n t : q") refl)

start_sync-load_table_list_file_example :
    (load_table_list_file (some list_bytes) >>= λ a.
    start_sync
      (record { source_connects = true; target_connects = true; shown_tables = none })
      (some (record { cells = a.capacity; tabnames = a.table_array; queries = a.query_array }))
      (some (codes "s")))
    ≡ some (start_queue (map (task_of (some (codes "s"))) (entries (lines_of list_bytes))))
start_sync-load_table_list_file_example =
    start_sync-load_table_list_file list_bytes (some (codes "s")) none
      (c_string_lem (codes "\n :x\n t : q") refl)
