-- ===== src/Examples/Migration.antt =====
-- The theorems on the MySQL source, applied to examples.
use rds_dbsync.Base.{
  ◌≡◌, refl, ap, true, false, Option, none, some, List, [], ◌∷◌, ◌++◌, map, map_option, Text, codes,
  length, ◌==◌, if◌then◌else◌,
}
use rds_dbsync.Quote.{has_backslash, text, int4}
use rds_dbsync.Mysql.{
  Options, Field, mysql_type_long, mysql_type_varchar, fetch_colmum_info, ddl_start, ddl_end,
}
use rds_dbsync.Mysql.Columns.{types_of, columns, join, first_name, fetch_colmum_info-types_of}
use rds_dbsync.Mysql.Copy.{Row, Copying, CopyState, going, copy_table_rows}
use rds_dbsync.Mysql.Chunks.{concat, line, fields_text}
use rds_dbsync.Mysql.Whole.{copy_table_rows-sent}
use rds_dbsync.Mysql.Lines.{csv_fields, target_values, csv_fields-fields_text}
use rds_dbsync.Mysql.Table.{Task, Env, begun_table, copy_table}
use rds_dbsync.Mysql.Table.{fetch_failed}
use rds_dbsync.Mysql.Table.Committed.{Copied, copy_table-complete, copy_table-completes}
use rds_dbsync.Mysql.Sync.{ThreadArg, after_table, all_right, copy_tasks}
use rds_dbsync.Mysql.Sync.Thread.{AllCopied, copy_tasks-AllCopied}
use rds_dbsync.Mysql.Program.{j, d, Call, syncs, set_options, configured, main}
use rds_dbsync.Mysql.Program.Required.{Started, main-Started}
use rds_dbsync.Examples.{escapes}

abbrev fields : List Field
fields =
    record { org_name = codes "id"; field_type = mysql_type_long }
    ∷ record { org_name = codes "name"; field_type = mysql_type_varchar }
    ∷ []

abbrev options : Options
options = record {
  get_ddl_only = false;
  simple_wo_part = false;
  first_col_as_dist_key = true;
  buffer_size = 5;
}

fetch_colmum_info-types_of_example :
    fetch_colmum_info options (some (codes "s")) (codes "clients") fields true
    ≡ map_option
        (λ os. (
          os,
          ddl_start options (some (codes "s")) (codes "clients") true
              ++ join (codes ", ") (columns fields os)
              ++ ddl_end options true (first_name fields),
        ))
        (types_of fields)
fetch_colmum_info-types_of_example =
    fetch_colmum_info-types_of options (some (codes "s")) (codes "clients") fields true

abbrev row : Row
row i = if i == 0 then some (codes "7") else some (codes "ab")

abbrev env : Env
env = record {
  options = options;
  esc = escapes;
  db = codes "shop";
  source = λ query. some (fields, record { rows = row ∷ row ∷ []; ending = fetch_failed });
  server = λ history command. true;
  escape_identifier = λ t. t;
  isgp = false;
  desc_version = 90400;
  desc_is_greenplum = false;
  ignore_error_count = 0;
  decimal = λ n. [];
  time_to_abort = λ n. false;
}

abbrev copying : Copying
copying = record {
  esc = escapes;
  column_oids = int4 ∷ text ∷ [];
  buffer_size = 5;
  puts = λ sent t. true;
  time_to_abort = λ n. false;
}

copy_table_rows-sent_example :
    (s : CopyState) × (copy_table_rows copying (row ∷ row ∷ []) ≡ going s)
    × (s.row_count ≡ length (row ∷ row ∷ []))
    × (concat s.sent ≡ concat (map (line copying) (row ∷ row ∷ [])))
copy_table_rows-sent_example =
    copy_table_rows-sent copying (λ sent t. refl) (λ n. refl) (row ∷ row ∷ [])

csv_fields-fields_text_example :
    csv_fields
      (length (int4 ∷ text ∷ []))
      (fields_text escapes (int4 ∷ text ∷ []) 0 (λ i. some (codes "ab")) ++ (10 ∷ []))
    ≡ (target_values (int4 ∷ text ∷ []) 0 (λ i. some (codes "ab")), 10 ∷ [])
unfolding has_backslash
csv_fields-fields_text_example =
    csv_fields-fields_text escapes (int4 ∷ text ∷ []) (λ i. some (codes "ab")) []
      (λ i. (refl, refl))

abbrev task : Task
task = record { schemaname = some (codes "s"); relname = codes "clients"; query = none }

copy_table-completes_example :
    ((copy_table env task []).complete ≡ true)
    × ((copy_table env task []).exits ≡ false)
    × ((copy_table env task []).count ≡ some (length (row ∷ row ∷ [])))
copy_table-completes_example =
    copy_table-completes env task [] fields (row ∷ row ∷ []) fetch_failed (int4 ∷ text ∷ [])
      (λ h c. refl) (λ n. refl) refl refl refl

completes : (copy_table env task []).complete ≡ true
completes =
    (copy_table-completes env task [] fields (row ∷ row ∷ []) fetch_failed (int4 ∷ text ∷ [])
      (λ h c. refl) (λ n. refl) refl refl refl).0

copy_table-complete_example : Copied env task (begun_table env []) (copy_table env task [])
copy_table-complete_example = copy_table-complete env task [] refl completes

abbrev idle : ThreadArg
idle = record { count = 0; all_ok = false; tasks = []; target = [] }

ends_well : (copy_tasks env (task ∷ []) idle).all_ok ≡ true
unfolding copy_tasks
ends_well =
    ap
      (λ c.
        (if c
          then after_table (copy_table env task []) idle
          else all_right (after_table (copy_table env task []) idle)).all_ok)
      (copy_table-completes env task [] fields (row ∷ row ∷ []) fetch_failed (int4 ∷ text ∷ [])
        (λ h c. refl) (λ n. refl) refl refl refl).1

copy_tasks-AllCopied_example : AllCopied env (task ∷ []) [] (copy_tasks env (task ∷ []) idle).target
copy_tasks-AllCopied_example = copy_tasks-AllCopied env (task ∷ []) idle refl ends_well

abbrev config : Text → Text → Option Text
config section key = some key

abbrev call : Call
call = record {
  desc = codes "connect_string";
  num_thread = 1;
  host = codes "host";
  port = 4;
  user = codes "user";
  passwd = codes "password";
  db = codes "db";
  encodingdir = codes "encodingdir";
  encoding = codes "encoding";
  lists = none;
  target_schema = none;
  ignore_copy_error_count_each_table = 34;
  options = record {
    get_ddl_only = true;
    simple_wo_part = false;
    first_col_as_dist_key = false;
    buffer_size = 0;
  };
}

runs : main length (λ name. none) (λ cfg_file. some config) (j (codes "333") ∷ d ∷ []) ≡ syncs call
unfolding main set_options configured
runs = refl

main-Started_example :
    Started length (λ name. none) (λ cfg_file. some config) (j (codes "333") ∷ d ∷ []) call
main-Started_example =
    main-Started length (λ name. none) (λ cfg_file. some config) (j (codes "333") ∷ d ∷ []) call
      runs
