-- ===== src/Mysql/Connect.antt =====
-- The connection to the source: `connect_to_mysql` (dbsync/mysql2pgsql.c), as the calls that it makes
-- of the MySQL library.
use rds_dbsync.Base.{
  ◌≡◌, ◌∙◌, Bool, Option, none, some, List, [], ◌∷◌, ◌++◌, Text, codes, if◌then◌else◌, ◌>>=◌,
  bind_inv, guard_inv, append-nil,
}

pub data MysqlCall : Type 0 where
  set_charset_name set_charset_dir query : Text → MysqlCall
  set_local_infile set_reconnect real_connect : MysqlCall

-- Whether the library takes a call, behind those that went before.
abbrev pub Library : Type 0
Library = List MysqlCall → MysqlCall → Bool

some_inj : (a b : List MysqlCall) → some a ≡ some b → a ≡ b
some_inj a b h = cc

module _ (library : Library) where
  -- A call whose failure ends the function with NULL.
  unfoldable pub demand : MysqlCall → List MysqlCall → Option (List MysqlCall)
  demand call calls = if library calls call then some (calls ++ call ∷ []) else none

  abbrev demand_if : (Text → MysqlCall) → Option Text → List MysqlCall → Option (List MysqlCall)
  demand_if call none calls = some calls
  demand_if call (some t) calls = demand (call t) calls

  -- The calls that were made; `none` for NULL. The result of the local files is not looked at.
  unfoldable pub connect_to_mysql : Option Text → Option Text → Option (List MysqlCall)
  connect_to_mysql encoding encodingdir = demand_if set_charset_name encoding [] >>= λ named.
      demand_if set_charset_dir encodingdir named >>= λ found.
      demand set_reconnect (found ++ set_local_infile ∷ []) >>= λ reconnecting.
      demand real_connect reconnecting >>= λ connected.
      demand (query (codes "set unique_checks = 0;")) connected

  demand-inv :
      (call : MysqlCall) (calls after : List MysqlCall)
      → demand call calls ≡ some after
      → calls ++ call ∷ [] ≡ after
  unfolding demand
  demand-inv call calls after h = (guard_inv (library calls call) (calls ++ call ∷ []) after h).1

  abbrev asked : (Text → MysqlCall) → Option Text → List MysqlCall
  asked call none = []
  asked call (some t) = call t ∷ []

  demand_if-inv :
      (call : Text → MysqlCall) (o : Option Text) (calls after : List MysqlCall)
      → demand_if call o calls ≡ some after
      → calls ++ asked call o ≡ after
  demand_if-inv call none calls after h = append-nil calls ∙ some_inj calls after h
  demand_if-inv call (some t) calls after h = demand-inv (call t) calls after h

  -- A connection that is returned has the encodings that are configured, and was asked for the local
  -- files, for the reconnection, for the server and for the unique checks, in this order.
  connect_to_mysql-asked :
      (encoding encodingdir : Option Text) (calls : List MysqlCall)
      → connect_to_mysql encoding encodingdir ≡ some calls
      → asked set_charset_name encoding
          ++ asked set_charset_dir encodingdir
          ++ set_local_infile ∷ []
          ++ set_reconnect ∷ []
          ++ real_connect ∷ []
          ++ query (codes "set unique_checks = 0;") ∷ []
        ≡ calls
  unfolding connect_to_mysql
  connect_to_mysql-asked encoding encodingdir calls h =
      let (named, e1, h1) = bind_inv (demand_if set_charset_name encoding []) _ calls h in
      let (found, e2, h2) = bind_inv (demand_if set_charset_dir encodingdir named) _ calls h1 in
      let (reconnecting, e3, h3) =
        bind_inv (demand set_reconnect (found ++ set_local_infile ∷ [])) _ calls h2 in
      let (connected, e4, h4) = bind_inv (demand real_connect reconnecting) _ calls h3 in
      rw
        (
          demand_if-inv set_charset_name encoding [] named e1,
          demand_if-inv set_charset_dir encodingdir named found e2,
          demand-inv set_reconnect (found ++ set_local_infile ∷ []) reconnecting e3,
          demand-inv real_connect reconnecting connected e4,
        )
        (demand-inv (query (codes "set unique_checks = 0;")) connected calls h4)
