-- ===== src/Connections/Settings.antt =====
-- What `setup_connection` sets, for every version of the server.
use rds_dbsync.Base.{
  ℕ, ◌≡◌, refl, sym, ap, ◌∙◌, Bool, true, false, Bool-cases, inl, inr, ◌&&◌, not, Option, [], ◌∷◌,
  ◌++◌, Text, codes, leb, if◌then◌else◌, append_assoc, append-nil,
}
use rds_dbsync.Connections.{
  Command, execute, set_client_encoding, History, Server, Answer, issue, execute_sql_statement,
  set_if, set_all, setup_connection, start_copy_origin_tx, start_copy_target_tx, origin_begin,
  target_begin,
}

abbrev when : Bool → Text → History
when true query = execute query ∷ []
when false query = []

-- The settings of a version.
abbrev pub settings : ℕ → Bool → History
settings version gp =
    when true (codes "SET DATESTYLE = ISO")
    ++ (when (leb 80400 version) (codes "SET INTERVALSTYLE = POSTGRES")
        ++ (when (leb 90000 version) (codes "SET extra_float_digits TO 3")
            ++ (when (not (leb 90000 version) && leb 70400 version)
                  (codes "SET extra_float_digits TO 2")
                ++ (when (leb 80300 version && not gp) (codes "SET synchronize_seqscans TO off")
                    ++ (when (leb 70300 version) (codes "SET statement_timeout = 0")
                        ++ when (leb 90300 version) (codes "SET lock_timeout = 0"))))))

abbrev encoding : Command
encoding = set_client_encoding (codes "utf8")

-- What a connection has been asked by `setup_connection`.
abbrev pub set_up : Server → ℕ → Bool → History → Answer
set_up server version gp history =
    if server history encoding
    then (0, history ++ encoding ∷ settings version gp)
    else (1, history ++ encoding ∷ [])

module _ (server : Server) where
  set_if-when :
      (c : Bool) (query : Text) (h : History) → set_if server c query h ≡ h ++ when c query
  unfolding set_if execute_sql_statement issue
  set_if-when true query h = refl
  set_if-when false query h = sym (append-nil h)

  asked :
      (version : ℕ) (gp : Bool) (h : History)
      → set_all server version gp h ≡ h ++ settings version gp
  asked version gp h = elim (Bool-cases (leb 90000 version)) [
    | inl e ↦ rw e (simp (set_if-when, append_assoc) refl)
    | inr e ↦ rw e (simp (set_if-when, append_assoc) refl)
  ]

  -- A server is asked for the encoding and, if it takes it, for the date style and for each setting
  -- that its version has, in a fixed order; whether it takes those is not looked at. Greenplum is not
  -- asked about synchronized scans.
  pub setup_connection-set_up :
      (version : ℕ) (gp : Bool) (history : History)
      → setup_connection server version gp history ≡ set_up server version gp history
  unfolding setup_connection issue
  setup_connection-set_up version gp history = elim (Bool-cases (server history encoding)) [
    | inl e ↦ rw e (
        ap (λ h. (0, h))
          (asked version gp (history ++ encoding ∷ [])
            ∙ append_assoc history (encoding ∷ []) (settings version gp)))
    | inr e ↦ rw e refl
  ]

  abbrev begun : Text → ℕ → Bool → History → Answer
  begun query version gp history =
      let asked = history ++ execute query ∷ [] in
      if server history (execute query) then (0, (set_up server version gp asked).1) else (1, asked)

  -- The transaction of the origin: where it cannot begin nothing more is asked; else the settings
  -- follow, and the result is 0 whatever becomes of them.
  start_copy_origin_tx-begun :
      (snapshot : Option Text) (version : ℕ) (gp : Bool) (history : History)
      → start_copy_origin_tx server snapshot version gp history
        ≡ begun (origin_begin snapshot gp) version gp history
  unfolding start_copy_origin_tx issue
  start_copy_origin_tx-begun snapshot version gp history =
      rw (setup_connection-set_up version gp (history ++ execute (origin_begin snapshot gp) ∷ []))
        refl

  -- The transaction of the target, likewise.
  pub start_copy_target_tx-begun :
      (version : ℕ) (gp : Bool) (history : History)
      → start_copy_target_tx server version gp history ≡ begun target_begin version gp history
  unfolding start_copy_target_tx issue
  start_copy_target_tx-begun version gp history =
      rw (setup_connection-set_up version gp (history ++ execute target_begin ∷ [])) refl
