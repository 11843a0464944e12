-- ===== src/Decode/Transactions.antt =====
-- `bdr_process_remote_action` of dbsync/pg_logicaldecode.c on the begin and commit messages, and
-- on the return values that it drops.
use rds_dbsync.Base.{
  ℕ, ◌<◌, ◌^◌, ◌≡◌, ◌≢◌, refl, Bool, true, false, some, List, ◌∷◌, ◌++◌, append_assoc, arith, ◌==◌,
}
use rds_dbsync.Pqformat.{Pqformat, msb}
use rds_dbsync.Message.{DecodeMessage, msgkind_begin, msgkind_commit}
use rds_dbsync.Wire.{begin_bytes, commit_bytes}
use rds_dbsync.Decode.{
  process_remote_begin, process_remote_commit, commit_fields, dispatch, is_action,
  bdr_process_remote_action, ◌>>=◌,
}

abbrev pub Fits64 : ℕ → Type 0
Fits64 n = n < 2 ^ 64

module _ (pq : Pqformat) where
  -- Whatever a handler answers, and whatever it left in the message, the answer to the caller of
  -- a message of one of the five kinds is `true`.
  pub answer_dropped :
      (c : ℕ) (s s' : List ℕ) (msg msg' : DecodeMessage) (rc : Bool)
      → c < 256
      → is_action c ≡ true
      → dispatch pq c msg s ≡ some ((msg', rc), s')
      → bdr_process_remote_action pq msg (c ∷ s) ≡ some ((msg', true), s')
  unfolding bdr_process_remote_action
  answer_dropped c s s' msg msg' rc hc ha hd =
      rw (pq.getmsgbyte_lem c s hc) (rw ha (rw (hd, ◌>>=◌)))

  -- A begin message is read back, and the other fields of the message stay as they were.
  pub bdr_process_remote_action-begin_bytes :
      (msg : DecodeMessage) (lsn tm xid : ℕ) (rest : List ℕ)
      → Fits64 lsn
      → Fits64 tm
      → xid < 2 ^ 32
      → bdr_process_remote_action pq msg (begin_bytes lsn tm xid ++ rest)
        ≡ some ((record msg { kind = msgkind_begin; lsn = lsn; tm = tm; xid = xid }, true), rest)
  unfolding bdr_process_remote_action dispatch process_remote_begin begin_bytes
  bdr_process_remote_action-begin_bytes msg lsn tm xid rest hl ht hx = simp (
    append_assoc,
    pq.getmsgbyte_lem b'B' (msb 4 0 ++ (msb 8 lsn ++ (msb 8 tm ++ (msb 4 xid ++ rest))))
        (omega arith),
    pq.getmsgint-four 0 (msb 8 lsn ++ (msb 8 tm ++ (msb 4 xid ++ rest))) (omega arith),
    pq.getmsgint64_lem lsn (msb 8 tm ++ (msb 4 xid ++ rest)) hl,
    pq.getmsgint64_lem tm (msb 4 xid ++ rest) ht,
    pq.getmsgint-four xid rest hx,
  )

  -- A commit message with no flags is read back, and the other fields stay as they were.
  pub bdr_process_remote_action-commit_bytes :
      (msg : DecodeMessage) (lsn end_lsn tm : ℕ) (rest : List ℕ)
      → Fits64 lsn
      → Fits64 end_lsn
      → Fits64 tm
      → bdr_process_remote_action pq msg (commit_bytes 0 lsn end_lsn tm ++ rest)
        ≡ some (
          (record msg { kind = msgkind_commit; lsn = lsn; tm = tm; end_lsn = end_lsn }, true),
          rest,
        )
  unfolding bdr_process_remote_action dispatch process_remote_commit commit_fields commit_bytes
  bdr_process_remote_action-commit_bytes msg lsn end_lsn tm rest hl he ht = simp append_assoc (
      answer_dropped b'C' (msb 4 0 ++ (msb 8 lsn ++ (msb 8 end_lsn ++ (msb 8 tm ++ rest)))) rest msg
        _ true (omega arith) refl
        (simp (
          pq.getmsgint-four 0 (msb 8 lsn ++ (msb 8 end_lsn ++ (msb 8 tm ++ rest))) (omega arith),
          pq.getmsgint64_lem lsn (msb 8 end_lsn ++ (msb 8 tm ++ rest)) hl,
          pq.getmsgint64_lem end_lsn (msb 8 tm ++ rest) he,
          pq.getmsgint64_lem tm rest ht,
        )))

  ne_zero : (n : ℕ) → n ≢ 0 → (n == 0) ≡ false
  ne_zero n h = ground arith

  -- A commit message with flags other than zero is refused by its handler, and still reported as
  -- a success: the caller gets `true` and a message that nothing was written to.
  pub commit_flags_reported :
      (msg : DecodeMessage) (flags lsn end_lsn tm : ℕ) (rest : List ℕ)
      → flags < 2 ^ 32
      → flags ≢ 0
      → (process_remote_commit pq msg
            (msb 4 flags ++ (msb 8 lsn ++ (msb 8 end_lsn ++ (msb 8 tm ++ rest))))
          ≡ some ((msg, false), msb 8 lsn ++ (msb 8 end_lsn ++ (msb 8 tm ++ rest))))
        × (bdr_process_remote_action pq msg (commit_bytes flags lsn end_lsn tm ++ rest)
            ≡ some ((msg, true), msb 8 lsn ++ (msb 8 end_lsn ++ (msb 8 tm ++ rest))))
  unfolding bdr_process_remote_action dispatch process_remote_commit commit_bytes
  commit_flags_reported msg flags lsn end_lsn tm rest hf ne =
      let behind : List ℕ = msb 8 lsn ++ (msb 8 end_lsn ++ (msb 8 tm ++ rest)) in
      let refused : process_remote_commit pq msg (msb 4 flags ++ behind)
          ≡ some ((msg, false), behind) =
        simp (pq.getmsgint-four flags behind hf, ne_zero flags ne) in
      (
        refused,
        simp append_assoc (
            answer_dropped b'C' (msb 4 flags ++ behind) behind msg msg false (omega arith) refl
              refused),
      )
