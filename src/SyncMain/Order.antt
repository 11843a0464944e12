-- ===== src/SyncMain/Order.antt =====
-- The order in which `db_sync_main` starts its threads.
use rds_dbsync.Base.{
  ◌≡◌, refl, ◌∙◌, Bool, true, false, Bool-cases, inl, inr, Option, none, some, List, ◌∷◌, Text, leb,
  if◌then◌else◌,
}
use rds_dbsync.Connections.{origin_begin}
use rds_dbsync.SyncMain.{
  ask_origin, start_apply, wait_decoders, Actions, Servers, SyncState, Phase, goes, returns,
  with_connections, with_slot, synchronized, with_tables, full_sync, receive, wait_full_sync, apply,
  db_sync_main, update_task_status,
}
use rds_dbsync.SyncMain.Trace.{
  NotCopying, Received, threads_snapshot, Ordered, Quiet, Quiet-Ordered, PhaseIs, PhaseIs-then,
  PhaseIs-if, PhaseIs-either, actions_of, with_actions,
}
use rds_dbsync.SyncMain.Slot.{Known, Slotted, with_connections-Known, with_slot-Slotted}

module _ (w : Servers) where
  -- Nothing is copied, unless the entry waits for it later.
  abbrev Unless : Bool → Actions → Type 0
  Unless true a = Unit
  Unless false a = NotCopying a

  abbrev Copied : SyncState → Type 0
  Copied s = Ordered w s.actions × Unless s.need_full_sync s.actions

  Unless-true : (need : Bool) (a : Actions) → need ≡ true → Unless need a
  Unless-true true a e = tt
  Unless-true false a e = cc

  Unless-any : (need : Bool) (a : Actions) → NotCopying a → Unless need a
  Unless-any true a h = tt
  Unless-any false a h = h

  synchronized-Quiet :
      (o : Option Text) (s : SyncState) → Quiet s.actions → Quiet (synchronized w o s).actions
  synchronized-Quiet (some snapshot) s q = q
  synchronized-Quiet none s q = elim (Bool-cases (leb 90200 w.src_version)) [
    | inl c ↦ rw c q
    | inr c ↦ rw c q
  ]

  synchronized-need :
      (o : Option Text) (s : SyncState) → (synchronized w o s).need_full_sync ≡ s.need_full_sync
  synchronized-need (some snapshot) s = refl
  synchronized-need none s = elim (Bool-cases (leb 90200 w.src_version)) [
    | inl c ↦ rw c refl
    | inr c ↦ rw c refl
  ]

  with_tables-Copied :
      (o : Option (List (Text × Text))) (s : SyncState)
      → w.tables ≡ o
      → Quiet s.actions
      → s.th_snapshot ≡ threads_snapshot w
      → s.need_full_sync ≡ true
      → PhaseIs Copied (Ordered w) (with_tables w o s)
  unfolding update_task_status
  with_tables-Copied none s e q t n = (Quiet-Ordered w s.actions q).0
  with_tables-Copied (some tables) s e q t n =
      ((t, e, (Quiet-Ordered w s.actions q).0), Unless-true s.need_full_sync _ n)

  full_sync-Copied : (s : SyncState) → Slotted w s → PhaseIs Copied (Ordered w) (full_sync w s)
  full_sync-Copied s (q, t, g) =
      let begun = ask_origin (origin_begin s.snapshot w.src_is_greenplum) ∷ s.actions in
      let sync = synchronized w s.snapshot (with_actions s begun) in
      let copied =
        PhaseIs-if (Ordered w) Copied w.begins (with_tables w w.tables sync) (returns 1 begun) in
      PhaseIs-either (Ordered w) Copied s.need_full_sync
        (if w.begins then with_tables w w.tables sync else returns 1 begun) (goes s)
        (λ n.
          copied
            (with_tables-Copied w.tables sync refl
              (synchronized-Quiet s.snapshot (with_actions s begun) q) (g begun)
              (synchronized-need s.snapshot (with_actions s begun) ∙ n))
            (Quiet-Ordered w s.actions q).0)
        (λ n.
          let (o, c) = Quiet-Ordered w s.actions q in (o, Unless-any s.need_full_sync s.actions c))

  -- The receiving thread was started, where there is a slot.
  abbrev ReceivedIf : Bool → Actions → Type 0
  ReceivedIf true a = Received a
  ReceivedIf false a = Unit

  abbrev Receiving : SyncState → Type 0
  Receiving s = Copied s × ReceivedIf s.replication_sync s.actions

  abbrev Finished : SyncState → Type 0
  Finished s = Ordered w s.actions × NotCopying s.actions × ReceivedIf s.replication_sync s.actions

  ReceivedIf-any : (c : Bool) (a : Actions) → Received a → ReceivedIf c a
  ReceivedIf-any true a h = h
  ReceivedIf-any false a h = tt

  ReceivedIf-false : (c : Bool) (a : Actions) → c ≡ false → ReceivedIf c a
  ReceivedIf-false true a e = cc
  ReceivedIf-false false a e = tt

  Unless-more : (c : Bool) (a b : Actions) → (NotCopying a → NotCopying b) → Unless c a → Unless c b
  Unless-more true a b f h = tt
  Unless-more false a b f h = f h

  ReceivedIf-more :
      (c : Bool) (a b : Actions) → (Received a → Received b) → ReceivedIf c a → ReceivedIf c b
  ReceivedIf-more true a b f h = f h
  ReceivedIf-more false a b f h = tt

  Unless-false : (c : Bool) (a : Actions) → c ≡ false → Unless c a → NotCopying a
  Unless-false true a e h = cc
  Unless-false false a e h = h

  receive-Receiving : (s : SyncState) → Copied s → PhaseIs Receiving (Ordered w) (receive w s)
  unfolding update_task_status
  receive-Receiving s (o, u) =
      PhaseIs-either (Ordered w) Receiving s.replication_sync _ (goes s)
        (λ e. (
          (o, Unless-more s.need_full_sync s.actions _ (λ h. h) u),
          ReceivedIf-any s.replication_sync _ tt,
        ))
        (λ e. ((o, u), ReceivedIf-false s.replication_sync s.actions e))

  wait_full_sync-Finished :
      (s : SyncState) → Receiving s → PhaseIs Finished (Ordered w) (wait_full_sync w s)
  unfolding update_task_status
  wait_full_sync-Finished s ((o, u), r) =
      PhaseIs-either (Ordered w) Finished s.need_full_sync _ (goes s)
        (λ e. (o, tt, ReceivedIf-more s.replication_sync s.actions _ (λ h. h) r))
        (λ e. (o, Unless-false s.need_full_sync s.actions e u, r))

  apply-Ordered :
      (replication : Bool) (a : Actions)
      → Ordered w a
      → NotCopying a
      → ReceivedIf replication a
      → Ordered w (if replication then wait_decoders ∷ start_apply ∷ a else a)
  apply-Ordered true a o n r = (n, r, o)
  apply-Ordered false a o n r = o

  returned :
      (p : Phase) → PhaseIs (λ s. Ordered w s.actions) (Ordered w) p → Ordered w (actions_of p)
  returned (goes s) h = h
  returned (returns code a) h = h

  -- In every run, whatever the servers answer: the apply thread starts only behind the receiving
  -- thread, and only when no table is being copied; and the threads that copy are given the tables
  -- of the origin with the snapshot that was exported for them, if the server can do that, but with
  -- no snapshot if the slot was created in this run.
  pub db_sync_main-Ordered : Ordered w (actions_of (db_sync_main w))
  unfolding db_sync_main
  db_sync_main-Ordered =
      let final : SyncState → Type 0 = λ s. Ordered w s.actions in
      let q = Ordered w in
      returned (db_sync_main w) (
        PhaseIs-then q (Known w) final (with_connections w) _ (with_connections-Known w) (λ s1 h1.
          PhaseIs-then q (Slotted w) final (with_slot w s1) _ (with_slot-Slotted w s1 h1) (λ s2 h2.
            PhaseIs-then q Copied final (full_sync w s2) _ (full_sync-Copied s2 h2) (λ s3 h3.
              PhaseIs-then q Receiving final (receive w s3) _ (receive-Receiving s3 h3) (λ s4 h4.
                PhaseIs-then q Finished final (wait_full_sync w s4) (apply w)
                  (wait_full_sync-Finished s4 h4)
                  (λ s5 (o, n, r). apply-Ordered s5.replication_sync s5.actions o n r))))))
