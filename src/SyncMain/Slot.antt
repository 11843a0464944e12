-- ===== src/SyncMain/Slot.antt =====
-- The slot and the snapshot that `db_sync_main` finds or creates.
use rds_dbsync.Base.{
  ◌≡◌, refl, sym, ◌∙◌, Bool, true, false, Bool-cases, inl, inr, not, ◌&&◌, Option, none, some, [],
  Text, leb, if◌then◌else◌,
}
use rds_dbsync.SyncMain.{
  Actions, Servers, SyncState, returns, by_status, with_connections, with_slot_snapshot, with_slot,
  extension_slot, synchronized, is_slot_exists, get_task_status,
}
use rds_dbsync.SyncMain.Trace.{
  threads_snapshot, Ordered, Quiet, Quiet-Ordered, PhaseIs, PhaseIs-if, with_actions,
}

module _ (w : Servers) where
  -- Behind the status of the task.
  abbrev pub Known : SyncState → Type 0
  Known s = Quiet s.actions × (s.snapshot ≡ none) × (s.th_snapshot ≡ none)

  -- Behind the slot: the threads have no snapshot yet, and will have the one that is due.
  abbrev pub Slotted : SyncState → Type 0
  Slotted s =
      Quiet s.actions
      × (s.th_snapshot ≡ none)
      × ((a : Actions)
          → (synchronized w s.snapshot (with_actions s a)).th_snapshot ≡ threads_snapshot w)

  by_status-Known : (start end : Option Text) → PhaseIs Known (Ordered w) (by_status start end)
  by_status-Known (some start) none = tt
  by_status-Known none none = (tt, refl, refl)
  by_status-Known (some start) (some end) = (tt, refl, refl)
  by_status-Known none (some end) = (tt, refl, refl)

  pub with_connections-Known : PhaseIs Known (Ordered w) (with_connections w)
  with_connections-Known =
      let status = get_task_status w.status_rows in
      PhaseIs-if (Ordered w) Known (w.src_connects && w.desc_connects) _ (returns 1 [])
        (PhaseIs-if (Ordered w) Known w.local_connects (by_status status.full_start status.full_end)
          _ (by_status-Known status.full_start status.full_end) (tt, refl, refl))
        tt

  exported : Option Text
  exported = if leb 90200 w.src_version then w.synchronized_snapshot else none

  synchronized-none :
      (o : Option Text) (s : SyncState)
      → o ≡ none
      → s.th_snapshot ≡ none
      → (synchronized w o s).th_snapshot ≡ exported
  unfolding exported
  synchronized-none none s e t = elim (Bool-cases (leb 90200 w.src_version)) [
    | inl c ↦ rw c refl
    | inr c ↦ rw c t
  ]
  synchronized-none (some snapshot) s e t = cc

  with_slot_snapshot-Slotted :
      (o : Option Text) (s : SyncState)
      → Known s
      → threads_snapshot w ≡ none
      → PhaseIs Slotted (Ordered w) (with_slot_snapshot w o s)
  with_slot_snapshot-Slotted none s (q, n, t) e = (Quiet-Ordered w s.actions q).0
  with_slot_snapshot-Slotted (some snapshot) s (q, n, t) e = (q, t, λ a. t ∙ sym e)

  supports : Bool
  supports = not w.src_is_greenplum && leb 90400 w.src_version

  threads-exported :
      supports && not (is_slot_exists w.slots) ≡ false → threads_snapshot w ≡ exported
  unfolding supports exported
  threads-exported e = rw e refl

  threads-created : supports && not (is_slot_exists w.slots) ≡ true → threads_snapshot w ≡ none
  unfolding supports
  threads-created e = rw e refl

  both : (a b c d : Bool) → a ≡ c → b ≡ d → a && not b ≡ c && not d
  both a b c d e f = rw (e, f) refl

  pub with_slot-Slotted : (s : SyncState) → Known s → PhaseIs Slotted (Ordered w) (with_slot w s)
  unfolding supports
  with_slot-Slotted s (q, n, t) =
      let found : SyncState = record s { replication_sync = true; slot_name = extension_slot } in
      let exists = is_slot_exists w.slots in
      elim (Bool-cases (not w.src_is_greenplum && leb 90400 w.src_version)) [
        | inl c ↦ elim (Bool-cases (is_slot_exists w.slots)) [
          | inl e ↦
              let same = threads-exported (both supports exists true true c e) in
              rw (c, e)
                (q, t, λ a. synchronized-none found.snapshot (with_actions found a) n t ∙ sym same)
          | inr e ↦
              let same = threads-created (both supports exists true false c e) in
              rw (c, e)
                (PhaseIs-if (Ordered w) Slotted w.repl_connects
                  (with_slot_snapshot w w.slot_snapshot s) (returns 1 s.actions)
                  (with_slot_snapshot-Slotted w.slot_snapshot s (q, n, t) same)
                  (Quiet-Ordered w s.actions q).0)
        ]
        | inr c ↦ rw c (
          q,
          t,
          λ a.
              synchronized-none s.snapshot (with_actions s a) n t
              ∙ sym (threads-exported (both supports exists false exists c refl)),
        )
      ]
