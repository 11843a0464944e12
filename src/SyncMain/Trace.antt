-- ===== src/SyncMain/Trace.antt =====
-- What the list of actions of `db_sync_main` tells, and how a fact passes through its phases.
use rds_dbsync.Base.{
  ◌≡◌, refl, Bool, true, false, not, ◌&&◌, Option, none, some, [], ◌∷◌, Text, leb, if◌then◌else◌,
}
use rds_dbsync.SyncMain.{
  ask_origin, ask_local, create_slot, start_copy, start_receive, start_apply, wait_copy,
  wait_decoders, Actions, Servers, SyncState, Phase, goes, returns, then_phase, is_slot_exists,
}

-- No thread that copies was started, or its end was waited for.
abbrev pub NotCopying : Actions → Type 0
NotCopying [] = Unit
NotCopying (ask_origin sql ∷ a) = NotCopying a
NotCopying (ask_local sql ∷ a) = NotCopying a
NotCopying (create_slot ∷ a) = NotCopying a
NotCopying (start_copy snapshot tables ∷ a) = ⊥
NotCopying (start_receive slot ∷ a) = NotCopying a
NotCopying (start_apply ∷ a) = NotCopying a
NotCopying (wait_copy ∷ a) = Unit
NotCopying (wait_decoders ∷ a) = NotCopying a

-- The receiving thread was started.
abbrev pub Received : Actions → Type 0
Received [] = ⊥
Received (ask_origin sql ∷ a) = Received a
Received (ask_local sql ∷ a) = Received a
Received (create_slot ∷ a) = Received a
Received (start_copy snapshot tables ∷ a) = Received a
Received (start_receive slot ∷ a) = Unit
Received (start_apply ∷ a) = Received a
Received (wait_copy ∷ a) = Received a
Received (wait_decoders ∷ a) = Received a

-- The snapshot that the threads are given: the one exported for them, if there is one; none if the
-- slot was created, although it comes with a snapshot.
abbrev pub threads_snapshot : Servers → Option Text
threads_snapshot w =
    if not w.src_is_greenplum && leb 90400 w.src_version && not (is_slot_exists w.slots)
    then none
    else if leb 90200 w.src_version
    then w.synchronized_snapshot
    else none

-- The apply thread starts only behind the receiving thread, and when no table is being copied; and
-- the tables that are copied are those of the origin, in that snapshot.
abbrev pub Ordered : Servers → Actions → Type 0
Ordered w [] = Unit
Ordered w (ask_origin sql ∷ a) = Ordered w a
Ordered w (ask_local sql ∷ a) = Ordered w a
Ordered w (create_slot ∷ a) = Ordered w a
Ordered w (start_copy snapshot tables ∷ a) =
    (snapshot ≡ threads_snapshot w) × (w.tables ≡ some tables) × Ordered w a
Ordered w (start_receive slot ∷ a) = Ordered w a
Ordered w (start_apply ∷ a) = NotCopying a × Received a × Ordered w a
Ordered w (wait_copy ∷ a) = Ordered w a
Ordered w (wait_decoders ∷ a) = Ordered w a

-- Nothing but statements and the slot.
abbrev pub Quiet : Actions → Type 0
Quiet [] = Unit
Quiet (ask_origin sql ∷ a) = Quiet a
Quiet (ask_local sql ∷ a) = Quiet a
Quiet (create_slot ∷ a) = Quiet a
Quiet (start_copy snapshot tables ∷ a) = ⊥
Quiet (start_receive slot ∷ a) = ⊥
Quiet (start_apply ∷ a) = ⊥
Quiet (wait_copy ∷ a) = ⊥
Quiet (wait_decoders ∷ a) = ⊥

pub Quiet-Ordered : (w : Servers) (a : Actions) → Quiet a → Ordered w a × NotCopying a
Quiet-Ordered w [] h = (tt, tt)
Quiet-Ordered w (ask_origin sql ∷ a) h = Quiet-Ordered w a h
Quiet-Ordered w (ask_local sql ∷ a) h = Quiet-Ordered w a h
Quiet-Ordered w (create_slot ∷ a) h = Quiet-Ordered w a h
Quiet-Ordered w (start_copy snapshot tables ∷ a) h = absurd h
Quiet-Ordered w (start_receive slot ∷ a) h = absurd h
Quiet-Ordered w (start_apply ∷ a) h = absurd h
Quiet-Ordered w (wait_copy ∷ a) h = absurd h
Quiet-Ordered w (wait_decoders ∷ a) h = absurd h

-- What holds where the entry goes on, and what where it returns.
abbrev pub PhaseIs : (SyncState → Type 0) → (Actions → Type 0) → Phase → Type 0
PhaseIs P Q (goes s) = P s
PhaseIs P Q (returns code a) = Q a

module _ (Q : Actions → Type 0) where
  pub PhaseIs-then :
      (P R : SyncState → Type 0) (p : Phase) (f : SyncState → Phase)
      → PhaseIs P Q p
      → ((s : SyncState) → P s → PhaseIs R Q (f s))
      → PhaseIs R Q (then_phase p f)
  PhaseIs-then P R (goes s) f h k = k s h
  PhaseIs-then P R (returns code a) f h k = h

  pub PhaseIs-if :
      (P : SyncState → Type 0) (c : Bool) (p q : Phase)
      → PhaseIs P Q p
      → PhaseIs P Q q
      → PhaseIs P Q (if c then p else q)
  PhaseIs-if P true p q h k = h
  PhaseIs-if P false p q h k = k

  pub PhaseIs-either :
      (P : SyncState → Type 0) (c : Bool) (p q : Phase)
      → (c ≡ true → PhaseIs P Q p)
      → (c ≡ false → PhaseIs P Q q)
      → PhaseIs P Q (if c then p else q)
  PhaseIs-either P true p q h k = h refl
  PhaseIs-either P false p q h k = k refl

abbrev pub actions_of : Phase → Actions
actions_of (goes s) = s.actions
actions_of (returns code a) = a

abbrev pub with_actions : SyncState → Actions → SyncState
with_actions s a = record s { actions = a }
