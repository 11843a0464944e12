-- ===== src/Tasks.antt =====
-- The queue of tables that the copy threads share: `copy_table_data` (dbsync/pgsync.c) and
-- `mysql2pgsql_copy_data` (dbsync/mysql2pgsql.c) take from it with the same code. A thread holds
-- the lock while it takes, so that the takes of all threads come one behind the other.
use rds_dbsync.Base.{
  ℕ, suc, ◌-◌, ◌≡◌, refl, sym, ap, ◌∙◌, true, false, Option, none, some, List, [], ◌∷◌, ◌++◌, map,
  append_assoc, append-nil, arith, length, subst, map-snoc, ltb, ◌==◌, if◌then◌else◌,
}

-- `l_task` and what its `next` pointers reach, and `ntask`.
pub record TaskQueue (Task : Type 0) : Type 0 where
  pub l_task : List Task
  pub ntask : ℕ

many : (n k : ℕ) → n ≡ suc (suc k) → ((n == 1) ≡ false) × (ltb 1 n ≡ true) × (n - 1 ≡ suc k)
many n k h = (ground arith, ground arith, omega arith)

module _ {Task : Type 0} where
  abbrev first : List Task → Option Task
  first [] = none
  first (task ∷ tasks) = some task

  -- `curr = l_task; l_task = l_task->next; ntask--`; `none` where `l_task` is NULL.
  abbrev take_first : List Task → ℕ → Option (Option Task × TaskQueue Task)
  take_first [] n = none
  take_first (task ∷ tasks) n = some (some task, record { l_task = tasks; ntask = n - 1 })

  -- What a thread takes (`none` for NULL), and the queue it leaves.
  unfoldable pub take_task : TaskQueue Task → Option (Option Task × TaskQueue Task)
  take_task queue =
      let rest = take_first queue.l_task queue.ntask in
      if queue.ntask == 1
      then some (first queue.l_task, record { l_task = []; ntask = 0 })
      else if ltb 1 queue.ntask
      then rest
      else some (none, queue)

  -- The counter is the number of tasks in the list.
  abbrev pub Counted : TaskQueue Task → Type 0
  Counted queue = queue.ntask ≡ length queue.l_task

  -- Of any number of threads, named by numbers: each take adds the thread and its task to those
  -- that went before.
  pub data Run (start : TaskQueue Task) : TaskQueue Task → List (ℕ × Task) → Type 0 where
    started : Run start start []
    took :
        {queue queue' : TaskQueue Task} {taken : List (ℕ × Task)} {task : Task}
        → Run start queue taken
        → (thread : ℕ) → take_task queue ≡ some (some task, queue')
        → Run start queue' (taken ++ (thread, task) ∷ [])

  abbrev pub tasks_of : List (ℕ × Task) → List Task
  tasks_of taken = map (λ t. t.1) taken

  abbrev queue_of : List Task → TaskQueue Task
  queue_of tasks = record { l_task = tasks; ntask = length tasks }

  take_task-cons :
      (task : Task) (tasks : List Task)
      → take_task (queue_of (task ∷ tasks)) ≡ some (some task, queue_of tasks)
  unfolding take_task
  take_task-cons task [] = refl
  take_task-cons task (next ∷ tasks) =
      let (not_one, more, left) = many (suc (suc (length tasks))) (length tasks) refl in
      rw (not_one, more, left) refl

  take_task-nil : take_task (queue_of []) ≡ some (none, queue_of [])
  unfolding take_task
  take_task-nil = refl

  Counted-queue_of : (queue : TaskQueue Task) → Counted queue → queue ≡ queue_of queue.l_task
  Counted-queue_of queue h = λ i. record { l_task = queue.l_task; ntask = h i }

  -- The tasks that are taken, and those that are left.
  abbrev pub Shares : TaskQueue Task → TaskQueue Task → List (ℕ × Task) → Type 0
  Shares start queue taken = Counted queue × (tasks_of taken ++ queue.l_task ≡ start.l_task)

  none_taken :
      {task : Task} {queue queue' : TaskQueue Task}
      → ◌≡◌ {A = Option (Option Task × TaskQueue Task)}
          (some (none, queue))
          (some (some task, queue'))
      → ⊥
  none_taken h = cc

  same_take :
      {task task' : Task} {queue queue' : TaskQueue Task}
      → ◌≡◌ {A = Option (Option Task × TaskQueue Task)}
          (some (some task, queue))
          (some (some task', queue'))
      → (task ≡ task') × (queue ≡ queue')
  same_take h = (cc, cc)

  took_first :
      (tasks : List Task) (task : Task) (queue' : TaskQueue Task)
      → take_task (queue_of tasks) ≡ some (some task, queue')
      → Counted queue' × (task ∷ queue'.l_task ≡ tasks)
  took_first [] task queue' h = absurd (none_taken (sym take_task-nil ∙ h))
  took_first (first_task ∷ tasks) task queue' h =
      let (same, left) = same_take (sym (take_task-cons first_task tasks) ∙ h) in
      (subst Counted left refl, λ i. sym same i ∷ (sym left i).l_task)

  took_none :
      (tasks : List Task) (queue' : TaskQueue Task)
      → take_task (queue_of tasks) ≡ some (none, queue')
      → tasks ≡ []
  took_none [] queue' h = refl
  took_none (task ∷ tasks) queue' h = absurd (none_taken (sym h ∙ take_task-cons task tasks))

  -- From a queue whose counter is right, however many threads take, and in whichever order: the
  -- tasks that were taken, in the order of the takes, and then those that are left, are the tasks
  -- of the start, so that none is lost and none is taken twice; and the counter counts what is
  -- left.
  pub Run-Shares :
      {start queue : TaskQueue Task} {taken : List (ℕ × Task)}
      → Counted start
      → Run start queue taken
      → Shares start queue taken
  Run-Shares h started = (h, refl)
  Run-Shares {start = start} h (took {queue} {queue'} {taken} {task} before thread e) =
      let (counted, shared) = Run-Shares h before in
      let (counted', front) =
        took_first queue.l_task task queue' (
          subst (λ q. take_task q ≡ some (some task, queue')) (Counted-queue_of queue counted) e) in
      (
        counted',
        rw (map-snoc (λ t. t.1) taken (thread, task), append_assoc)
            (ap (λ tasks. tasks_of taken ++ tasks) front ∙ shared),
      )

  -- From a queue whose counter is right, once a thread finds no task, which ends it, every task
  -- of the start has been taken.
  pub Run-all_taken :
      {start queue : TaskQueue Task} {taken : List (ℕ × Task)}
      → Counted start
      → Run start queue taken
      → take_task queue ≡ some (none, queue)
      → tasks_of taken ≡ start.l_task
  Run-all_taken {start} {queue} {taken} h run e =
      let (counted, shared) = Run-Shares h run in
      let none_left : queue.l_task ≡ [] =
        took_none queue.l_task queue
          (subst (λ q. take_task q ≡ some (none, queue)) (Counted-queue_of queue counted) e) in
      sym (append-nil (tasks_of taken))
      ∙ ap (λ tasks. tasks_of taken ++ tasks) (sym none_left)
      ∙ shared
