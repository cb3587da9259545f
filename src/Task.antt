-- ===== src/Task.antt =====
-- src/platform/linux/task.rs: the tasks on which blocking calls wait. A task is named by its place
-- in the list of all tasks; the list keeps the dead ones, whose weak references the code drops.
pub mod Wakeup
use microps_rs.Base.{
  ℕ, zero, suc, ◌+◌, ◌-◌, ◌%◌, ◌^◌, Bool, true, false, not, ◌||◌, List, [], ◌∷◌, ◌++◌, ◌==◌,
  if◌then◌else◌, length, get_or, map, Option, none, some,
}

-- `asleep` are the threads that the condition variable holds.
pub record TaskState : Type 0 where
  pub generation : ℕ
  pub interrupted : Bool
  pub wc : ℕ
  pub asleep : ℕ

abbrev pub fresh_task : TaskState
fresh_task = record { generation = 0; interrupted = false; wc = 0; asleep = 0 }

abbrev pub task_at : List TaskState → ℕ → TaskState
task_at ts i = get_or ts i fresh_task

unfoldable pub update_task : (TaskState → TaskState) → ℕ → List TaskState → List TaskState
update_task f i [] = []
update_task f zero (t ∷ ts) = f t ∷ ts
update_task f (suc i) (t ∷ ts) = t ∷ update_task f i ts

-- `new_task`.
abbrev pub new_task : List TaskState → ℕ × List TaskState
new_task ts = (length ts, ts ++ fresh_task ∷ [])

-- `snapshot`.
abbrev pub snapshot : ℕ → List TaskState → ℕ
snapshot i ts = (task_at ts i).generation

-- `notify`: the generation moves on, and wraps at 64 bits, and `notify_all` wakes all threads.
abbrev bump : TaskState → TaskState
bump t = record t { generation = (t.generation + 1) % 2 ^ 64; asleep = 0 }

unfoldable pub notify : ℕ → List TaskState → List TaskState
unfolding update_task
notify i ts = update_task bump i ts

-- `interrupt`, and the handler of the task's signal, which interrupts every task.
abbrev set_interrupted : TaskState → TaskState
set_interrupted t = if t.interrupted then t else record t { interrupted = true; asleep = 0 }

unfoldable pub interrupt : ℕ → List TaskState → List TaskState
unfolding update_task
interrupt i ts = update_task set_interrupted i ts

unfoldable pub isr : List TaskState → List TaskState
isr ts = map set_interrupted ts

pub data WaitResult : Type 0 where
  notified interrupted : WaitResult

clear_if_last : TaskState → TaskState
clear_if_last t = if t.wc == 0 then record t { interrupted = false } else t

-- `wait_after` up to the wait on the condition variable: the result, if it returns at once.
unfoldable pub wait_begin : TaskState → Option WaitResult × TaskState
unfolding clear_if_last
wait_begin t =
    if t.interrupted
    then (some interrupted, clear_if_last t)
    else (none, record t { wc = t.wc + 1 })

-- The condition under which `wait_while` lets the thread go on.
unfoldable pub may_wake : ℕ → TaskState → Bool
may_wake snap t = not (t.generation == snap) || t.interrupted

-- `wait_while`: the thread goes to sleep as long as the condition does not let it go on.
unfoldable pub sleep : ℕ → TaskState → TaskState
unfolding may_wake
sleep snap t = if may_wake snap t then t else record t { asleep = t.asleep + 1 }

-- `wait_after` behind the wait.
unfoldable pub wait_end : TaskState → WaitResult × TaskState
unfolding clear_if_last
wait_end t =
    let t' = record t { wc = t.wc - 1 } in
    if t.interrupted then (interrupted, clear_if_last t') else (notified, t')
