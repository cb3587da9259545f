-- ===== src/Task/Wakeup.antt =====
-- Notifications and waits of src/platform/linux/task.rs.
use microps_rs.Base.{
  ℕ, zero, suc, ◌+◌, ◌%◌, ◌<◌, ◌≡◌, refl, ◌≢◌, true, false, List, [], ◌∷◌, arith, length, ◌==◌,
}
use microps_rs.Task.{TaskState, task_at, update_task, snapshot, notify, may_wake, bump}

task_at-update_task :
    (f : TaskState → TaskState) (i : ℕ) (ts : List TaskState)
    → i < length ts
    → task_at (update_task f i ts) i ≡ f (task_at ts i)
unfolding update_task
task_at-update_task f i [] h = elim h [ ]
task_at-update_task f zero (t ∷ ts) h = refl
task_at-update_task f (suc i) (t ∷ ts) h = task_at-update_task f i ts (omega arith)

-- `n` notifications, one behind the other.
pub notify_times : ℕ → ℕ → List TaskState → List TaskState
notify_times zero i ts = ts
notify_times (suc n) i ts = notify_times n i (notify i ts)

length-update_task :
    (f : TaskState → TaskState) (i : ℕ) (ts : List TaskState)
    → length (update_task f i ts) ≡ length ts
unfolding update_task
length-update_task f i [] = refl
length-update_task f zero (t ∷ ts) = refl
length-update_task f (suc i) (t ∷ ts) = omega (arith, length-update_task f i ts)

generation-notify_times :
    (n i : ℕ) (ts : List TaskState)
    → i < length ts
    → (task_at ts i).generation < 18446744073709551616
    → (task_at (notify_times n i ts) i).generation
      ≡ ((task_at ts i).generation + n) % 18446744073709551616
unfolding notify_times notify
generation-notify_times zero i ts h g = omega arith
generation-notify_times (suc n) i ts h g =
    let moved : (task_at (notify i ts) i).generation
        ≡ ((task_at ts i).generation + 1) % 18446744073709551616 =
      rw (task_at-update_task bump i ts h) refl in
    omega (
      arith,
      moved,
      generation-notify_times n i (notify i ts) (omega (arith, length-update_task bump i ts))
          (omega (arith, moved)),
    )

-- The last notification leaves nobody asleep.
asleep-notify_times :
    (n i : ℕ) (ts : List TaskState)
    → i < length ts
    → (task_at (notify_times (suc n) i ts) i).asleep ≡ 0
unfolding notify_times notify
asleep-notify_times zero i ts h = rw (task_at-update_task bump i ts h) refl
asleep-notify_times (suc n) i ts h =
    asleep-notify_times n i (notify i ts) (omega (arith, length-update_task bump i ts))

-- A thread has read the generation of its task, a 64-bit word, and the task is then notified, some
-- times, but not exactly a multiple of 2 ^ 64 times. Then the condition variable holds no thread of
-- the task asleep any more, and the condition under which this one waits is over.
pub notify_times-may_wake :
    (n i : ℕ) (ts : List TaskState)
    → i < length ts
    → (task_at ts i).generation < 18446744073709551616
    → n % 18446744073709551616 ≢ 0
    → let t = task_at (notify_times n i ts) i in
      (t.asleep ≡ 0) × (may_wake (snapshot i ts) t ≡ true)
unfolding may_wake
notify_times-may_wake zero i ts h g ne = absurd (ne refl)
notify_times-may_wake (suc k) i ts h g ne =
    let n = suc k in
    let moved = generation-notify_times n i ts h g in
    let other : ((task_at (notify_times n i ts) i).generation == (task_at ts i).generation)
        ≡ false =
      differ (task_at ts i).generation n _ g ne moved in
    (asleep-notify_times k i ts h, rw other refl)
  where
    differ :
        (g n x : ℕ)
        → g < 18446744073709551616
        → n % 18446744073709551616 ≢ 0
        → x ≡ (g + n) % 18446744073709551616
        → (x == g) ≡ false
    differ g n x h ne e = ground arith
