-- ===== src/Scheduler/Simulator/Life.antt =====
-- A task that runs for a limited time is unassigned when the time is over, and not before.
use workload_collocation_age.Base.{ℕ, zero, suc, ◌+◌, ◌≡◌, ap, ◌∙◌, none, some, arith, String}
use workload_collocation_age.Scheduler.Simulator.{Task, update_task, older}

-- So many updates of a task.
abbrev pub updates : ℕ → Task → Task
updates zero t = t
updates (suc n) t = updates n (update_task t)

-- An assigned task within its duration is still assigned after as many updates as its duration
-- leaves, and without an assignment after one more.
pub updates-over :
    (left : ℕ) (t : Task) (n : String) (d : ℕ)
    → t.assignment ≡ some n
    → t.duration ≡ some d
    → t.life_time + left ≡ d
    → ((updates left t).assignment ≡ some n) × ((updates (suc left) t).assignment ≡ none)
unfolding update_task
updates-over zero t n d assigned limited rest = (assigned, rw (assigned, limited) (ground arith))
updates-over (suc left) t n d assigned limited rest =
    let e = ap (λ o. older o t) assigned in
    let still : (update_task t).assignment ≡ some n = rw (assigned, limited) (ground arith) in
    updates-over left (update_task t) n d still (ap (λ u. u.duration) e ∙ limited)
      (ap (λ u. u.life_time + left) e ∙ omega (arith, rest))
