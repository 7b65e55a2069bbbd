-- ===== src/Scheduler/Simulator/Assigned.antt =====
-- The number that the simulator returns counts the tasks it has assigned.
use mathlib.Core.Path.{subst}
use workload_collocation_age.Base.{
  ℕ, zero, suc, ◌+◌, ◌≡◌, refl, sym, ap, ◌∙◌, ◌≢◌, inl, inr, Bool, true, false, not, ◌||◌, Option,
  none, some, List, [], ◌∷◌, All, arith, Bool-cases, Outcome, ok, Error, ◌>>=◌, from_option,
  >>=-eq-ok, ok-injective, String,
}
use workload_collocation_age.Base.Eq.{String_eq}
use workload_collocation_age.Base.Dict.{get}
use workload_collocation_age.Scheduler.Simulator.{
  Task, Node, Simulator, assigned_to, with_tasks, task_at, replace_at, perform_assignment,
  count_rough, validate_assignment,
}
use workload_collocation_age.Scheduler.Simulator.Iterate.{
  Algorithm, call_scheduler, assign_one, assign_all, is_none, count_of,
}

abbrev pub count_assigned : List Task → ℕ
count_assigned [] = 0
count_assigned (t ∷ tasks) = count_of (not (is_none t.assignment)) + count_assigned tasks

-- There is a task without an assignment at the place.
abbrev pub IsFree : List Task → ℕ → Type 0
IsFree tasks i = (t : Task) × (task_at i tasks ≡ some t) × (t.assignment ≡ none)

count_assigned-replace_at :
    (i : ℕ) (tasks : List Task) (t : Task) (n : String)
    → task_at i tasks ≡ some t
    → t.assignment ≡ none
    → count_assigned (replace_at i (assigned_to (some n) t) tasks) ≡ 1 + count_assigned tasks
count_assigned-replace_at i [] t n here free = absurd (cc here)
count_assigned-replace_at zero (u ∷ tasks) t n here free =
    let e : u ≡ t = cc here in rw (e, free) (omega arith)
count_assigned-replace_at (suc i) (u ∷ tasks) t n here free =
    omega (arith, count_assigned-replace_at i tasks t n here free)

task_at-replace_at :
    (i j : ℕ) (tasks : List Task) (u : Task)
    → i ≢ j
    → task_at j (replace_at i u tasks) ≡ task_at j tasks
task_at-replace_at i j [] u apart = refl
task_at-replace_at zero zero (t ∷ tasks) u apart = absurd (apart refl)
task_at-replace_at zero (suc j) (t ∷ tasks) u apart = refl
task_at-replace_at (suc i) zero (t ∷ tasks) u apart = refl
task_at-replace_at (suc i) (suc j) (t ∷ tasks) u apart =
    task_at-replace_at i j tasks u (λ e. apart (ap suc e))

-- What an attempt at one place does to the tasks.
record IsAttempt (i : ℕ) (s : Simulator) (p : ℕ × Simulator) : Type 0 where
  pub counted : count_assigned p.1.tasks ≡ p.0 + count_assigned s.tasks
  pub others : (j : ℕ) → i ≢ j → task_at j p.1.tasks ≡ task_at j s.tasks

count_rough-tasks :
    (n : String) (b : Bool) (s : Simulator) {r : Simulator}
    → count_rough n b s ≡ ok r
    → r.tasks ≡ s.tasks
count_rough-tasks n true s h = ap (λ r. r.tasks) (sym (ok-injective h))
count_rough-tasks n false s h =
    let (count, known, whole) =
      >>=-eq-ok (from_option (get n s.rough_assignments_per_node) Error.key_error) _ h in
    ap (λ r. r.tasks) (sym (ok-injective whole))

perform_assignment-IsAttempt :
    (i : ℕ) (t : Task) (node : Node) (s : Simulator) {p : Bool × Simulator}
    → task_at i s.tasks ≡ some t
    → t.assignment ≡ none
    → perform_assignment i t node s ≡ ok p
    → IsAttempt i s (count_of p.0, p.1)
unfolding perform_assignment
perform_assignment-IsAttempt i t node s here free h =
    let (fits, valid, h') = >>=-eq-ok (validate_assignment node s.tasks t) _ h in
    elim (Bool-cases (fits || s.allow_rough_assignment)) [
      | inl allowed ↦
          let (r, counted, whole) =
            >>=-eq-ok
              (count_rough node.name fits
                (with_tasks s (replace_at i (assigned_to (some node.name) t) s.tasks)))
              _ (rw allowed at h') in
          let same =
            count_rough-tasks node.name fits
              (with_tasks s (replace_at i (assigned_to (some node.name) t) s.tasks)) counted in
          subst (λ p. IsAttempt i s (count_of p.0, p.1)) (ok-injective whole)
            (record {
              counted =
                  ap count_assigned same
                  ∙ count_assigned-replace_at i s.tasks t node.name here free;
              others = λ j apart.
                  ap (task_at j) same
                  ∙ task_at-replace_at i j s.tasks (assigned_to (some node.name) t) apart;
            })
      | inr refused ↦
          subst (λ p. IsAttempt i s (count_of p.0, p.1)) (ok-injective (rw refused at h'))
            (record { counted = omega arith; others = λ j apart. refl })
    ]

assign_one-IsAttempt :
    {M : Type 0} (algorithm : Algorithm M) (i : ℕ) (t : Task) (s : Simulator) {p : ℕ × Simulator}
    → task_at i s.tasks ≡ some t
    → t.assignment ≡ none
    → assign_one algorithm i t s ≡ ok p
    → IsAttempt i s p
unfolding assign_one
assign_one-IsAttempt algorithm i t s {p} here free h =
    let (found, scheduled, h') = >>=-eq-ok (call_scheduler algorithm s t) _ h in by_node found h'
  where
    by_node :
        (found : Option Node)
        → (elim found as (λ _. Outcome (ℕ × Simulator)) [
          | none ↦ ok (0, s)
          | some node ↦ perform_assignment i t node s >>= λ p. ok (count_of p.0, p.1)
        ])
          ≡ ok p
        → IsAttempt i s p
    by_node none h' =
        subst (IsAttempt i s) (ok-injective h')
          (record { counted = omega arith; others = λ j apart. refl })
    by_node (some node) h' =
        let (q, performed, whole) = >>=-eq-ok (perform_assignment i t node s) _ h' in
        subst (IsAttempt i s) (ok-injective whole)
          (perform_assignment-IsAttempt i t node s here free performed)

-- The places are different.
abbrev pub AreApart : List ℕ → Type 0
AreApart [] = Unit
AreApart (i ∷ places) = All (λ j. i ≢ j) places × AreApart places

keep-IsFree :
    (i : ℕ) (s : Simulator) (p : ℕ × Simulator) (places : List ℕ)
    → IsAttempt i s p
    → All (λ j. i ≢ j) places
    → All (IsFree s.tasks) places
    → All (IsFree p.1.tasks) places
keep-IsFree i s p [] attempt apart free = tt
keep-IsFree i s p (j ∷ places) attempt (differs, apart) ((t, here, unassigned), free) =
    ((t, attempt.others j differs ∙ here, unassigned), keep-IsFree i s p places attempt apart free)

-- For different places of tasks without an assignment, the number of assigned tasks grows by
-- exactly the number that is returned, whatever the algorithm answers.
pub assign_all-count :
    {M : Type 0} (algorithm : Algorithm M) (places : List ℕ) (s : Simulator) {p : ℕ × Simulator}
    → AreApart places
    → All (IsFree s.tasks) places
    → assign_all algorithm places s ≡ ok p
    → count_assigned p.1.tasks ≡ p.0 + count_assigned s.tasks
unfolding assign_all
assign_all-count algorithm [] s apart free h =
    subst (λ p. count_assigned p.1.tasks ≡ p.0 + count_assigned s.tasks) (ok-injective h)
      (omega arith)
assign_all-count algorithm (i ∷ places) s (differs, apart) ((t, here, unassigned), free) h =
    let (p, one, h') = >>=-eq-ok (assign_one algorithm i t s) _ (rw here at h) in
    let (q, others, whole) = >>=-eq-ok (assign_all algorithm places p.1) _ h' in
    let attempt = assign_one-IsAttempt algorithm i t s here unassigned one in
    let rest =
      assign_all-count algorithm places p.1 apart (keep-IsFree i s p places attempt differs free)
        others in
    subst (λ p. count_assigned p.1.tasks ≡ p.0 + count_assigned s.tasks) (ok-injective whole)
      (omega (arith, rest, attempt.counted))
