-- ===== src/Sched/Tests.antt =====
-- The theorems on the tasks at the empty ring and at a ring of two.
use hypnos.Base.{ℕ, ◌+◌, ◌%◌, ◌≡◌, refl, some, none, [], ◌∷◌, arith}
use hypnos.Sched.{Sched, Task, new_task, add_task, task_yield}
use hypnos.Sched.Ring.{IsRing, Longer, add_task-IsRing, task_yield-next}

abbrev no_tasks : Sched
no_tasks = record { tasks = []; current = none; task_head = none; next_id = 1 }

no_tasks-IsRing : IsRing no_tasks
no_tasks-IsRing = record {
  head = refl;
  inner = λ i lt. absurd (omega arith);
  last = λ i e. absurd (omega arith);
}

abbrev task_of : ℕ → ℕ → Task
task_of id to = record (new_task 0x100000 [] 0x1000000 id) { next = some to }

abbrev two_tasks : Sched
two_tasks = record {
  tasks = task_of 1 1 ∷ task_of 2 0 ∷ [];
  current = some 1;
  task_head = some 0;
  next_id = 3;
}

two_tasks-IsRing : IsRing two_tasks
two_tasks-IsRing = record {
  head = refl;
  inner = λ i lt. let z : i ≡ 0 = omega arith in rw z refl;
  last = λ i e. let z : i ≡ 1 = omega arith in rw z refl;
}

add_task-IsRing_example : Longer 0 (add_task 0x100000 [] 0x1000000 no_tasks)
add_task-IsRing_example = add_task-IsRing 0x100000 [] 0x1000000 no_tasks no_tasks-IsRing

task_yield-next_example :
    task_yield two_tasks
    ≡ (some (1, (1 + 1) % 2), record two_tasks { current = some ((1 + 1) % 2) })
task_yield-next_example =
    task_yield-next two_tasks 1 two_tasks-IsRing (omega arith) (omega arith) refl
