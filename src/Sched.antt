-- ===== src/Sched.antt =====
-- kernel/sched/task.c: the tasks, in a circular list. A task's pointer is its index in the order of
-- creation. `switch_task` and `start_task` are assembler: a yield gives the two tasks of the switch.
-- The messages are left out.
pub mod Ring
mod Tests
use hypnos.Base.{
  ℕ, zero, suc, ◌+◌, ◌%◌, ◌^◌, Option, none, some, List, [], ◌∷◌, ◌++◌, ◌==◌, if◌then◌else◌,
  get_elem?, set, length,
}
use hypnos.CStr.{CString}
use hypnos.Mm.Kmalloc.{Kheap, kmalloc}

-- `cpu_state_t`
pub record CpuState : Type 0 where
  pub eax : ℕ
  pub ebx : ℕ
  pub ecx : ℕ
  pub edx : ℕ
  pub esi : ℕ
  pub edi : ℕ
  pub ebp : ℕ
  pub esp : ℕ
  pub eip : ℕ
  pub eflags : ℕ
  pub cs : ℕ
  pub ds : ℕ
  pub es : ℕ
  pub fs : ℕ
  pub gs : ℕ
  pub ss : ℕ

-- `task_t`
pub record Task : Type 0 where
  pub regs : CpuState
  pub stack_base : ℕ
  pub stack_size : ℕ
  pub next : Option ℕ
  pub name : CString
  pub id : ℕ

-- The tasks of the heap, and the three variables.
pub record Sched : Type 0 where
  pub tasks : List Task
  pub current : Option ℕ
  pub task_head : Option ℕ
  pub next_id : ℕ

-- `task_init`, which forgets the tasks.
unfoldable pub task_init : Sched
task_init = record { tasks = []; current = none; task_head = none; next_id = 1 }

abbrev pub next_of : List Task → ℕ → Option ℕ
next_of ts i = elim (get_elem? ts i) [ none ↦ none | some t ↦ t.next ]

-- p->next = to
unfoldable pub set_next : List Task → ℕ → ℕ → List Task
set_next ts i to = elim (get_elem? ts i) [
  | none ↦ ts
  | some t ↦ set ts i (record t { next = some to })
]

-- The loop of `task_append`: the task whose successor is the head. A null pointer or the end of the
-- fuel gives `none`.
unfoldable pub last_from : ℕ → List Task → ℕ → ℕ → Option ℕ
last_from zero ts head p = none
last_from (suc fuel) ts head p = elim (next_of ts p) [
  | none ↦ none
  | some n ↦ if n == head then some p else last_from fuel ts head n
]

close_ring : Sched → ℕ → ℕ → Option ℕ → Option Sched
unfolding set_next
close_ring s t head none = none
close_ring s t head (some p) = some (record s { tasks = set_next (set_next s.tasks p t) t head })

-- `task_append`; `none` when its loop does not return.
unfoldable pub task_append : ℕ → Sched → Option Sched
unfolding set_next last_from close_ring
task_append t s = elim s.task_head [
  | none ↦ some (record s { task_head = some t; tasks = set_next s.tasks t t })
  | some head ↦ close_ring s t head (last_from (length s.tasks) s.tasks head head)
]

-- The registers of a new task.
abbrev pub new_regs : ℕ → ℕ → CpuState
new_regs entry top = record {
  eax = 0;
  ebx = 0;
  ecx = 0;
  edx = 0;
  esi = 0;
  edi = 0;
  ebp = top;
  esp = top;
  eip = entry;
  eflags = 0x202;
  cs = 0x08;
  ds = 0x10;
  es = 0x10;
  fs = 0x10;
  gs = 0x10;
  ss = 0x10;
}

abbrev pub stack_bytes : ℕ
stack_bytes = 4096

-- sizeof(task_t) on i386
abbrev pub sizeof_task : ℕ
sizeof_task = 84

-- The task that `task_create` fills in.
abbrev pub new_task : ℕ → CString → ℕ → ℕ → Task
new_task entry name stack id = record {
  regs = new_regs entry ((stack + stack_bytes) % 2 ^ 32);
  stack_base = stack;
  stack_size = stack_bytes;
  next = none;
  name = name;
  id = id;
}

-- The part of `task_create` once both requests were met.
unfoldable pub add_task : ℕ → CString → ℕ → Sched → Option Sched
unfolding task_append
add_task entry name stack s = task_append (length s.tasks) (record s {
  tasks = s.tasks ++ (new_task entry name stack s.next_id ∷ []);
  next_id = s.next_id + 1;
})

created : ℕ → Sched → Option Sched → Option (Option ℕ × Sched)
created t s none = none
created t s (some s') = some (some t, s')

with_stack : ℕ → CString → Sched → Option ℕ × Kheap → Option (Option ℕ × Sched) × Kheap
unfolding created add_task
with_stack entry name s (none, h) = (some (none, s), h)
with_stack entry name s (some stack, h) =
    (created (length s.tasks) s (add_task entry name stack s), h)

with_task : ℕ → CString → Sched → Option ℕ × Kheap → Option (Option ℕ × Sched) × Kheap
unfolding with_stack
with_task entry name s (none, h) = (some (none, s), h)
with_task entry name s (some t, h) = with_stack entry name s (kmalloc stack_bytes h)

-- `task_create`: the task or the null pointer, and `none` when the loop does not return.
unfoldable pub task_create : ℕ → CString → Sched → Kheap → Option (Option ℕ × Sched) × Kheap
unfolding with_task
task_create entry name s h = with_task entry name s (kmalloc sizeof_task h)

-- `task_yield`: the switch that it makes, from one task to another.
unfoldable pub task_yield : Sched → Option (ℕ × ℕ) × Sched
task_yield s = elim s.current [
  | none ↦ (none, s)
  | some old ↦ elim (next_of s.tasks old) [
    | none ↦ (none, s)
    | some new ↦
        if new == old then (none, s) else (some (old, new), record s { current = some new })
  ]
]

-- `scheduler_start`: the task that it starts, `none` when it halts.
unfoldable pub scheduler_start : Sched → Option ℕ × Sched
scheduler_start s =
    (s.task_head, record s { current = elim s.task_head [ none ↦ s.current | some t ↦ some t ] })
