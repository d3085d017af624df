-- ===== src/Sched/Ring.antt =====
-- The tasks form one ring in the order of their creation, which a yield walks along.
use hypnos.Base.{
  ℕ, zero, suc, ◌+◌, ◌-◌, ◌%◌, ◌<◌, ◌≤◌, ◌≡◌, ◌≢◌, refl, ap, sym, ◌∙◌, List, [], ◌∷◌, ◌++◌, none,
  some, arith, ◌==◌, false, inl, inr, length, get_elem?, length-append, length-set,
  get_elem?-set_self, get_elem?-set_ne, get_elem?-append_left, Option-cases, get_elem?_of_lt,
  Option,
}
use native.Mathlib.Nat.{mod-eq_of_lt, mod_self}
use native.Mathlib.Decide.{dec_lt}
use hypnos.Sched.{
  Sched, Task, next_of, last_from, set_next, task_yield, CString, add_task, task_append, new_task,
  close_ring,
}

-- The first of `n` tasks.
abbrev pub first : ℕ → Option ℕ
first zero = none
first (suc n) = some 0

-- Task `i` is followed by `i + 1`, and the last by the first.
pub record IsRing (s : Sched) : Type 0 where
  pub head : s.task_head ≡ first (length s.tasks)
  pub inner : (i : ℕ) → i + 1 < length s.tasks → next_of s.tasks i ≡ some (i + 1)
  pub last : (i : ℕ) → i + 1 ≡ length s.tasks → next_of s.tasks i ≡ some 0

-- The loop finds the last task of the first `n`, and `n` rounds are enough.
last_from_lem :
    (fuel n p : ℕ) (ts : List Task)
    → ((i : ℕ) → i + 1 < n → next_of ts i ≡ some (i + 1))
    → ((i : ℕ) → i + 1 ≡ n → next_of ts i ≡ some 0)
    → p < n
    → n ≤ p + fuel
    → last_from fuel ts 0 p ≡ some (n - 1)
unfolding last_from
last_from_lem zero n p ts inner last lt le = absurd (omega arith)
last_from_lem (suc fuel) n p ts inner last lt le = elim (dec_lt (p + 1) n) [
  | yes q ↦
      let ne : (p + 1 == 0) ≡ false = ground arith in
      rw (last_from, inner p q, ne) (last_from_lem fuel n (p + 1) ts inner last q (omega arith))
  | no q ↦ let e : p + 1 ≡ n = omega arith in rw (last_from, last p e) (ap some (omega arith))
]

succ_mod : (i n : ℕ) → i + 1 < n → (i + 1) % n ≡ i + 1
succ_mod i n lt = mod-eq_of_lt lt

last_mod : (i n : ℕ) → i + 1 ≡ n → (i + 1) % n ≡ 0
last_mod i n e = ap (λ k. k % n) e ∙ mod_self n

next_mod :
    (s : Sched) (i : ℕ)
    → IsRing s
    → i < length s.tasks
    → next_of s.tasks i ≡ some ((i + 1) % length s.tasks)
next_mod s i v lt = elim (dec_lt (i + 1) (length s.tasks)) [
  | yes p ↦ v.inner i p ∙ ap some (sym (succ_mod i (length s.tasks) p))
  | no p ↦
      let e : i + 1 ≡ length s.tasks = omega arith in
      v.last i e ∙ ap some (sym (last_mod i (length s.tasks) e))
]

mod_ne : (i n : ℕ) → 1 < n → i < n → ((i + 1) % n == i) ≡ false
mod_ne i n many lt = elim (dec_lt (i + 1) n) [
  | yes p ↦ rw (succ_mod i n p) (ground arith)
  | no p ↦ rw (last_mod i n (omega arith)) (ground arith)
]

last_from-suc :
    (fuel k p : ℕ) (ts : List Task)
    → ((i : ℕ) → i + 1 < suc k → next_of ts i ≡ some (i + 1))
    → ((i : ℕ) → i + 1 ≡ suc k → next_of ts i ≡ some 0)
    → p < suc k
    → suc k ≤ p + fuel
    → last_from fuel ts 0 p ≡ some k
last_from-suc fuel k p ts inner last lt le =
    last_from_lem fuel (suc k) p ts inner last lt le ∙ ap some (omega arith)

-- In a ring of two tasks or more, a yield of the current task switches from it to the next of the ring,
-- the first after the last, and makes that one current.
pub task_yield-next :
    (s : Sched) (i : ℕ)
    → IsRing s
    → 1 < length s.tasks
    → i < length s.tasks
    → s.current ≡ some i
    → task_yield s
      ≡ (some (i, (i + 1) % length s.tasks), record s { current = some ((i + 1) % length s.tasks) })
unfolding task_yield
task_yield-next s i v many lt at =
    let n : next_of s.tasks i ≡ some ((i + 1) % length s.tasks) = next_mod s i v lt in
    let ne : ((i + 1) % length s.tasks == i) ≡ false = mod_ne i (length s.tasks) many lt in
    rw (task_yield, at, n, ne)

length-set_next : (ts : List Task) (i to : ℕ) → length (set_next ts i to) ≡ length ts
unfolding set_next
length-set_next ts i to = elim (Option-cases (get_elem? ts i)) [
  | inl e ↦ rw (set_next, e) refl
  | inr (t, e) ↦ rw (set_next, e) (length-set ts i (record t { next = some to }))
]

next_of-set_next_self :
    (ts : List Task) (i to : ℕ) → i < length ts → next_of (set_next ts i to) i ≡ some to
unfolding set_next
next_of-set_next_self ts i to lt =
    let (t, e) = get_elem?_of_lt ts i lt in
    rw (set_next, e, next_of, get_elem?-set_self ts i (record t { next = some to }) lt)

next_of-set_next_ne :
    (ts : List Task) (i j to : ℕ) → i ≢ j → next_of (set_next ts i to) j ≡ next_of ts j
unfolding set_next
next_of-set_next_ne ts i j to ne = elim (Option-cases (get_elem? ts i)) [
  | inl e ↦ rw (set_next, e) refl
  | inr (t, e) ↦ rw (set_next, e, next_of, get_elem?-set_ne ts i j (record t { next = some to }) ne)
]

next_of-append : (ts us : List Task) (i : ℕ) → i < length ts → next_of (ts ++ us) i ≡ next_of ts i
next_of-append ts us i lt = rw (next_of, get_elem?-append_left ts us i lt) refl

-- The ring with one more task behind the last.
module _ (ts : List Task) (k : ℕ) (t : Task) (size : length ts ≡ suc k) where
  longer : List Task
  longer = set_next (set_next (ts ++ (t ∷ [])) k (suc k)) (suc k) 0

  length-longer : length longer ≡ suc (suc k)
  unfolding longer
  length-longer =
      length-set_next (set_next (ts ++ (t ∷ [])) k (suc k)) (suc k) 0
      ∙ length-set_next (ts ++ (t ∷ [])) k (suc k)
      ∙ omega (arith, length-append ts (t ∷ []), size)

  longer-last : next_of longer (suc k) ≡ some 0
  unfolding longer
  longer-last =
      next_of-set_next_self (set_next (ts ++ (t ∷ [])) k (suc k)) (suc k) 0
        (omega (arith, length-set_next (ts ++ (t ∷ [])) k (suc k), length-append ts (t ∷ []), size))

  longer-joint : next_of longer k ≡ some (suc k)
  unfolding longer
  longer-joint =
      next_of-set_next_ne (set_next (ts ++ (t ∷ [])) k (suc k)) (suc k) k 0 (omega arith)
      ∙ next_of-set_next_self (ts ++ (t ∷ [])) k (suc k)
          (omega (arith, length-append ts (t ∷ []), size))

  longer-inner : (i : ℕ) → i < k → next_of longer i ≡ next_of ts i
  unfolding longer
  longer-inner i lt =
      next_of-set_next_ne (set_next (ts ++ (t ∷ [])) k (suc k)) (suc k) i 0 (omega arith)
      ∙ next_of-set_next_ne (ts ++ (t ∷ [])) k i (suc k) (omega arith)
      ∙ next_of-append ts (t ∷ []) i (omega (arith, size))

-- What adding a task leaves: a ring with one more task.
pub Longer : ℕ → Option Sched → Type 0
Longer n o = (s' : Sched) × (o ≡ some s') × (length s'.tasks ≡ suc n) × IsRing s'

add_first :
    (entry : ℕ) (name : CString) (stack : ℕ) (s : Sched)
    → s.tasks ≡ []
    → IsRing s
    → Longer 0 (add_task entry name stack s)
unfolding add_task task_append set_next Longer
add_first entry name stack s e v =
    let t : Task = new_task entry name stack s.next_id in
    let h : s.task_head ≡ none = v.head ∙ ap (λ ts. first (length ts)) e in
    (
      record {
        tasks = record t { next = some 0 } ∷ [];
        current = s.current;
        task_head = some 0;
        next_id = s.next_id + 1;
      },
      rw (add_task, task_append, h, e) refl,
      refl,
      record {
        head = refl;
        inner = λ i lt. absurd (omega arith);
        last = λ i eq. let z : i ≡ 0 = omega arith in rw z refl;
      },
    )

add_next :
    (entry : ℕ) (name : CString) (stack : ℕ) (s : Sched) (k : ℕ)
    → length s.tasks ≡ suc k
    → IsRing s
    → Longer (suc k) (add_task entry name stack s)
unfolding add_task task_append close_ring longer Longer
add_next entry name stack s k e v =
    let t : Task = new_task entry name stack s.next_id in
    let h : s.task_head ≡ some 0 = v.head ∙ ap first e in
    let found : last_from (length (s.tasks ++ (t ∷ []))) (s.tasks ++ (t ∷ [])) 0 0 ≡ some k =
      last_from-suc (length (s.tasks ++ (t ∷ []))) k 0 (s.tasks ++ (t ∷ []))
        (λ i lt.
          next_of-append s.tasks (t ∷ []) i (omega (arith, e)) ∙ v.inner i (omega (arith, e)))
        (λ i eq. next_of-append s.tasks (t ∷ []) i (omega (arith, e)) ∙ v.last i (omega (arith, e)))
        (omega arith) (omega (arith, e, length-append s.tasks (t ∷ []))) in
    (
      record s { tasks = longer s.tasks k t e; next_id = s.next_id + 1 },
      rw (add_task, task_append, h, found, e, longer)
          (ap some (
            ap
              (λ x. record s {
                tasks = set_next (set_next (s.tasks ++ (t ∷ [])) k (suc k)) (suc k) 0;
                task_head = x;
                next_id = s.next_id + 1;
              })
              h)),
      length-longer s.tasks k t e,
      record {
        head = h ∙ ap first (sym (length-longer s.tasks k t e));
        inner = λ i lt. elim (dec_lt i k) [
          | yes p ↦ longer-inner s.tasks k t e i p ∙ v.inner i (omega (arith, e))
          | no p ↦
              let same : i ≡ k = omega (arith, length-longer s.tasks k t e) in
              rw same (longer-joint s.tasks k t e ∙ ap some (omega arith))
        ];
        last = λ i eq.
            let same : i ≡ suc k = omega (arith, length-longer s.tasks k t e) in
            rw same (longer-last s.tasks k t e);
      },
    )

add_by :
    (entry : ℕ) (name : CString) (stack : ℕ) (s : Sched) (ts : List Task)
    → s.tasks ≡ ts
    → IsRing s
    → Longer (length ts) (add_task entry name stack s)
add_by entry name stack s [] e v = add_first entry name stack s e v
add_by entry name stack s (a ∷ ts) e v = add_next entry name stack s (length ts) (ap length e) v

-- Adding a task to a ring always returns, never looping without end, and leaves a ring with one more
-- task, in which the new task follows the last and the first follows it.
pub add_task-IsRing :
    (entry : ℕ) (name : CString) (stack : ℕ) (s : Sched)
    → IsRing s
    → Longer (length s.tasks) (add_task entry name stack s)
add_task-IsRing entry name stack s v = add_by entry name stack s s.tasks refl v
