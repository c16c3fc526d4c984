-- ===== src/Cpu/Free.antt =====
-- The CPU that find_free_cpu finds.
use coresight_trace.Base.{
  ℕ, zero, suc, ◌+◌, ◌≤◌, ◌<◌, ◌≡◌, refl, ap, sym, ◌∙◌, Bool, true, false, ◌||◌, Option, none, some,
  List, [], ◌∷◌, ltb, ◌==◌, ==_iff, or_swap, or_false, Bool-cases, inl, inr, arith,
}
use coresight_trace.Cpu.Choice.{
  Task, StatusLine, vm_size, cpus_allowed_list, other_line, max_cpus, status_cpu, task_cpu,
  set_used, mark_tasks, mark_processes, first_unset, find_free_cpu,
}

-- What a search for a CPU outside a set should return, among the n from i on.
abbrev pub IsFirst : (ℕ → Bool) → ℕ → ℕ → Option ℕ → Type 0
IsFirst set i n none = (k : ℕ) → i ≤ k → k < i + n → set k ≡ true
IsFirst set i n (some c) =
    (i ≤ c) × (c < i + n) × (set c ≡ false) × ((k : ℕ) → i ≤ k → k < c → set k ≡ true)

at_or_after :
    (set : ℕ → Bool) (i k : ℕ) → set i ≡ true → i ≤ k → (i + 1 ≤ k → set k ≡ true) → set k ≡ true
at_or_after set i k here lo after = elim (Bool-cases (i == k)) [
  | inl e ↦ ap set (sym ((==_iff i k).0 e)) ∙ here
  | inr e ↦ after (ground arith)
]

IsFirst-later :
    (set : ℕ → Bool) (i n : ℕ) (rest : Option ℕ)
    → set i ≡ true
    → IsFirst set (i + 1) n rest
    → IsFirst set i (suc n) rest
IsFirst-later set i n none here later =
    λ k lo hi. at_or_after set i k here lo (λ after. later k after (omega arith))
IsFirst-later set i n (some c) here (lo, hi, free, below) = (
  omega arith,
  omega arith,
  free,
  λ k from to. at_or_after set i k here from (λ after. below k after to),
)

pub first_unset-IsFirst : (n i : ℕ) (set : ℕ → Bool) → IsFirst set i n (first_unset n i set)
unfolding first_unset
first_unset-IsFirst zero i set = λ k lo hi. absurd (omega arith)
first_unset-IsFirst (suc n) i set = elim (Bool-cases (set i)) [
  | inl here ↦
      rw here
        (IsFirst-later set i n (first_unset n (i + 1) set) here (first_unset-IsFirst n (i + 1) set))
  | inr here ↦ rw here (omega arith, omega arith, here, λ k lo hi. absurd (omega arith))
]

-- Whether a task is counted on the CPU.
abbrev pub holds : ℕ → Option ℕ → Bool
holds i none = false
holds i (some hval) = i == hval

abbrev pub on_cpu : ℕ → List Task → Bool
on_cpu i [] = false
on_cpu i (t ∷ ts) = holds i (task_cpu t) || on_cpu i ts

abbrev pub any_on_cpu : ℕ → List (List Task) → Bool
any_on_cpu i [] = false
any_on_cpu i (ts ∷ ps) = on_cpu i ts || any_on_cpu i ps

set_used-at : (o : Option ℕ) (used : ℕ → Bool) (i : ℕ) → set_used o used i ≡ (holds i o || used i)
set_used-at none used i = refl
set_used-at (some hval) used i = refl

mark_tasks-at :
    (ts : List Task) (used : ℕ → Bool) (i : ℕ) → mark_tasks ts used i ≡ (on_cpu i ts || used i)
mark_tasks-at [] used i = refl
mark_tasks-at (t ∷ ts) used i =
    mark_tasks-at ts (set_used (task_cpu t) used) i
    ∙ ap (λ b. on_cpu i ts || b) (set_used-at (task_cpu t) used i)
    ∙ or_swap (holds i (task_cpu t)) (on_cpu i ts) (used i)

pub mark_processes-at :
    (ps : List (List Task)) (used : ℕ → Bool) (i : ℕ)
    → mark_processes ps used i ≡ (any_on_cpu i ps || used i)
mark_processes-at [] used i = refl
mark_processes-at (ts ∷ ps) used i =
    mark_processes-at ps (mark_tasks ts used) i
    ∙ ap (λ b. any_on_cpu i ps || b) (mark_tasks-at ts used i)
    ∙ or_swap (on_cpu i ts) (any_on_cpu i ps) (used i)

pub IsFirst-same :
    (f g : ℕ → Bool)
    → ((k : ℕ) → f k ≡ g k)
    → (i n : ℕ) (o : Option ℕ) → IsFirst f i n o
    → IsFirst g i n o
IsFirst-same f g same i n none first = λ k lo hi. sym (same k) ∙ first k lo hi
IsFirst-same f g same i n (some c) (lo, hi, free, below) =
    (lo, hi, sym (same c) ∙ free, λ k from to. sym (same k) ∙ below k from to)

-- With two CPUs or more, and no more than the array of used CPUs has entries, the CPU found is the lowest one that no task is counted on, and none is found
-- only if some task is counted on each.
pub find_free_cpu-IsFirst :
    (nprocs : ℕ) (ps : List (List Task))
    → 2 ≤ nprocs
    → nprocs ≤ max_cpus
    → IsFirst (λ i. any_on_cpu i ps) 0 nprocs (find_free_cpu nprocs (some ps))
unfolding find_free_cpu
find_free_cpu-IsFirst nprocs ps many fit =
    let all : ltb nprocs 2 ≡ false = ground arith in
    rw all (
      IsFirst-same (mark_processes ps (λ i. false)) (λ i. any_on_cpu i ps)
        (λ k. mark_processes-at ps (λ i. false) k ∙ or_false (any_on_cpu k ps)) 0 nprocs
        (first_unset nprocs 0 (mark_processes ps (λ i. false)))
        (first_unset-IsFirst nprocs 0 (mark_processes ps (λ i. false))))

-- Whether a status has a line with the size of the memory.
abbrev pub has_size : List StatusLine → Bool
has_size [] = false
has_size (vm_size ∷ ls) = true
has_size (other_line ∷ ls) = has_size ls
has_size (cpus_allowed_list o ∷ ls) = has_size ls

abbrev pub is_process : Task → Bool
is_process none = false
is_process (some ls) = has_size ls

status_cpu-bounds :
    (vm : Bool) (ls : List StatusLine) (c : ℕ)
    → status_cpu vm ls ≡ some c
    → (c < max_cpus) × ((vm || has_size ls) ≡ true)
status_cpu-bounds vm [] c e = cc
status_cpu-bounds vm (vm_size ∷ ls) c e = let rest = status_cpu-bounds true ls c e in ground arith
status_cpu-bounds vm (other_line ∷ ls) c e = status_cpu-bounds vm ls c e
status_cpu-bounds vm (cpus_allowed_list none ∷ ls) c e = status_cpu-bounds vm ls c e
status_cpu-bounds vm (cpus_allowed_list (some h) ∷ ls) c e =
    let rest = status_cpu-bounds vm ls c in ground arith

-- A task is counted only on a CPU that the array of used CPUs has an entry for, and only if its status
-- has the size of its memory, which a kernel thread's has not.
task_cpu-bounds : (t : Task) (c : ℕ) → task_cpu t ≡ some c → (c < max_cpus) × (is_process t ≡ true)
task_cpu-bounds none c e = cc
task_cpu-bounds (some ls) c e = status_cpu-bounds false ls c e
