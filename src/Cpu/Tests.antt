-- ===== src/Cpu/Tests.antt =====
-- Four CPUs: tasks are counted on the first two, and the process may run on the first, which shares a
-- core with the second.
use coresight_trace.Base.{
  ℕ, zero, suc, sym, ap, ◌∙◌, ◌||◌, ◌↔◌, or_false, ◌<◌, ◌≡◌, refl, Bool, true, false, Option, none,
  some, List, [], ◌∷◌, ◌==◌, ==_iff, arith,
}
use coresight_trace.Cpu.Choice.{
  Task, vm_size, cpus_allowed_list, other_line, first_unset, task_cpu, find_free_cpu, collect_cores,
  get_preferred_cpu,
}
use coresight_trace.Cpu.Free.{IsFirst, any_on_cpu, find_free_cpu-IsFirst}
use coresight_trace.Cpu.Preferred.{
  lists, in_group, shared_with, Readable, get_preferred_cpu-IsFirst, get_preferred_cpu-outside,
}

abbrev processes : List (List Task)
processes =
    (some (vm_size ∷ cpus_allowed_list (some 1) ∷ []) ∷ none ∷ [])
    ∷ (some (other_line ∷ cpus_allowed_list (some 2) ∷ vm_size ∷ []) ∷ [])
    ∷ (some (vm_size ∷ cpus_allowed_list none ∷ [])
        ∷ some (vm_size ∷ cpus_allowed_list (some 0) ∷ [])
        ∷ [])
    ∷ []

find_free_cpu-IsFirst_example :
    IsFirst (λ i. any_on_cpu i processes) 0 4 (find_free_cpu 4 (some processes))
find_free_cpu-IsFirst_example = find_free_cpu-IsFirst 4 processes (omega arith) (omega arith)

find_free_cpu_run : find_free_cpu 4 (some processes) ≡ some 2
unfolding find_free_cpu first_unset
find_free_cpu_run = refl

abbrev pair : ℕ → Option (List ℕ)
pair zero = some (0 ∷ 1 ∷ [])
pair (suc k) = some (suc k ∷ [])

abbrev first_only : ℕ → Bool
first_only k = k == 0

pair-Readable : Readable pair first_only 0 4
pair-Readable zero lo hi on = (0 ∷ 1 ∷ [], refl)
pair-Readable (suc k) lo hi on = absurd (ground arith)

pair-own : (k : ℕ) (cs : List ℕ) → pair k ≡ some cs → lists k cs ≡ true
pair-own zero cs e = ap (λ o. in_group o 0) (sym e)
pair-own (suc k) cs e = ap (λ o. in_group o (suc k)) (sym e) ∙ own (==_iff (suc k) (suc k))
  where
    own : ((suc k == suc k) ≡ true) ↔ (suc k ≡ suc k) → ((suc k == suc k) || false) ≡ true
    own iff = or_false (suc k == suc k) ∙ iff.1 refl

get_preferred_cpu-IsFirst_example :
    IsFirst (shared_with pair first_only 4 0) 0 4 (get_preferred_cpu 4 pair (some first_only))
get_preferred_cpu-IsFirst_example = get_preferred_cpu-IsFirst 4 pair first_only pair-Readable

get_preferred_cpu-outside_example : (2 < 4) × (first_only 2 ≡ false)
unfolding get_preferred_cpu collect_cores first_unset
get_preferred_cpu-outside_example =
    get_preferred_cpu-outside 4 pair first_only 2 pair-Readable pair-own refl

abbrev pinned : Task
pinned = some (other_line ∷ vm_size ∷ cpus_allowed_list none ∷ cpus_allowed_list (some 3) ∷ [])

pinned_counts : task_cpu pinned ≡ some 3
pinned_counts = refl
