-- ===== src/Cpu/Choice.antt =====
-- `find_free_cpu` and `get_preferred_cpu` of src/utils.c. What the files of procfs and sysfs hold is an
-- argument, read as the C library's calls read it; a result of -1 is `none`.
use coresight_trace.Base.{
  ℕ, zero, suc, ◌+◌, Bool, true, false, ◌&&◌, ◌||◌, Option, none, some, List, [], ◌∷◌, ltb, ◌==◌,
  if◌then◌else◌,
}

-- A line of /proc/PID/task/TID/status. The list of allowed CPUs is a number when it has neither a
-- dash nor a comma and `sscanf` reads one.
pub data StatusLine : Type 0 where
  vm_size : StatusLine
  cpus_allowed_list : Option ℕ → StatusLine
  other_line : StatusLine

-- A status file, if it opens.
abbrev pub Task : Type 0
Task = Option (List StatusLine)

abbrev pub max_cpus : ℕ
max_cpus = 4096

-- The CPU that the task is counted on.
abbrev pub status_cpu : Bool → List StatusLine → Option ℕ
status_cpu has_vmsize [] = none
status_cpu has_vmsize (vm_size ∷ ls) = status_cpu true ls
status_cpu has_vmsize (other_line ∷ ls) = status_cpu has_vmsize ls
status_cpu has_vmsize (cpus_allowed_list none ∷ ls) = status_cpu has_vmsize ls
status_cpu has_vmsize (cpus_allowed_list (some hval) ∷ ls) =
    let rest = status_cpu has_vmsize ls in
    if ltb hval max_cpus && has_vmsize then some hval else rest

abbrev pub task_cpu : Task → Option ℕ
task_cpu none = none
task_cpu (some ls) = status_cpu false ls

abbrev pub set_used : Option ℕ → (ℕ → Bool) → ℕ → Bool
set_used none cpu_used i = cpu_used i
set_used (some hval) cpu_used i = (i == hval) || cpu_used i

-- The loops over the processes and their tasks.
abbrev pub mark_tasks : List Task → (ℕ → Bool) → ℕ → Bool
mark_tasks [] cpu_used = cpu_used
mark_tasks (t ∷ ts) cpu_used = mark_tasks ts (set_used (task_cpu t) cpu_used)

abbrev pub mark_processes : List (List Task) → (ℕ → Bool) → ℕ → Bool
mark_processes [] cpu_used = cpu_used
mark_processes (ts ∷ ps) cpu_used = mark_processes ps (mark_tasks ts cpu_used)

-- The first CPU from i on that is not in the set, with n CPUs left.
unfoldable pub first_unset : ℕ → ℕ → (ℕ → Bool) → Option ℕ
first_unset zero i set = none
first_unset (suc n) i set = let rest = first_unset n (i + 1) set in if set i then rest else some i

abbrev pub scan : ℕ → Option (List (List Task)) → Option ℕ
scan nprocs none = none
scan nprocs (some ps) = first_unset nprocs 0 (mark_processes ps (λ i. false))

-- The processes are `none` when /proc does not open.
unfoldable pub find_free_cpu : ℕ → Option (List (List Task)) → Option ℕ
find_free_cpu nprocs proc = if ltb nprocs 2 then some 0 else scan nprocs proc

-- `set_core_cpus`: what core_cpus_list names is added to the set, unless it fails.
abbrev pub add_cpus : List ℕ → (ℕ → Bool) → ℕ → Bool
add_cpus [] set = set
add_cpus (core_cpu ∷ cs) set = add_cpus cs (λ i. (i == core_cpu) || set i)

abbrev pub set_core_cpus : Option (List ℕ) → (ℕ → Bool) → Option (ℕ → Bool)
set_core_cpus none set = none
set_core_cpus (some cs) set = some (add_cpus cs set)

-- The loop over the CPUs that the process may run on, from i on with n left.
abbrev pub and_then_cpus : Option (ℕ → Bool) → ((ℕ → Bool) → Option (ℕ → Bool)) → Option (ℕ → Bool)
and_then_cpus none next = none
and_then_cpus (some set) next = next set

unfoldable pub collect_cores :
    (ℕ → Option (List ℕ)) → (ℕ → Bool) → ℕ → ℕ → (ℕ → Bool) → Option (ℕ → Bool)
collect_cores core_cpus_list cpu_set zero i set = some set
collect_cores core_cpus_list cpu_set (suc n) i set =
    and_then_cpus (if cpu_set i then set_core_cpus (core_cpus_list i) set else some set)
      (collect_cores core_cpus_list cpu_set n (i + 1))

abbrev pub prefer : ℕ → Option (ℕ → Bool) → Option ℕ
prefer nprocs none = none
prefer nprocs (some core_cpu_set) = first_unset nprocs 0 core_cpu_set

-- The affinity is `none` when it, or an allocation, fails.
unfoldable pub get_preferred_cpu : ℕ → (ℕ → Option (List ℕ)) → Option (ℕ → Bool) → Option ℕ
get_preferred_cpu nprocs core_cpus_list none = none
get_preferred_cpu nprocs core_cpus_list (some cpu_set) =
    prefer nprocs (collect_cores core_cpus_list cpu_set nprocs 0 (λ i. false))
