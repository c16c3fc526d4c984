-- ===== src/Cpu/Preferred.antt =====
-- The CPU that get_preferred_cpu prefers.
use coresight_trace.Base.{
  ℕ, zero, suc, ◌+◌, ◌≤◌, ◌<◌, ◌≡◌, refl, ap, ◌∙◌, Bool, true, false, ◌&&◌, ◌||◌, Option, none,
  some, List, [], ◌∷◌, ◌==◌, ==_iff, or_swap, or_false, Bool-cases, inl, inr, arith,
}
use mathlib.Core.Path.{subst}
use coresight_trace.Cpu.Choice.{add_cpus, collect_cores, first_unset, get_preferred_cpu}
use coresight_trace.Cpu.Free.{IsFirst, IsFirst-same, first_unset-IsFirst}

-- Whether the list has the CPU.
abbrev pub lists : ℕ → List ℕ → Bool
lists i [] = false
lists i (c ∷ cs) = (i == c) || lists i cs

abbrev pub in_group : Option (List ℕ) → ℕ → Bool
in_group none i = false
in_group (some cs) i = lists i cs

-- Whether the CPU is in the group of one of those the process may run on, from i on with n left.
abbrev pub shared_with : (ℕ → Option (List ℕ)) → (ℕ → Bool) → ℕ → ℕ → ℕ → Bool
shared_with core_cpus_list cpu_set zero i k = false
shared_with core_cpus_list cpu_set (suc n) i k =
    (cpu_set i && in_group (core_cpus_list i) k) || shared_with core_cpus_list cpu_set n (i + 1) k

add_cpus-at : (cs : List ℕ) (set : ℕ → Bool) (k : ℕ) → add_cpus cs set k ≡ (lists k cs || set k)
add_cpus-at [] set k = refl
add_cpus-at (c ∷ cs) set k =
    add_cpus-at cs (λ i. (i == c) || set i) k ∙ or_swap (k == c) (lists k cs) (set k)

-- Every CPU that the process may run on has a group that can be read.
abbrev pub Readable : (ℕ → Option (List ℕ)) → (ℕ → Bool) → ℕ → ℕ → Type 0
Readable core_cpus_list cpu_set i n =
    (k : ℕ) → i ≤ k → k < i + n → cpu_set k ≡ true → (cs : List ℕ) × (core_cpus_list k ≡ some cs)

Readable-next :
    (list : ℕ → Option (List ℕ)) (cpu_set : ℕ → Bool) (i n : ℕ)
    → Readable list cpu_set i (suc n)
    → Readable list cpu_set (i + 1) n
Readable-next list cpu_set i n h k lo hi on = h k (omega arith) (omega arith) on

collect_cores-at :
    (list : ℕ → Option (List ℕ)) (cpu_set : ℕ → Bool) (n i : ℕ) (set : ℕ → Bool)
    → Readable list cpu_set i n
    → (out : ℕ → Bool) × (collect_cores list cpu_set n i set ≡ some out)
      × ((k : ℕ) → out k ≡ (shared_with list cpu_set n i k || set k))
unfolding collect_cores
collect_cores-at list cpu_set zero i set h = (set, refl, λ k. refl)
collect_cores-at list cpu_set (suc n) i set h = elim (Bool-cases (cpu_set i)) [
  | inl on ↦
      let (cs, group) = h i (omega arith) (omega arith) on in
      let (out, done, at) =
        collect_cores-at list cpu_set n (i + 1) (add_cpus cs set)
          (Readable-next list cpu_set i n h) in
      rw (on, group)
        (
          out,
          done,
          λ k.
              at k
              ∙ ap (λ b. shared_with list cpu_set n (i + 1) k || b) (add_cpus-at cs set k)
              ∙ or_swap (lists k cs) (shared_with list cpu_set n (i + 1) k) (set k),
        )
  | inr off ↦
      rw off (collect_cores-at list cpu_set n (i + 1) set (Readable-next list cpu_set i n h))
]

-- If each CPU that the process may run on has a readable group, the CPU preferred is the lowest one in
-- none of those groups, and none is preferred only if each CPU is in one.
pub get_preferred_cpu-IsFirst :
    (nprocs : ℕ) (core_cpus_list : ℕ → Option (List ℕ)) (cpu_set : ℕ → Bool)
    → Readable core_cpus_list cpu_set 0 nprocs
    → IsFirst
        (shared_with core_cpus_list cpu_set nprocs 0)
        0
        nprocs
        (get_preferred_cpu nprocs core_cpus_list (some cpu_set))
unfolding get_preferred_cpu
get_preferred_cpu-IsFirst nprocs list cpu_set h =
    let (out, done, at) = collect_cores-at list cpu_set nprocs 0 (λ i. false) h in
    rw done (
      IsFirst-same out (shared_with list cpu_set nprocs 0)
        (λ k. at k ∙ or_false (shared_with list cpu_set nprocs 0 k)) 0 nprocs
        (first_unset nprocs 0 out) (first_unset-IsFirst nprocs 0 out))

shared_with-own :
    (list : ℕ → Option (List ℕ)) (cpu_set : ℕ → Bool) (n i c : ℕ)
    → i ≤ c
    → c < i + n
    → cpu_set c ≡ true
    → in_group (list c) c ≡ true
    → shared_with list cpu_set n i c ≡ true
shared_with-own list cpu_set zero i c lo hi on own = absurd (omega arith)
shared_with-own list cpu_set (suc n) i c lo hi on own = elim (Bool-cases (i == c)) [
  | inl e ↦ rw ((==_iff i c).0 e, on, own) refl
  | inr e ↦
      let rest : shared_with list cpu_set n (i + 1) c ≡ true =
        shared_with-own list cpu_set n (i + 1) c (ground arith) (omega arith) on own in
      ground arith
]

abbrev from_some : ℕ → Option ℕ → ℕ
from_some d none = d
from_some d (some c) = c

chosen_free :
    (set : ℕ → Bool) (n : ℕ) (o : Option ℕ) (c : ℕ)
    → IsFirst set 0 n o
    → o ≡ some c
    → (c < n) × (set c ≡ false)
chosen_free set n none c first e = cc
chosen_free set n (some d) c (lo, hi, free, below) e =
    let online : d < n = omega arith in
    subst (λ k. (k < n) × (set k ≡ false)) (ap (from_some d) e) (online, free)

-- If each group that can be read has its own CPU in it, and those of the CPUs the process may run on can
-- be read, the CPU preferred is an online one that the process may not run on.
pub get_preferred_cpu-outside :
    (nprocs : ℕ) (core_cpus_list : ℕ → Option (List ℕ)) (cpu_set : ℕ → Bool) (c : ℕ)
    → Readable core_cpus_list cpu_set 0 nprocs
    → ((k : ℕ) (cs : List ℕ) → core_cpus_list k ≡ some cs → lists k cs ≡ true)
    → get_preferred_cpu nprocs core_cpus_list (some cpu_set) ≡ some c
    → (c < nprocs) × (cpu_set c ≡ false)
get_preferred_cpu-outside nprocs list cpu_set c h own e =
    let (online, free) =
      chosen_free (shared_with list cpu_set nprocs 0) nprocs
        (get_preferred_cpu nprocs list (some cpu_set)) c
        (get_preferred_cpu-IsFirst nprocs list cpu_set h) e in
    (
      online,
      elim (Bool-cases (cpu_set c)) [
        | inr off ↦ off
        | inl on ↦
            let (cs, group) = h c (omega arith) (omega arith) on in
            let mine : in_group (list c) c ≡ true = ap (λ o. in_group o c) group ∙ own c cs group in
            let shared =
              shared_with-own list cpu_set nprocs 0 c (omega arith) (omega arith) on mine in
            cc
      ],
    )
