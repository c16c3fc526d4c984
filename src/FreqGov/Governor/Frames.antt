-- ===== src/FreqGov/Governor/Frames.antt =====
-- What each operation of the governor leaves as it is, and what `freq_gov_apply` comes down to.
use coresight_trace.Base.{
  ℕ, ◌≤◌, ◌<◌, ◌≡◌, refl, ◌∙◌, inl, inr, Bool, true, false, All, All-map, get_or, ◌==◌,
  if◌then◌else◌, Bool-cases, arith,
}
use coresight_trace.FreqGov.Table.{read_available_frequencies}
use coresight_trace.FreqGov.Table.Contents.{read_available_frequencies_bounds}
use coresight_trace.FreqGov.Governor.{
  FreqMode, atom, addr, Governor, stats, freq_table_num, set_freq, freq_gov_apply,
  freq_gov_restore_max, freq_gov_force_min, adapt_interval, freq_gov_on_result, freq_gov_copy_start,
}
use coresight_trace.FreqGov.Governor.Valid.{IsValid}
use coresight_trace.FreqGov.Governor.Ramp.{set_cur_idx}
use coresight_trace.FreqGov.Governor.Init.{Found, freq_gov_init}

-- What init fixes: the governor is on, and its frequencies lie within the hardware bounds.
pub record Fixed (g : Governor) : Type 0 where
  pub enabled : g.g_enabled ≡ true
  pub positive : 0 < g.system_min_cpufreq
  pub bounds : g.system_min_cpufreq ≤ g.system_max_cpufreq
  pub table : All (λ f. g.system_min_cpufreq ≤ f) g.freq_table

pub set_freq-Fixed : {g : Governor} (target : ℕ) → Fixed g → Fixed (set_freq target g)
unfolding set_freq
set_freq-Fixed {g} target v = elim (Bool-cases (target == g.last_set_freq)) [
  | inl same ↦ rw same v
  | inr other ↦
      rw other
        (record { enabled = v.enabled; positive = v.positive; bounds = v.bounds; table = v.table })
]

-- `h` differs from `g` at most in what is counted.
pub record Frame (g h : Governor) : Type 0 where
  pub enabled : h.g_enabled ≡ g.g_enabled
  pub low : h.system_min_cpufreq ≡ g.system_min_cpufreq
  pub high : h.system_max_cpufreq ≡ g.system_max_cpufreq
  pub table : h.freq_table ≡ g.freq_table
  pub last : h.last_set_freq ≡ g.last_set_freq
  pub writes : h.writes ≡ g.writes

pub on_result-Frame :
    (mode : FreqMode) (overflowed : Bool) (g : Governor)
    → Frame g (freq_gov_on_result mode overflowed g)
unfolding freq_gov_on_result adapt_interval
on_result-Frame atom overflowed g = ground arith
on_result-Frame addr overflowed g = ground arith

pub copy_start-Frame : (dst src : FreqMode) (g : Governor) → Frame g (freq_gov_copy_start dst src g)
unfolding freq_gov_copy_start
copy_start-Frame atom src g = ground arith
copy_start-Frame addr src g = ground arith

pub Frame-Fixed : {g h : Governor} → Frame g h → Fixed g → Fixed h
Frame-Fixed {g} {h} f v = record {
  enabled = f.enabled ∙ v.enabled;
  positive = rw f.low v.positive;
  bounds = rw (f.low, f.high) v.bounds;
  table = rw (f.low, f.table) v.table;
}

-- What init fixes, if the hardware bounds are positive and in order.
pub init-Fixed :
    (addr_only : Bool) (f : Found)
    → 0 < f.cpuinfo_min_freq
    → f.cpuinfo_min_freq ≤ f.cpuinfo_max_freq
    → Fixed (freq_gov_init addr_only false f)
unfolding freq_gov_init
init-Fixed addr_only f pos h =
    let lo = f.cpuinfo_min_freq in
    let hi = f.cpuinfo_max_freq in
    let table = read_available_frequencies lo hi f.available in
    record {
      enabled = refl;
      positive = pos;
      bounds = h;
      table =
          All-map (λ x. (lo ≤ x) × (x ≤ hi)) (λ x. lo ≤ x) (λ x r. r.0) table
            (read_available_frequencies_bounds lo hi f.available h).2;
    }

-- The frequency that `freq_gov_apply` is to set.
pub wanted : FreqMode → Governor → ℕ
wanted mode g =
    if g.force_min_pending
    then get_or g.freq_table 0 0
    else get_or g.freq_table (stats mode g).cur_idx 0

abbrev pub forget : Governor → Governor
forget g = record g { force_min_pending = false }

pub apply_forced :
    (mode : FreqMode) (g : Governor)
    → g.g_enabled ≡ true
    → g.force_min_pending ≡ true
    → (freq_gov_apply mode g ≡ set_freq (get_or g.freq_table 0 0) (forget g))
      × (wanted mode g ≡ get_or g.freq_table 0 0)
unfolding freq_gov_apply wanted
apply_forced mode g on forced = ground arith

pub apply_live :
    (mode : FreqMode) (g : Governor)
    → g.g_enabled ≡ true
    → g.force_min_pending ≡ false
    → (freq_gov_apply mode g ≡ set_freq (get_or g.freq_table (stats mode g).cur_idx 0) g)
      × (wanted mode g ≡ get_or g.freq_table (stats mode g).cur_idx 0)
unfolding freq_gov_apply wanted
apply_live mode g on live = ground arith

pub restore_max_on :
    (g : Governor) → g.g_enabled ≡ true → freq_gov_restore_max g ≡ set_freq g.system_max_cpufreq g
unfolding freq_gov_restore_max
restore_max_on g on = ground arith

pub forget-Frame : (g : Governor) → Frame g (forget g)
forget-Frame g = ground arith

pub force_min-Frame : (g : Governor) → Frame g (freq_gov_force_min g)
unfolding freq_gov_force_min
force_min-Frame g = ground arith

pub forget-IsValid : {g : Governor} → IsValid g → IsValid (forget g)
forget-IsValid v = ground arith

pub force_min-IsValid : {g : Governor} → IsValid g → IsValid (freq_gov_force_min g)
unfolding freq_gov_force_min
force_min-IsValid v = ground arith

pub set_cur_idx-Frame : (mode : FreqMode) (i : ℕ) (g : Governor) → Frame g (set_cur_idx mode i g)
set_cur_idx-Frame atom i g = ground arith
set_cur_idx-Frame addr i g = ground arith

pub set_cur_idx-IsValid :
    (mode : FreqMode) (i : ℕ) {g : Governor}
    → i < freq_table_num g
    → IsValid g
    → IsValid (set_cur_idx mode i g)
set_cur_idx-IsValid atom i lt v = ground arith
set_cur_idx-IsValid addr i lt v = ground arith

pub freq_table_num-set_freq :
    (f : ℕ) (g : Governor) → freq_table_num (set_freq f g) ≡ freq_table_num g
unfolding set_freq
freq_table_num-set_freq f g = ground arith

pub freq_table_num-set_cur_idx :
    (mode : FreqMode) (i : ℕ) (g : Governor)
    → freq_table_num (set_cur_idx mode i g) ≡ freq_table_num g
freq_table_num-set_cur_idx atom i g = refl
freq_table_num-set_cur_idx addr i g = refl

pub freq_table_num-restore_max :
    (g : Governor) → freq_table_num (freq_gov_restore_max g) ≡ freq_table_num g
unfolding freq_gov_restore_max set_freq
freq_table_num-restore_max g = ground arith
