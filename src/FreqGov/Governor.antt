-- ===== src/FreqGov/Governor.antt =====
-- The state of src/freq_gov.c and its operations. The statics are the fields of one record, the
-- arrays indexed by mode are a record for each mode, and the sysfs writes are kept in order.
-- `freq_diag` only steers what is printed and is left out.
pub mod Valid
pub mod Init
pub mod Pinned
pub mod Restore
pub mod Frames
pub mod Run
pub mod Always
pub mod Window
pub mod Ramp
pub mod Calibrate
pub mod Kept
mod Tests
use coresight_trace.Base.{
  ℕ, zero, suc, ◌+◌, ◌-◌, ◌*◌, ◌/◌, Bool, true, false, ◌&&◌, ◌||◌, not, List, [], ◌∷◌, ◌++◌, length,
  get_or, ltb, leb, ◌==◌, if◌then◌else◌, inc64,
}
use coresight_trace.FreqGov.Sysfs.{
  Write, write_sysfs, scaling_min_freq, scaling_max_freq, scaling_setspeed,
}

abbrev pub freq_interval_init : ℕ
freq_interval_init = 1000

abbrev pub min_freq_interval : ℕ
min_freq_interval = 100

abbrev pub max_freq_interval : ℕ
max_freq_interval = 1000

abbrev pub max_repetition_num : ℕ
max_repetition_num = 3

pub data FreqMode : Type 0 where
  atom addr : FreqMode

-- What the arrays hold at one mode. `cur_idx` is never negative. The sum of indices is an `int`,
-- whose overflow C leaves undefined: it is a plain number here.
pub record ModeStats : Type 0 where
  pub cur_idx : ℕ
  pub opt_idx_sum : ℕ
  pub stable_nums : ℕ
  pub non_overflow_nums : ℕ
  pub total_execs : ℕ
  pub total_overflow_execs : ℕ

pub record Governor : Type 0 where
  pub g_enabled : Bool
  pub addr_only_mode : Bool
  pub system_min_cpufreq : ℕ
  pub system_max_cpufreq : ℕ
  pub freq_table : List ℕ
  pub atom_stats : ModeStats
  pub addr_stats : ModeStats
  pub freq_interval : ℕ
  pub force_min_pending : Bool
  pub last_set_freq : ℕ
  pub restore_ops : List Write
  pub writes : List Write

abbrev pub stats : FreqMode → Governor → ModeStats
stats atom g = g.atom_stats
stats addr g = g.addr_stats

abbrev pub put_stats : FreqMode → ModeStats → Governor → Governor
put_stats atom s g = record g { atom_stats = s }
put_stats addr s g = record g { addr_stats = s }

abbrev pub freq_table_num : Governor → ℕ
freq_table_num g = length g.freq_table

-- The four writes of `set_freq`, in its order.
abbrev pub pin_writes : ℕ → ℕ → List Write
pin_writes lo target =
    write_sysfs scaling_min_freq lo
    ∷ write_sysfs scaling_max_freq target
    ∷ write_sysfs scaling_min_freq target
    ∷ write_sysfs scaling_setspeed target
    ∷ []

unfoldable pub set_freq : ℕ → Governor → Governor
set_freq target g = if target == g.last_set_freq then g else record g {
  writes = g.writes ++ pin_writes g.system_min_cpufreq target;
  last_set_freq = target;
}

-- On exit, on a signal and in the guard: the saved policy is written back.
unfoldable pub freq_gov_restore_system : Governor → Governor
freq_gov_restore_system g = record g { writes = g.writes ++ g.restore_ops; last_set_freq = 0 }

-- Stable frequency for a mode, rounded to the nearest step.
unfoldable pub opt_idx : FreqMode → Governor → ℕ
opt_idx mode g =
    ((stats mode g).opt_idx_sum + (stats mode g).stable_nums / 2) / (stats mode g).stable_nums

unfoldable pub opt_freq : FreqMode → Governor → ℕ
unfolding opt_idx
opt_freq mode g =
    if (stats mode g).stable_nums == 0
    then 0
    else get_or g.freq_table
        (if leb (freq_table_num g) (opt_idx mode g) then freq_table_num g - 1 else opt_idx mode g) 0

unfoldable pub freq_gov_apply : FreqMode → Governor → Governor
freq_gov_apply mode g =
    if not g.g_enabled
    then g
    else if g.force_min_pending
    then set_freq (get_or g.freq_table 0 0) (record g { force_min_pending = false })
    else set_freq (get_or g.freq_table (stats mode g).cur_idx 0) g

unfoldable pub freq_gov_restore_max : Governor → Governor
freq_gov_restore_max g = if not g.g_enabled then g else set_freq g.system_max_cpufreq g

unfoldable pub freq_gov_force_min : Governor → Governor
freq_gov_force_min g = record g { force_min_pending = true }

-- `freq_gov_on_result` on an overflow: one rung down, and the window starts again.
abbrev pub on_overflow : ModeStats → ModeStats
on_overflow s = record s {
  total_overflow_execs = inc64 s.total_overflow_execs;
  cur_idx = if ltb 0 s.cur_idx then s.cur_idx - 1 else s.cur_idx;
  non_overflow_nums = 0;
}

-- On a clean run: a full window is recorded, and probes one rung up if there is one.
abbrev pub on_clean : ℕ → ℕ → ModeStats → ModeStats
on_clean interval num s =
    let clean = inc64 s.non_overflow_nums in
    if leb interval clean
    then record s {
      stable_nums = inc64 s.stable_nums;
      opt_idx_sum = s.opt_idx_sum + s.cur_idx;
      cur_idx = if ltb s.cur_idx (num - 1) then s.cur_idx + 1 else s.cur_idx;
      non_overflow_nums = 0;
    }
    else record s { non_overflow_nums = clean }

-- The window that both modes share, from the counts of the atom mode.
abbrev pub adapted : ℕ → ℕ
adapted fi =
    if ltb fi min_freq_interval
    then min_freq_interval
    else if ltb max_freq_interval fi
    then max_freq_interval
    else fi

unfoldable pub adapt_interval : Governor → Governor
adapt_interval g =
    if not g.addr_only_mode && ltb 0 g.atom_stats.total_overflow_execs
    then record g {
      freq_interval = adapted (g.atom_stats.total_execs / g.atom_stats.total_overflow_execs / 5);
    }
    else g

abbrev pub counted : ModeStats → ModeStats
counted s = record s { total_execs = inc64 s.total_execs }

unfoldable pub freq_gov_on_result : FreqMode → Bool → Governor → Governor
unfolding adapt_interval
freq_gov_on_result mode overflowed g =
    if not g.g_enabled
    then g
    else adapt_interval (
        put_stats mode
          (if overflowed
            then on_overflow (counted (stats mode g))
            else on_clean g.freq_interval (freq_table_num g) (counted (stats mode g)))
          g)

abbrev pub is_addr : FreqMode → Bool
is_addr addr = true
is_addr atom = false

unfoldable pub freq_gov_should_retry : FreqMode → Bool → ℕ → Governor → Bool
freq_gov_should_retry mode overflowed cur_repetition_num g =
    if not g.g_enabled
    then false
    else if not overflowed
    then false
    else if not (is_addr mode)
    then false
    else if leb g.addr_stats.cur_idx 0
    then false
    else if leb max_repetition_num cur_repetition_num
    then false
    else true

unfoldable pub freq_gov_at_floor : FreqMode → Governor → Bool
freq_gov_at_floor mode g = not g.g_enabled || ((stats mode g).cur_idx == 0)

unfoldable pub freq_gov_copy_start : FreqMode → FreqMode → Governor → Governor
freq_gov_copy_start dst src g =
    put_stats dst (record (stats dst g) { cur_idx = (stats src g).cur_idx }) g
