-- ===== src/FreqGov/Governor/Init.antt =====
-- `freq_gov_init`: the table, the saved policy, and the start of every mode. What it reads from
-- sysfs and the environment is an argument. Signal handlers, `atexit` and the guard process are
-- not part of the state: each of them calls `freq_gov_restore_system`.
use coresight_trace.Base.{
  ℕ, ◌-◌, ◌≤◌, Bool, true, false, not, Option, List, [], ◌∷◌, ◌++◌, length, leb, ◌==◌,
  if◌then◌else◌, arith,
}
use Prim.Native.String.{String}
use text.Mathlib.Text.{◌==◌ as str_eq}
use coresight_trace.FreqGov.Table.{read_available_frequencies}
use coresight_trace.FreqGov.Table.Contents.{read_available_frequencies_bounds}
use coresight_trace.FreqGov.Sysfs.{
  Write, write_sysfs, write_sysfs_str, scaling_min_freq, scaling_max_freq, scaling_setspeed,
  scaling_governor,
}
use coresight_trace.FreqGov.Governor.{ModeStats, Governor, freq_interval_init, min_freq_interval}
use coresight_trace.FreqGov.Governor.Valid.{IsValid}

-- What the cpufreq files hold before init: a number that cannot be read is 0, and a governor that
-- cannot be read is the empty text.
pub record Found : Type 0 where
  pub cpuinfo_max_freq : ℕ
  pub cpuinfo_min_freq : ℕ
  pub available : Option (List ℕ)
  pub saved_governor : String
  pub saved_min : ℕ
  pub saved_max : ℕ
  pub setspeed : ℕ

abbrev pub restore_ops_max : ℕ
restore_ops_max = 5

unfoldable pub add_restore_op : Write → List Write → List Write
add_restore_op op ops = if leb restore_ops_max (length ops) then ops else ops ++ op ∷ []

-- `if (b) add_restore_op(...)`
abbrev pub add_if : Bool → Write → List Write → List Write
add_if b op ops = if b then add_restore_op op ops else ops

abbrev pub is_set : ℕ → Bool
is_set n = not (n == 0)

abbrev pub saved_speed : Found → ℕ
saved_speed f = if str_eq f.saved_governor "userspace" then f.setspeed else 0

-- The restore targets, in the order in which init adds them.
unfoldable pub restore_targets : Found → List Write
unfolding add_restore_op
restore_targets f =
    let ops =
      add_if (is_set f.cpuinfo_min_freq) (write_sysfs scaling_min_freq f.cpuinfo_min_freq) [] in
    let ops = add_if (is_set f.saved_max) (write_sysfs scaling_max_freq f.saved_max) ops in
    let ops = add_if (is_set f.saved_min) (write_sysfs scaling_min_freq f.saved_min) ops in
    let ops =
      add_if (not (str_eq f.saved_governor "")) (write_sysfs_str scaling_governor f.saved_governor)
        ops in
    add_if (is_set (saved_speed f)) (write_sysfs scaling_setspeed (saved_speed f)) ops

abbrev pub start_at : ℕ → ModeStats
start_at idx = record {
  cur_idx = idx;
  opt_idx_sum = 0;
  stable_nums = 0;
  non_overflow_nums = 0;
  total_execs = 0;
  total_overflow_execs = 0;
}

-- The statics before init.
abbrev pub boot : Governor
boot = record {
  g_enabled = true;
  addr_only_mode = false;
  system_min_cpufreq = 0;
  system_max_cpufreq = 0;
  freq_table = [];
  atom_stats = start_at 0;
  addr_stats = start_at 0;
  freq_interval = min_freq_interval;
  force_min_pending = false;
  last_set_freq = 0;
  restore_ops = [];
  writes = [];
}

-- `gov_off` is AFLCS_FREQ_GOV=0.
unfoldable pub freq_gov_init : Bool → Bool → Found → Governor
unfolding restore_targets
freq_gov_init addr_only gov_off f =
    if gov_off
    then record boot { addr_only_mode = addr_only; g_enabled = false }
    else let table = read_available_frequencies f.cpuinfo_min_freq f.cpuinfo_max_freq f.available in
      record {
        g_enabled = true;
        addr_only_mode = addr_only;
        system_min_cpufreq = f.cpuinfo_min_freq;
        system_max_cpufreq = f.cpuinfo_max_freq;
        freq_table = table;
        atom_stats = start_at (length table - 1);
        addr_stats = start_at (length table - 1);
        freq_interval = if addr_only then min_freq_interval else freq_interval_init;
        force_min_pending = false;
        last_set_freq = 0;
        restore_ops = restore_targets f;
        writes = write_sysfs_str scaling_governor "userspace" ∷ [];
      }

-- Init starts both modes in the table, with a window in its limits, if the hardware bounds are in
-- order.
pub freq_gov_init-IsValid :
    (addr_only : Bool) (f : Found)
    → f.cpuinfo_min_freq ≤ f.cpuinfo_max_freq
    → IsValid (freq_gov_init addr_only false f)
unfolding freq_gov_init
freq_gov_init-IsValid addr_only f h =
    ground
      (arith, read_available_frequencies_bounds f.cpuinfo_min_freq f.cpuinfo_max_freq f.available h)
