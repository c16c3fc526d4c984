-- ===== src/FreqGov/Governor/Valid.antt =====
-- The invariant of the governor's state, kept by every operation.
use coresight_trace.Base.{ℕ, ◌≤◌, ◌<◌, Bool, true, arith}
use coresight_trace.FreqGov.Governor.{
  FreqMode, atom, Governor, freq_table_num, set_freq, freq_gov_apply, freq_gov_restore_max,
  adapt_interval, freq_gov_on_result, freq_gov_copy_start,
}

-- The live index of each mode is in the table, and the window within its limits.
pub record IsValid (g : Governor) : Type 0 where
  pub atom_in : g.atom_stats.cur_idx < freq_table_num g
  pub addr_in : g.addr_stats.cur_idx < freq_table_num g
  pub window_low : 100 ≤ g.freq_interval
  pub window_high : g.freq_interval ≤ 1000

pub set_freq-IsValid : {g : Governor} (target : ℕ) → IsValid g → IsValid (set_freq target g)
unfolding set_freq
set_freq-IsValid target v = ground arith

pub freq_gov_apply-IsValid :
    {g : Governor} (mode : FreqMode) → IsValid g → IsValid (freq_gov_apply mode g)
unfolding freq_gov_apply set_freq
freq_gov_apply-IsValid mode v = ground arith

pub freq_gov_restore_max-IsValid : {g : Governor} → IsValid g → IsValid (freq_gov_restore_max g)
unfolding freq_gov_restore_max set_freq
freq_gov_restore_max-IsValid v = ground arith

pub freq_gov_on_result-IsValid :
    {g : Governor} (mode : FreqMode) (overflowed : Bool)
    → IsValid g
    → IsValid (freq_gov_on_result mode overflowed g)
unfolding freq_gov_on_result adapt_interval
freq_gov_on_result-IsValid atom true v = ground arith
freq_gov_on_result-IsValid _ _ v = ground arith

pub freq_gov_copy_start-IsValid :
    {g : Governor} (dst src : FreqMode) → IsValid g → IsValid (freq_gov_copy_start dst src g)
unfolding freq_gov_copy_start
freq_gov_copy_start-IsValid atom atom v = ground arith
freq_gov_copy_start-IsValid _ _ v = ground arith
