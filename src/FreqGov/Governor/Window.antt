-- ===== src/FreqGov/Governor/Window.antt =====
-- `freq_gov_on_result` and the retry query: how one outcome, and a run of outcomes, moves a mode.
use coresight_trace.Base.{
  leb, inc64, if◌then◌else◌, ◌||◌, ℕ, zero, suc, ◌+◌, ◌-◌, ◌≤◌, ◌<◌, ◌≡◌, refl, ap, ap₂, ◌∙◌, List,
  length, get_or, Bool, true, false, min, arith,
}
use mathlib.Core.Path.{subst}
use coresight_trace.FreqGov.Governor.{
  FreqMode, atom, addr, Governor, stats, freq_table_num, adapt_interval, freq_gov_on_result,
  freq_gov_should_retry, freq_gov_apply,
}
use coresight_trace.FreqGov.Governor.Valid.{IsValid}
use coresight_trace.FreqGov.Governor.Frames.{apply_live}
use coresight_trace.FreqGov.Governor.Calibrate.{last_set_freq-set_freq}

abbrev pub other : FreqMode → FreqMode
other atom = addr
other addr = atom

-- One outcome, with the governor on: an overflow takes its mode one rung down, the floor excepted;
-- a clean run that fills the window takes it one rung up, to the top rung at most; any other clean
-- run leaves it where it is. An overflow and a full window begin a new window, and the other mode
-- stays as it was.
pub freq_gov_on_result-cur_idx :
    (mode : FreqMode) (overflowed : Bool) (g : Governor)
    → IsValid g
    → g.g_enabled ≡ true
    → let g' = freq_gov_on_result mode overflowed g in
      let s = stats mode g in
      let full = leb g.freq_interval (inc64 s.non_overflow_nums) in
      ((stats mode g').cur_idx ≡ (
        if overflowed
        then s.cur_idx - 1
        else if full
        then min (s.cur_idx + 1) (freq_table_num g - 1)
        else s.cur_idx))
      × ((stats mode g').non_overflow_nums
          ≡ (if overflowed || full then 0 else inc64 s.non_overflow_nums))
      × (stats (other mode) g' ≡ stats (other mode) g)
unfolding freq_gov_on_result adapt_interval
freq_gov_on_result-cur_idx atom overflowed g v on = ground arith
freq_gov_on_result-cur_idx addr overflowed g v on = ground arith

cur_idx-lt :
    {g : Governor} (mode : FreqMode) → IsValid g → (stats mode g).cur_idx < freq_table_num g
cur_idx-lt atom v = v.atom_in
cur_idx-lt addr v = v.addr_in

retry_facts :
    (mode : FreqMode) (overflowed : Bool) (n : ℕ) (g : Governor)
    → freq_gov_should_retry mode overflowed n g ≡ true
    → let g' = freq_gov_on_result mode overflowed g in
      ((stats mode g').cur_idx ≡ (stats mode g).cur_idx - 1)
      × (0 < (stats mode g).cur_idx)
      × (g'.freq_table ≡ g.freq_table)
      × (g'.g_enabled ≡ true)
      × (g'.force_min_pending ≡ g.force_min_pending)
unfolding freq_gov_should_retry freq_gov_on_result adapt_interval
retry_facts atom overflowed n g h = ground arith
retry_facts addr overflowed n g h = ground arith

-- No frequency is in the table twice, and they ascend.
abbrev pub Climbs : List ℕ → Type 0
Climbs table = (i j : ℕ) → i < j → j < length table → get_or table i 0 < get_or table j 0

-- A retry that is granted runs at a lower frequency: if no frequency is in the table twice and no
-- forced minimum is pending, what freq_gov_apply sets after the outcome has been reported is below
-- the frequency of the rung that overflowed.
pub freq_gov_should_retry-lowers :
    (mode : FreqMode) (overflowed : Bool) (n : ℕ) (g : Governor)
    → IsValid g
    → Climbs g.freq_table
    → g.force_min_pending ≡ false
    → freq_gov_should_retry mode overflowed n g ≡ true
    → (freq_gov_apply mode (freq_gov_on_result mode overflowed g)).last_set_freq
      < get_or g.freq_table (stats mode g).cur_idx 0
freq_gov_should_retry-lowers mode overflowed n g v climbs live h =
    let g' = freq_gov_on_result mode overflowed g in
    let (lower, above, table, on, same) = retry_facts mode overflowed n g h in
    let set : (freq_gov_apply mode g').last_set_freq
        ≡ get_or g.freq_table ((stats mode g).cur_idx - 1) 0 =
      ap (λ x. x.last_set_freq) (apply_live mode g' on (same ∙ live)).0
      ∙ last_set_freq-set_freq (get_or g'.freq_table (stats mode g').cur_idx 0) g'
      ∙ ap₂ (λ t i. get_or t i 0) table lower in
    let step =
      climbs ((stats mode g).cur_idx - 1) (stats mode g).cur_idx (omega arith)
        (cur_idx-lt mode v) in
    omega arith

-- `n` clean results in a row.
abbrev pub clean_results : ℕ → FreqMode → Governor → Governor
clean_results zero mode g = g
clean_results (suc n) mode g = freq_gov_on_result mode false (clean_results n mode g)

-- What a run of clean results within one window has come to.
record Counting (mode : FreqMode) (n : ℕ) (g h : Governor) : Type 0 where
  clean : (stats mode h).non_overflow_nums ≡ n
  idx : (stats mode h).cur_idx ≡ (stats mode g).cur_idx
  stable : (stats mode h).stable_nums ≡ (stats mode g).stable_nums
  interval : h.freq_interval ≡ g.freq_interval
  table : freq_table_num h ≡ freq_table_num g
  enabled : h.g_enabled ≡ true
  fixed : h.addr_only_mode ≡ true

Counting-suc :
    (mode : FreqMode) (n : ℕ) (g h : Governor)
    → suc n < g.freq_interval
    → g.freq_interval ≤ 1000
    → Counting mode n g h
    → Counting mode (suc n) g (freq_gov_on_result mode false h)
unfolding freq_gov_on_result adapt_interval
Counting-suc atom n g h lt cap c = ground arith
Counting-suc addr n g h lt cap c = ground arith

clean_results-Counting :
    (mode : FreqMode) (n : ℕ) (g : Governor)
    → n < g.freq_interval
    → g.freq_interval ≤ 1000
    → Counting mode 0 g g
    → Counting mode n g (clean_results n mode g)
clean_results-Counting mode zero g lt cap c = c
clean_results-Counting mode (suc n) g lt cap c =
    Counting-suc mode n g (clean_results n mode g) lt cap
      (clean_results-Counting mode n g (omega arith) cap c)

full_window :
    (mode : FreqMode) (n : ℕ) (g h : Governor)
    → suc n ≡ g.freq_interval
    → g.freq_interval ≤ 1000
    → (stats mode g).cur_idx < freq_table_num g
    → Counting mode n g h
    → ((stats mode (freq_gov_on_result mode false h)).cur_idx
        ≡ min ((stats mode g).cur_idx + 1) (freq_table_num g - 1))
      × ((stats mode (freq_gov_on_result mode false h)).non_overflow_nums ≡ 0)
unfolding freq_gov_on_result adapt_interval
full_window atom n g h e cap inside c = ground arith
full_window addr n g h e cap inside c = ground arith

-- With the fixed window of the addr-only setup, a mode that starts a window and sees nothing but
-- clean results keeps its rung until the window is full, and is then one rung higher, at the top
-- rung at most, with a new window begun.
pub clean_results-cur_idx :
    (mode : FreqMode) (n : ℕ) (g : Governor)
    → IsValid g
    → g.g_enabled ≡ true
    → g.addr_only_mode ≡ true
    → (stats mode g).non_overflow_nums ≡ 0
    → n < g.freq_interval
    → ((stats mode (clean_results n mode g)).cur_idx ≡ (stats mode g).cur_idx)
      × (((stats mode (clean_results g.freq_interval mode g)).cur_idx
            ≡ min ((stats mode g).cur_idx + 1) (freq_table_num g - 1))
          × ((stats mode (clean_results g.freq_interval mode g)).non_overflow_nums ≡ 0))
clean_results-cur_idx mode n g v on only start lt =
    let begun : Counting mode 0 g g = record {
      clean = start;
      idx = refl;
      stable = refl;
      interval = refl;
      table = refl;
      enabled = on;
      fixed = only;
    } in
    let k = g.freq_interval - 1 in
    let last : suc k ≡ g.freq_interval = omega (arith, v.window_low) in
    (
      (clean_results-Counting mode n g lt v.window_high begun).idx,
      subst
          (λ m.
            ((stats mode (clean_results m mode g)).cur_idx
              ≡ min ((stats mode g).cur_idx + 1) (freq_table_num g - 1))
            × ((stats mode (clean_results m mode g)).non_overflow_nums ≡ 0))
          last
          (full_window mode k g (clean_results k mode g) last v.window_high (cur_idx-lt mode v)
            (clean_results-Counting mode k g (omega (arith, last)) v.window_high begun)),
    )
