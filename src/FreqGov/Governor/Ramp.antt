-- ===== src/FreqGov/Governor/Ramp.antt =====
-- `freq_gov_calibrate`, with the execution that it calls back as a parameter over a state of its
-- own. The callback may change the governor; the one of the proxy calls `freq_gov_restore_max`.
use coresight_trace.Base.{
  ℕ, zero, suc, ◌+◌, ◌++◌, Bool, true, false, not, List, [], ◌∷◌, get_or, if◌then◌else◌,
}
use coresight_trace.FreqGov.Governor.{
  FreqMode, Governor, stats, put_stats, freq_table_num, set_freq, freq_gov_restore_max,
}

abbrev pub set_cur_idx : FreqMode → ℕ → Governor → Governor
set_cur_idx mode i g = put_stats mode (record (stats mode g) { cur_idx = i }) g

module _ {ℓ} {W : Type ℓ} (run_one_shot : Governor → W → Bool × Governor × W)
    (mode : FreqMode) where
  -- The `for` loop from rung `i`, with the rungs that are left: the runs made, and the states.
  unfoldable pub ramp : ℕ → ℕ → ℕ → Governor → W → ℕ × Governor × W
  ramp zero i runs g w = (runs, g, w)
  ramp (suc left) i runs g w =
      let g' = set_freq (get_or g.freq_table i 0) g in
      let (overflowed, g'', w') = run_one_shot g' w in
      let rest = ramp left (i + 1) (runs + 1) (set_cur_idx mode i g'') w' in
      if overflowed then (runs + 1, g'', w') else rest

  unfoldable pub freq_gov_calibrate : Governor → W → ℕ × Governor × W
  unfolding ramp
  freq_gov_calibrate g w =
      if not g.g_enabled then (0, g, w) else ramp (freq_table_num g) 0 0 (set_cur_idx mode 0 g) w

-- What the callback of the proxy comes to: a step of the run fails, and it returns before
-- `freq_gov_restore_max`; or the run is made, with an overflow or without one.
pub data Shot : Type 0 where
  lost : Shot
  ran : (overflowed : Bool) → Shot

-- The shots to come, clean ones when they are used up, and the frequencies set at those before.
pub record Script : Type 0 where
  pub shots : List Shot
  pub ran_at : List ℕ

abbrev pub script : List Shot → List ℕ → Script
script os fs = record { shots = os; ran_at = fs }

abbrev pub shoot : List Shot → List ℕ → Governor → Bool × Governor × Script
shoot [] fs g = (false, freq_gov_restore_max g, script [] fs)
shoot (lost ∷ os) fs g = (true, g, script os fs)
shoot (ran o ∷ os) fs g = (o, freq_gov_restore_max g, script os fs)

abbrev pub scripted : Governor → Script → Bool × Governor × Script
scripted g w = shoot w.shots (w.ran_at ++ (g.last_set_freq ∷ [])) g
