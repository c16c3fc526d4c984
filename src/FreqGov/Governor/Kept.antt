-- ===== src/FreqGov/Governor/Kept.antt =====
-- What calibration leaves as it is, and what it keeps.
use coresight_trace.Base.{
  ℕ, zero, suc, ◌+◌, ◌≤◌, ◌<◌, ◌≡◌, refl, ap, ◌++◌, Bool, true, false, not, List, [], ◌∷◌, get_or,
  if◌then◌else◌, Bool-cases, inl, inr, ◌∙◌, arith,
}
use coresight_trace.FreqGov.Governor.{
  FreqMode, Governor, freq_table_num, set_freq, freq_gov_restore_max,
}
use coresight_trace.FreqGov.Governor.Ramp.{
  set_cur_idx, ramp, freq_gov_calibrate, Shot, lost, ran, Script, shoot, scripted,
}

-- What every run leaves as it is, calibration leaves as it is.
module _ {W X : Type 0} (run : Governor → W → Bool × Governor × W) (mode : FreqMode) (f : W → X)
    (kept : (g : Governor) (w : W) → f (run g w).2 ≡ f w) where
  ramp-keeps : (left i runs : ℕ) (g : Governor) (w : W) → f (ramp run mode left i runs g w).2 ≡ f w
  unfolding ramp
  ramp-keeps zero i runs g w = refl
  ramp-keeps (suc left) i runs g w =
      let g' = set_freq (get_or g.freq_table i 0) g in
      let (overflowed, g'', w') = run g' w in
      elim (Bool-cases overflowed) [
        | inl over ↦ rw over (kept g' w)
        | inr clean ↦
            rw clean (ramp-keeps left (i + 1) (runs + 1) (set_cur_idx mode i g'') w' ∙ kept g' w)
      ]

  pub freq_gov_calibrate-keeps :
      (g : Governor) (w : W) → f (freq_gov_calibrate run mode g w).2 ≡ f w
  unfolding freq_gov_calibrate
  freq_gov_calibrate-keeps g w = on_or_off g.g_enabled
    where
      on_or_off :
          (b : Bool)
          → f
              (if not b
                then (0, g, w)
                else ramp run mode (freq_table_num g) 0 0 (set_cur_idx mode 0 g) w).2
            ≡ f w
      on_or_off true = ramp-keeps (freq_table_num g) 0 0 (set_cur_idx mode 0 g) w
      on_or_off false = refl

-- What holds of the governor and is kept by every frequency of the table, every index in it and every
-- run, calibration keeps.
module _ {ℓ} (mode : FreqMode) (num : ℕ) (P : Governor → Type ℓ)
    (sets : (i : ℕ) (g : Governor) → i < num → P g → P (set_freq (get_or g.freq_table i 0) g))
    (puts : (i : ℕ) (g : Governor) → i < num → P g → P (set_cur_idx mode i g))
    (restores : (g : Governor) → P g → P (freq_gov_restore_max g)) where
  shoot-preserves : (os : List Shot) (fs : List ℕ) (g : Governor) → P g → P (shoot os fs g).1
  shoot-preserves [] fs g h = restores g h
  shoot-preserves (lost ∷ os) fs g h = h
  shoot-preserves (ran o ∷ os) fs g h = restores g h

  ramp-preserves :
      (left i runs : ℕ) (g : Governor) (w : Script)
      → i + left ≤ num
      → P g
      → P (ramp scripted mode left i runs g w).1
  unfolding ramp
  ramp-preserves zero i runs g w le h = h
  ramp-preserves (suc left) i runs g w le h =
      let g' = set_freq (get_or g.freq_table i 0) g in
      let (overflowed, g'', w') = scripted g' w in
      let shot : P g'' =
        shoot-preserves w.shots (w.ran_at ++ (g'.last_set_freq ∷ [])) g'
          (sets i g (omega arith) h) in
      elim (Bool-cases overflowed) [
        | inl over ↦ rw over shot
        | inr clean ↦ rw clean (
            ramp-preserves left (i + 1) (runs + 1) (set_cur_idx mode i g'') w' (omega arith)
              (puts i g'' (omega arith) shot))
      ]

  pub freq_gov_calibrate-preserves :
      (g : Governor) (w : Script)
      → freq_table_num g ≤ num
      → 0 < num
      → P g
      → P (freq_gov_calibrate scripted mode g w).1
  unfolding freq_gov_calibrate
  freq_gov_calibrate-preserves g w few some_rung h = on_or_off g.g_enabled
    where
      on_or_off :
          (b : Bool)
          → P
              (if not b
                then (0, g, w)
                else ramp scripted mode (freq_table_num g) 0 0 (set_cur_idx mode 0 g) w).1
      on_or_off true =
          ramp-preserves (freq_table_num g) 0 0 (set_cur_idx mode 0 g) w (omega arith)
            (puts 0 g some_rung h)
      on_or_off false = h

pub freq_gov_calibrate-off :
    (mode : FreqMode) (g : Governor) (w : Script)
    → g.g_enabled ≡ false
    → freq_gov_calibrate scripted mode g w ≡ (0, g, w)
unfolding freq_gov_calibrate
freq_gov_calibrate-off mode g w off =
    ap
      (λ b.
        if not b
        then (0, g, w)
        else ramp scripted mode (freq_table_num g) 0 0 (set_cur_idx mode 0 g) w)
      off
