-- ===== src/FreqGov/Governor/Tests.antt =====
-- The governor at concrete inputs.
use coresight_trace.Base.{zero, suc, ◌<◌, ◌≡◌, refl, true, false, some, take, List, [], ◌∷◌, arith}
use coresight_trace.FreqGov.Sysfs.{Bounds, strict_cpufreq}
use coresight_trace.FreqGov.Governor.{
  atom, addr, Governor, stats, freq_gov_on_result, freq_gov_should_retry, freq_gov_at_floor,
  freq_gov_apply, freq_gov_restore_system,
}
use coresight_trace.FreqGov.Governor.Valid.{IsValid}
use coresight_trace.FreqGov.Governor.Init.{Found, boot, start_at, freq_gov_init}
use coresight_trace.FreqGov.Governor.Pinned.{Pinned, hardware}
use coresight_trace.FreqGov.Governor.Frames.{wanted}
use coresight_trace.FreqGov.Governor.Run.{
  Call, calibrate, apply, restore_max, force_min, on_result, calls, freq_gov_apply-Pinned,
}
use coresight_trace.FreqGov.Governor.Always.{calls-IsValid, freq_gov_init-off}
use coresight_trace.FreqGov.Governor.Restore.{freq_gov_restore_system-bounds}
use coresight_trace.FreqGov.Governor.Window.{
  freq_gov_on_result-cur_idx, Climbs, freq_gov_should_retry-lowers, clean_results,
  clean_results-cur_idx,
}
use coresight_trace.FreqGov.Governor.Ramp.{Shot, lost, ran, script, scripted, freq_gov_calibrate}
use coresight_trace.FreqGov.Governor.Calibrate.{freq_gov_calibrate-settles}

abbrev found : Found
found = record {
  cpuinfo_max_freq = 1200;
  cpuinfo_min_freq = 300;
  available = some (1200 ∷ 600 ∷ 300 ∷ []);
  saved_governor = "schedutil";
  saved_min = 600;
  saved_max = 1200;
  setspeed = 0;
}

-- On the middle rung of three.
abbrev settled_addr : Governor
settled_addr = record boot {
  addr_only_mode = true;
  system_min_cpufreq = 300;
  system_max_cpufreq = 1200;
  freq_table = 300 ∷ 600 ∷ 1200 ∷ [];
  addr_stats = start_at 1;
}

abbrev session : List Call
session =
    calibrate addr (ran false ∷ ran true ∷ [])
    ∷ apply addr
    ∷ restore_max
    ∷ on_result addr true
    ∷ apply addr
    ∷ restore_max
    ∷ force_min
    ∷ []

abbrev idle_policy : Bounds
idle_policy = record { low = 600; high = 1200; governor = "schedutil"; speed = 800 }

calls-IsValid_example : IsValid (calls session (freq_gov_init true false found))
calls-IsValid_example = calls-IsValid true found session (omega arith)

freq_gov_init-off_example :
    let g = calls session (freq_gov_init false true found) in
    (g.writes ≡ [])
    × (g.restore_ops ≡ [])
    × (freq_gov_should_retry addr true 0 g ≡ false)
    × (freq_gov_at_floor addr g ≡ true)
freq_gov_init-off_example = freq_gov_init-off false found session addr true 0

settled_addr-IsValid : IsValid settled_addr
settled_addr-IsValid = omega arith

freq_gov_on_result-cur_idx_example :
    let g' = freq_gov_on_result addr true settled_addr in
    ((stats addr g').cur_idx ≡ 0)
    × ((stats addr g').non_overflow_nums ≡ 0)
    × (stats atom g' ≡ stats atom settled_addr)
freq_gov_on_result-cur_idx_example =
    freq_gov_on_result-cur_idx addr true settled_addr settled_addr-IsValid refl

settled_addr-Climbs : Climbs settled_addr.freq_table
settled_addr-Climbs zero zero lt room = absurd (omega arith)
settled_addr-Climbs zero (suc zero) lt room = omega arith
settled_addr-Climbs zero (suc (suc zero)) lt room = omega arith
settled_addr-Climbs (suc zero) zero lt room = absurd (omega arith)
settled_addr-Climbs (suc zero) (suc zero) lt room = absurd (omega arith)
settled_addr-Climbs (suc zero) (suc (suc zero)) lt room = omega arith
settled_addr-Climbs (suc (suc i)) zero lt room = absurd (omega arith)
settled_addr-Climbs (suc (suc i)) (suc zero) lt room = absurd (omega arith)
settled_addr-Climbs (suc (suc i)) (suc (suc zero)) lt room = absurd (omega arith)
settled_addr-Climbs i (suc (suc (suc j))) lt room = absurd (omega arith)

freq_gov_should_retry-lowers_example :
    (freq_gov_apply addr (freq_gov_on_result addr true settled_addr)).last_set_freq < 600
unfolding freq_gov_should_retry
freq_gov_should_retry-lowers_example =
    freq_gov_should_retry-lowers addr true 2 settled_addr settled_addr-IsValid settled_addr-Climbs
      refl refl

clean_results-cur_idx_example :
    ((stats addr (clean_results 7 addr settled_addr)).cur_idx ≡ 1)
    × (((stats addr (clean_results 100 addr settled_addr)).cur_idx ≡ 2)
        × ((stats addr (clean_results 100 addr settled_addr)).non_overflow_nums ≡ 0))
clean_results-cur_idx_example =
    clean_results-cur_idx addr 7 settled_addr settled_addr-IsValid refl refl refl (omega arith)

freq_gov_apply-Pinned_example :
    Pinned strict_cpufreq
      (hardware strict_cpufreq idle_policy
        (freq_gov_apply addr (calls session (freq_gov_init true false found))))
      (wanted addr (calls session (freq_gov_init true false found)))
freq_gov_apply-Pinned_example =
    freq_gov_apply-Pinned strict_cpufreq idle_policy true found session addr (omega arith)
      (omega arith) (omega arith)

freq_gov_restore_system-bounds_example :
    let g = freq_gov_restore_system (calls session (freq_gov_init true false found)) in
    ((hardware strict_cpufreq idle_policy g).low ≡ 600)
    × ((hardware strict_cpufreq idle_policy g).high ≡ 1200)
    × (g.last_set_freq ≡ 0)
freq_gov_restore_system-bounds_example =
    freq_gov_restore_system-bounds strict_cpufreq idle_policy found true session (omega arith)
      (omega arith) (omega arith) (omega arith) (omega arith) (omega arith)

abbrev shots : List Shot
shots = ran false ∷ ran false ∷ lost ∷ []

freq_gov_calibrate-settles_example :
    let (runs, g', w) = freq_gov_calibrate scripted addr settled_addr (script shots []) in
    (runs ≡ 3) × (w.ran_at ≡ take runs (300 ∷ 600 ∷ 1200 ∷ [])) × ((stats addr g').cur_idx ≡ 1)
freq_gov_calibrate-settles_example = freq_gov_calibrate-settles addr settled_addr shots refl
