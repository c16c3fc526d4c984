-- ===== src/FreqGov/Governor/Calibrate.antt =====
-- Where calibration ends, and at which frequencies its runs are made.
use coresight_trace.Base.{
  ℕ, zero, suc, ◌+◌, ◌-◌, ◌≤◌, ◌≡◌, refl, sym, ap, ap₂, ◌++◌, take, length, ==_iff, true, false,
  not, List, [], ◌∷◌, min, get_or, ◌==◌, if◌then◌else◌, Bool-cases, inl, inr, ◌∙◌, arith,
}
use mathlib.Core.List.{append_assoc, append-nil}
use coresight_trace.FreqGov.Governor.{
  FreqMode, atom, addr, Governor, stats, freq_table_num, set_freq, freq_gov_restore_max,
}
use coresight_trace.FreqGov.Governor.Ramp.{
  set_cur_idx, ramp, freq_gov_calibrate, Shot, lost, ran, script, scripted,
}

-- The clean shots before the first one that is not.
abbrev pub clean_prefix : ℕ → List Shot → ℕ
clean_prefix zero os = 0
clean_prefix (suc n) [] = suc n
clean_prefix (suc n) (lost ∷ os) = 0
clean_prefix (suc n) (ran true ∷ os) = 0
clean_prefix (suc n) (ran false ∷ os) = suc (clean_prefix n os)

clean_prefix-nil : (n : ℕ) → clean_prefix n [] ≡ n
clean_prefix-nil zero = refl
clean_prefix-nil (suc n) = refl

stats-set_freq : (mode : FreqMode) (f : ℕ) (g : Governor) → stats mode (set_freq f g) ≡ stats mode g
unfolding set_freq
stats-set_freq atom f g = ground arith
stats-set_freq addr f g = ground arith

stats-restore_max :
    (mode : FreqMode) (g : Governor) → stats mode (freq_gov_restore_max g) ≡ stats mode g
unfolding freq_gov_restore_max set_freq
stats-restore_max atom g = ground arith
stats-restore_max addr g = ground arith

stats-set_cur_idx :
    (mode : FreqMode) (i : ℕ) (g : Governor) → (stats mode (set_cur_idx mode i g)).cur_idx ≡ i
stats-set_cur_idx atom i g = refl
stats-set_cur_idx addr i g = refl

-- The rung that is left by `clean` clean runs from rung `i` on, and `start` without one.
abbrev settled : ℕ → ℕ → ℕ → ℕ
settled clean start i = if clean == 0 then start else i + clean - 1

ramp-scripted :
    (mode : FreqMode) (left i runs : ℕ) (g : Governor) (os : List Shot) (fs : List ℕ)
    → let (runs', g', _) = ramp scripted mode left i runs g (script os fs) in
      let clean = clean_prefix left os in
      (runs' ≡ runs + min (clean + 1) left)
      × ((stats mode g').cur_idx ≡ settled clean (stats mode g).cur_idx i)
unfolding ramp
ramp-scripted mode zero i runs g os fs = ground arith
ramp-scripted mode (suc left) i runs g [] fs =
    let h = set_freq (get_or g.freq_table i 0) g in
    let g' = freq_gov_restore_max h in
    ground (
      arith,
      ramp-scripted mode left (i + 1) (runs + 1) (set_cur_idx mode i g') []
          (fs ++ (h.last_set_freq ∷ [])),
      clean_prefix-nil left,
      stats-set_cur_idx mode i g',
    )
ramp-scripted mode (suc left) i runs g (lost ∷ os) fs =
    ground (arith, stats-set_freq mode (get_or g.freq_table i 0) g)
ramp-scripted mode (suc left) i runs g (ran true ∷ os) fs =
    let g' = set_freq (get_or g.freq_table i 0) g in
    ground (arith, stats-restore_max mode g', stats-set_freq mode (get_or g.freq_table i 0) g)
ramp-scripted mode (suc left) i runs g (ran false ∷ os) fs =
    let h = set_freq (get_or g.freq_table i 0) g in
    let g' = freq_gov_restore_max h in
    ground (
      arith,
      ramp-scripted mode left (i + 1) (runs + 1) (set_cur_idx mode i g') os
          (fs ++ (h.last_set_freq ∷ [])),
      stats-set_cur_idx mode i g',
    )

-- The frequencies of `n` rungs from `i` on.
abbrev rungs : List ℕ → ℕ → ℕ → List ℕ
rungs table i zero = []
rungs table i (suc n) = get_or table i 0 ∷ rungs table (i + 1) n

rungs-suc : (x : ℕ) (xs : List ℕ) (i n : ℕ) → rungs (x ∷ xs) (i + 1) n ≡ rungs xs i n
rungs-suc x xs i zero = refl
rungs-suc x xs i (suc n) =
    let next : i + 1 ≡ suc i = omega arith in
    ap₂ (λ a l. a ∷ l) (ap (λ k. get_or (x ∷ xs) k 0) next) (rungs-suc x xs (i + 1) n)

rungs-take : (table : List ℕ) (n : ℕ) → n ≤ length table → rungs table 0 n ≡ take n table
rungs-take table zero h = refl
rungs-take [] (suc n) h = absurd (omega arith)
rungs-take (x ∷ xs) (suc n) h = ap (λ l. x ∷ l) (rungs-suc x xs 0 n ∙ rungs-take xs n (omega arith))

-- The shots that are made.
abbrev made : ℕ → List Shot → ℕ
made zero os = 0
made (suc n) [] = suc (made n [])
made (suc n) (lost ∷ os) = 1
made (suc n) (ran true ∷ os) = 1
made (suc n) (ran false ∷ os) = suc (made n os)

made-eq : (n : ℕ) (os : List Shot) → made n os ≡ min (clean_prefix n os + 1) n
made-eq zero os = omega arith
made-eq (suc n) [] = omega (arith, made-eq n [], clean_prefix-nil n)
made-eq (suc n) (lost ∷ os) = omega arith
made-eq (suc n) (ran true ∷ os) = omega arith
made-eq (suc n) (ran false ∷ os) = omega (arith, made-eq n os)

pub last_set_freq-set_freq : (f : ℕ) (g : Governor) → (set_freq f g).last_set_freq ≡ f
unfolding set_freq
last_set_freq-set_freq f g = elim (Bool-cases (f == g.last_set_freq)) [
  | inl same ↦ rw same (sym ((==_iff f g.last_set_freq).0 same))
  | inr other ↦ rw other refl
]

freq_table-set_cur_idx :
    (mode : FreqMode) (i : ℕ) (g : Governor) → (set_cur_idx mode i g).freq_table ≡ g.freq_table
freq_table-set_cur_idx atom i g = refl
freq_table-set_cur_idx addr i g = refl

freq_table-restore_max :
    (f : ℕ) (g : Governor) → (freq_gov_restore_max (set_freq f g)).freq_table ≡ g.freq_table
unfolding freq_gov_restore_max set_freq
freq_table-restore_max f g = ground arith

at_rung :
    (i : ℕ) (g : Governor) (table : List ℕ)
    → g.freq_table ≡ table
    → (set_freq (get_or g.freq_table i 0) g).last_set_freq ≡ get_or table i 0
at_rung i g table e = last_set_freq-set_freq (get_or g.freq_table i 0) g ∙ ap (λ t. get_or t i 0) e

table_stays :
    (mode : FreqMode) (i : ℕ) (g : Governor) (table : List ℕ)
    → g.freq_table ≡ table
    → (set_cur_idx mode i (freq_gov_restore_max (set_freq (get_or g.freq_table i 0) g))).freq_table
      ≡ table
table_stays mode i g table e =
    freq_table-set_cur_idx mode i (freq_gov_restore_max (set_freq (get_or g.freq_table i 0) g))
    ∙ freq_table-restore_max (get_or g.freq_table i 0) g
    ∙ e

one_more : (fs ys : List ℕ) {a b : ℕ} → a ≡ b → (fs ++ (a ∷ [])) ++ ys ≡ fs ++ (b ∷ ys)
one_more fs ys {a} e = append_assoc fs (a ∷ []) ys ∙ ap (λ x. fs ++ (x ∷ ys)) e

-- Each shot is made at the frequency of its rung.
ramp-ran_at :
    (mode : FreqMode) (table : List ℕ) (left i runs : ℕ) (g : Governor) (os : List Shot)
    (fs : List ℕ)
    → g.freq_table ≡ table
    → (ramp scripted mode left i runs g (script os fs)).2.ran_at
      ≡ fs ++ rungs table i (made left os)
unfolding ramp
ramp-ran_at mode table zero i runs g os fs e = sym (append-nil fs)
ramp-ran_at mode table (suc left) i runs g [] fs e =
    let h = set_freq (get_or g.freq_table i 0) g in
    ramp-ran_at mode table left (i + 1) (runs + 1) (set_cur_idx mode i (freq_gov_restore_max h)) []
      (fs ++ (h.last_set_freq ∷ [])) (table_stays mode i g table e)
    ∙ one_more fs (rungs table (i + 1) (made left [])) (at_rung i g table e)
ramp-ran_at mode table (suc left) i runs g (lost ∷ os) fs e =
    ap (λ x. fs ++ (x ∷ [])) (at_rung i g table e)
ramp-ran_at mode table (suc left) i runs g (ran true ∷ os) fs e =
    ap (λ x. fs ++ (x ∷ [])) (at_rung i g table e)
ramp-ran_at mode table (suc left) i runs g (ran false ∷ os) fs e =
    let h = set_freq (get_or g.freq_table i 0) g in
    ramp-ran_at mode table left (i + 1) (runs + 1) (set_cur_idx mode i (freq_gov_restore_max h)) os
      (fs ++ (h.last_set_freq ∷ [])) (table_stays mode i g table e)
    ∙ one_more fs (rungs table (i + 1) (made left os)) (at_rung i g table e)

calibrate_on :
    (mode : FreqMode) (g : Governor) (os : List Shot)
    → g.g_enabled ≡ true
    → freq_gov_calibrate scripted mode g (script os [])
      ≡ ramp scripted mode (freq_table_num g) 0 0 (set_cur_idx mode 0 g) (script os [])
unfolding freq_gov_calibrate
calibrate_on mode g os on =
    ap
      (λ b.
        if not b
        then (0, g, script os [])
        else ramp scripted mode (freq_table_num g) 0 0 (set_cur_idx mode 0 g) (script os []))
      on

-- Calibration, with the governor on, makes its runs at the rungs of the table one after the other
-- from the lowest on, each at the frequency of its rung, until the first run that overflows or
-- fails or the top of the table; and it settles on the highest rung that ran clean, on the lowest
-- one if none did.
pub freq_gov_calibrate-settles :
    (mode : FreqMode) (g : Governor) (os : List Shot)
    → g.g_enabled ≡ true
    → let (runs, g', w) = freq_gov_calibrate scripted mode g (script os []) in
      let clean = clean_prefix (freq_table_num g) os in
      (runs ≡ min (clean + 1) (freq_table_num g))
      × (w.ran_at ≡ take runs g.freq_table)
      × ((stats mode g').cur_idx ≡ clean - 1)
freq_gov_calibrate-settles mode g os on =
    let n = freq_table_num g in
    let start = set_cur_idx mode 0 g in
    let (runs, idx) = ramp-scripted mode n 0 0 start os [] in
    let count : made n os ≡ (ramp scripted mode n 0 0 start (script os [])).0 =
      omega (arith, made-eq n os, runs) in
    rw (calibrate_on mode g os on) (
      omega (arith, runs),
      ramp-ran_at mode g.freq_table n 0 0 start os [] (freq_table-set_cur_idx mode 0 g)
          ∙ rungs-take g.freq_table (made n os) (omega (arith, made-eq n os))
          ∙ ap (λ k. take k g.freq_table) count,
      ground (arith, idx, stats-set_cur_idx mode 0 g),
    )
