-- ===== src/FreqGov/Sysfs.antt =====
-- The cpufreq files that src/freq_gov.c writes, and what the kernel does with a write.
use coresight_trace.Base.{
  ℕ, ◌≤◌, ◌≡◌, refl, List, [], ◌∷◌, ◌++◌, leb, Bool-cases, inl, inr, if◌then◌else◌, arith,
}
use Prim.Native.String.{String}
use text.Mathlib.Text.{◌==◌ as str_eq}

-- The files below /sys/devices/system/cpu/cpuN/cpufreq that are written.
pub data SysfsFile : Type 0 where
  scaling_min_freq scaling_max_freq scaling_setspeed scaling_governor : SysfsFile

-- What `write_sysfs` formats as %llu, and what `write_sysfs_str` passes on.
pub data Content : Type 0 where
  num : ℕ → Content
  str : String → Content

pub record Write : Type 0 where
  pub file : SysfsFile
  pub content : Content

abbrev pub write_sysfs : SysfsFile → ℕ → Write
write_sysfs f v = record { file = f; content = num v }

abbrev pub write_sysfs_str : SysfsFile → String → Write
write_sysfs_str f s = record { file = f; content = str s }

-- The cpufreq policy of the kernel, which the program only writes to. It keeps a lower bound, an
-- upper bound, a governor and, under the governor userspace only, a speed. A bound that would cross
-- the other one is refused; what is accepted is stored, and the rest stays as it is. The governor
-- userspace is there to be chosen.
pub record Cpufreq : Type 1 where
  pub Policy : Type 0
  pub min_of : Policy → ℕ
  pub max_of : Policy → ℕ
  pub governor_of : Policy → String
  pub speed_of : Policy → ℕ
  pub accept : Policy → Write → Policy
  pub min_accepted :
      (p : Policy) (v : ℕ)
      → v ≤ max_of p
      → (min_of (accept p (write_sysfs scaling_min_freq v)) ≡ v)
        × (max_of (accept p (write_sysfs scaling_min_freq v)) ≡ max_of p)
  pub max_accepted :
      (p : Policy) (v : ℕ)
      → min_of p ≤ v
      → (max_of (accept p (write_sysfs scaling_max_freq v)) ≡ v)
        × (min_of (accept p (write_sysfs scaling_max_freq v)) ≡ min_of p)
  pub speed_accepted :
      (p : Policy) (v : ℕ)
      → governor_of p ≡ "userspace"
      → min_of p ≤ v
      → v ≤ max_of p
      → speed_of (accept p (write_sysfs scaling_setspeed v)) ≡ v
  pub speed_keeps_bounds :
      (p : Policy) (v : ℕ)
      → (min_of (accept p (write_sysfs scaling_setspeed v)) ≡ min_of p)
        × (max_of (accept p (write_sysfs scaling_setspeed v)) ≡ max_of p)
  pub number_keeps_governor :
      (p : Policy) (f : SysfsFile) (v : ℕ)
      → governor_of (accept p (write_sysfs f v)) ≡ governor_of p
  pub userspace_accepted :
      (p : Policy)
      → governor_of (accept p (write_sysfs_str scaling_governor "userspace")) ≡ "userspace"
  pub governor_keeps_bounds :
      (p : Policy) (s : String)
      → (min_of (accept p (write_sysfs_str scaling_governor s)) ≡ min_of p)
        × (max_of (accept p (write_sysfs_str scaling_governor s)) ≡ max_of p)

module _ (c : Cpufreq) where
  open c use {Policy, accept}

  -- The writes one after the other.
  abbrev pub replay : Policy → List Write → Policy
  replay p [] = p
  replay p (w ∷ ws) = replay (accept p w) ws

  pub replay-append :
      (p : Policy) (xs ys : List Write) → replay p (xs ++ ys) ≡ replay (replay p xs) ys
  replay-append p [] ys = refl
  replay-append p (x ∷ xs) ys = replay-append (accept p x) xs ys

-- A policy that keeps the rules: the one that refuses what would cross the other bound.
pub record Bounds : Type 0 where
  pub low : ℕ
  pub high : ℕ
  pub governor : String
  pub speed : ℕ

abbrev pub strict : Bounds → SysfsFile → Content → Bounds
strict p scaling_min_freq (num v) = if leb v p.high then record p { low = v } else p
strict p scaling_max_freq (num v) = if leb p.low v then record p { high = v } else p
strict p scaling_setspeed (num v) =
    if str_eq p.governor "userspace" then record p { speed = v } else p
strict p scaling_governor (str s) = record p { governor = s }
strict p _ _ = p

pub strict_min :
    (p : Bounds) (v : ℕ)
    → v ≤ p.high
    → ((strict p scaling_min_freq (num v)).low ≡ v)
      × ((strict p scaling_min_freq (num v)).high ≡ p.high)
strict_min p v h = ground arith

pub strict_max :
    (p : Bounds) (v : ℕ)
    → p.low ≤ v
    → ((strict p scaling_max_freq (num v)).high ≡ v)
      × ((strict p scaling_max_freq (num v)).low ≡ p.low)
strict_max p v h = ground arith

pub strict_speed :
    (p : Bounds) (v : ℕ) → p.governor ≡ "userspace" → (strict p scaling_setspeed (num v)).speed ≡ v
strict_speed p v h = rw h refl

pub strict_number :
    (p : Bounds) (f : SysfsFile) (v : ℕ) → (strict p f (num v)).governor ≡ p.governor
strict_number p scaling_min_freq v = ground arith
strict_number p scaling_max_freq v = ground arith
strict_number p scaling_setspeed v = elim (Bool-cases (str_eq p.governor "userspace")) [
  | inl user ↦ rw user refl
  | inr other ↦ rw other refl
]
strict_number p scaling_governor v = refl

pub strict_speed_bounds :
    (p : Bounds) (v : ℕ)
    → ((strict p scaling_setspeed (num v)).low ≡ p.low)
      × ((strict p scaling_setspeed (num v)).high ≡ p.high)
strict_speed_bounds p v = elim (Bool-cases (str_eq p.governor "userspace")) [
  | inl user ↦ rw user (refl, refl)
  | inr other ↦ rw other (refl, refl)
]

abbrev pub strict_cpufreq : Cpufreq
strict_cpufreq = record {
  Policy = Bounds;
  min_of = λ p. p.low;
  max_of = λ p. p.high;
  speed_of = λ p. p.speed;
  accept = λ p w. strict p w.file w.content;
  min_accepted = strict_min;
  max_accepted = strict_max;
  governor_of = λ p. p.governor;
  speed_accepted = λ p v user _ _. strict_speed p v user;
  speed_keeps_bounds = strict_speed_bounds;
  number_keeps_governor = strict_number;
  userspace_accepted = λ p. refl;
  governor_keeps_bounds = λ p s. (refl, refl);
}
