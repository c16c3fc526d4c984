-- ===== src/Proxy/State.antt =====
-- The state of src/cs-proxy.c and the world it works in, with commands that may end early. What
-- the proxy reads from its pipes and what its calls return are supplies that the commands use up: a
-- read from a supply that is empty fails. `sent` is what afl-fuzz has been written, the newest first.
use coresight_trace.Base.{ℕ, ◌/◌, ◌%◌, ltb, ◌==◌, Bool, ◌&&◌, Option, List, [], ◌∷◌, if◌then◌else◌}
use coresight_trace.FreqGov.Governor.{Governor}
use coresight_trace.Hybrid.State.{Hybrid}

pub data CovType : Type 0 where
  edge_cov path_cov hybrid_cov : CovType

-- A status that the wait for the child reads, with what `trace_did_overflow` says of the trace and
-- the map as it is decoded when the status is not a suspension.
pub record Wait : Type 0 where
  pub code : ℕ
  pub overflowed : Bool
  pub bitmap : List ℕ

-- `WIFSTOPPED(status) && WSTOPSIG(status) == SIGSTOP`, and `WIFSIGNALED(status)`.
abbrev pub is_suspended : ℕ → Bool
is_suspended code = (code % 256 == 127) && (code / 256 % 256 == 19)

abbrev pub is_signaled : ℕ → Bool
is_signaled code = ltb 0 (code % 128) && ltb (code % 128) 127

-- A message on the outer pipe.
pub data Sent : Type 0 where
  pid status : ℕ → Sent

pub record Proxy : Type 0 where
  pub cov_type : CovType
  pub decoding_on : Bool
  pub first_run : Bool
  pub needs_calibration : Bool
  pub needs_bb_enable : Bool
  pub bb_mode : Bool
  pub hybrid_sample : ℕ
  pub hybrid_discards : ℕ
  pub total_exec_count : ℕ
  pub overflow_exec_count : ℕ
  pub trace_bitmap : List ℕ
  pub trace_bitmap_size : ℕ
  pub did_overflow : Bool
  pub gov : Governor
  pub hybrid : Hybrid
  pub input : Option (List ℕ)
  pub sent : List Sent
  pub forks : ℕ
  pub pids : List ℕ
  pub waits : List Wait
  pub answers : List Bool

-- A command returns a value, returns a negative number, ends the process, or has run out of fuel.
pub data Answer (A : Type 0) : Type 0 where
  value : A → Answer A
  negative : Answer A
  fatal : Answer A
  out_of_fuel : Answer A

abbrev pub Cmd : Type 0 → Type 0
Cmd A = Proxy → Answer A × Proxy

abbrev pub pure : {A : Type 0} → A → Cmd A
pure a s = (value a, s)

module _ {A B : Type 0} where
  abbrev pub and_then : Answer A → Proxy → (A → Cmd B) → Answer B × Proxy
  and_then (value a) s k = k a s
  and_then negative s k = (negative, s)
  and_then fatal s k = (fatal, s)
  and_then out_of_fuel s k = (out_of_fuel, s)

  infixl 5 ◌>>=◌ ◌>>◌
  unfoldable pub ◌>>=◌ : Cmd A → (A → Cmd B) → Cmd B
  (m >>= k) s = and_then (m s).0 (m s).1 k

  abbrev pub ◌>>◌ : Cmd A → Cmd B → Cmd B
  m >> n = m >>= λ _. n

abbrev pub gets : {A : Type 0} → (Proxy → A) → Cmd A
gets f s = (value (f s), s)

abbrev pub modify : (Proxy → Proxy) → Cmd (Unit {0})
modify f s = (value tt, f s)

abbrev pub govern : (Governor → Governor) → Cmd (Unit {0})
govern f = modify (λ s. record s { gov = f s.gov })

-- A call that may fail, `if (... < 0) return -1`.
abbrev pub check_with : List Bool → Cmd (Unit {0})
check_with [] s = (negative, s)
check_with (ok ∷ rest) s = (if ok then value tt else negative, record s { answers = rest })

unfoldable pub check : Cmd (Unit {0})
check s = check_with s.answers s

-- `FATAL` where a call fails.
abbrev pub or_fatal : Answer (Unit {0}) × Proxy → Answer (Unit {0}) × Proxy
or_fatal (negative, s) = (fatal, s)
or_fatal (r, s) = (r, s)

abbrev pub send : Sent → Cmd (Unit {0})
send m = do check; modify (λ s. record s { sent = m ∷ s.sent })
