-- ===== src/Proxy/Main.antt =====
-- The loop of `main`, src/cs-proxy.c, as it is built with the Stalker decoder.
use coresight_trace.Base.{ℕ, zero, suc, Bool}
use coresight_trace.FreqGov.Governor.Init.{Found}
use coresight_trace.Proxy.State.{Answer, value, negative, fatal, out_of_fuel, Cmd, ◌>>◌}
use coresight_trace.Proxy.TestCase.{run_testcase, next_testcase}

-- `__afl_next_testcase() > 0`: the result is a u32, so a PID other than 0 goes on, and the 1 and the -1
-- of a failure do as well.
abbrev pub if_positive : Answer ℕ → Cmd (Unit {0}) → Cmd (Unit {0})
if_positive (value zero) body s = (value tt, s)
if_positive (value (suc n)) body s = body s
if_positive negative body s = body s
if_positive fatal body s = (fatal, s)
if_positive out_of_fuel body s = (out_of_fuel, s)

module _ (rescale : ℕ → ℕ → ℕ → ℕ) (found : Found) (gov_off : Bool) where
  -- So many rounds of the loop.
  unfoldable pub main_loop : ℕ → Cmd (Unit {0})
  main_loop zero s = (out_of_fuel, s)
  main_loop (suc n) s =
      let (r, t) = next_testcase rescale found gov_off s in
      if_positive r (run_testcase rescale >> main_loop n) t
