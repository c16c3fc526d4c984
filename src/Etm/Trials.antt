-- ===== src/Etm/Trials.antt =====
-- The rounds of disable_cs_trace.
use coresight_trace.Base.{
  ℕ, zero, suc, ◌<◌, ◌≡◌, refl, ap, Bool, true, false, List, ◌∷◌, if◌then◌else◌, arith,
}
use coresight_trace.Etm.Csal.{Csal, Call, reset_error_count}
use coresight_trace.Etm.Commands.{Dev}
use coresight_trace.Etm.Configure.{Settings}
use coresight_trace.Etm.Paths.{disable_trace, disable_trace_sinks_only}
use coresight_trace.Etm.Gate.{Gate, Board, try_disable, disable_cs_trace}

-- The calls after `k` rounds that have failed, each with its errors forgotten.
abbrev pub after_rounds : Dev → ℕ → List Call → List Call
after_rounds d zero cs = cs
after_rounds d (suc k) cs = after_rounds d k (reset_error_count ∷ (d cs).1)

-- Whether round `k` returns 0, the ones before it having failed.
abbrev pub round : Dev → ℕ → List Call → Bool
round d k cs = (d (after_rounds d k cs)).0

try_disable-first :
    (d : Dev) (n k : ℕ) (cs : List Call)
    → ((j : ℕ) → j < k → round d j cs ≡ false)
    → k < n
    → round d k cs ≡ true
    → try_disable n d cs ≡ (true, (d (after_rounds d k cs)).1)
unfolding try_disable
try_disable-first d zero k cs failed lt ok = absurd (omega arith)
try_disable-first d (suc n) zero cs failed lt ok = rw ok refl
try_disable-first d (suc n) (suc k) cs failed lt ok = rw (failed 0 (omega arith)) (
    try_disable-first d n k (reset_error_count ∷ (d cs).1) (λ j h. failed (suc j) (omega arith))
      (omega arith) ok)

try_disable-none :
    (d : Dev) (n : ℕ) (cs : List Call)
    → ((j : ℕ) → j < n → round d j cs ≡ false)
    → try_disable n d cs ≡ (false, after_rounds d n cs)
unfolding try_disable
try_disable-none d zero cs failed = refl
try_disable-none d (suc n) cs failed =
    rw (failed 0 (omega arith))
      (try_disable-none d n (reset_error_count ∷ (d cs).1) (λ j h. failed (suc j) (omega arith)))

abbrev pub disabler : Csal → Settings → Board → Bool → Dev
disabler csal settings board disable_all =
    if disable_all
    then disable_trace csal settings board.n_cpu board.num_trace_sinks
    else disable_trace_sinks_only csal settings board.n_cpu board.num_trace_sinks

-- A disable ends with the first round that returns 0, if that is one of the first eight, and returns 0
-- then; if all eight fail it returns an error after the eighth. The errors are forgotten after each
-- round that fails.
pub disable_cs_trace-rounds :
    (csal : Csal) (settings : Settings) (board : Board) (disable_all : Bool) (g : Gate) (k : ℕ)
    → ((j : ℕ) → j < k → round (disabler csal settings board disable_all) j g.calls ≡ false)
    → (k < 8
        → round (disabler csal settings board disable_all) k g.calls ≡ true
        → disable_cs_trace csal settings board disable_all g ≡ (
          true,
          record g {
            calls =
                (disabler csal settings board disable_all
                  (after_rounds (disabler csal settings board disable_all) k g.calls)).1;
          },
        ))
      × (k ≡ 8
          → disable_cs_trace csal settings board disable_all g ≡ (
            false,
            record g { calls = after_rounds (disabler csal settings board disable_all) 8 g.calls },
          ))
unfolding disable_cs_trace
disable_cs_trace-rounds csal settings board disable_all g k failed = (
  λ lt ok.
      ap into
        (try_disable-first (disabler csal settings board disable_all) 8 k g.calls failed lt ok),
  λ e. ap into (
      try_disable-none (disabler csal settings board disable_all) 8 g.calls
        (λ j h. failed j (rw e h))),
)
  where
    into : Bool × List Call → Bool × Gate
    into (ok, cs) = (ok, record g { calls = cs })
