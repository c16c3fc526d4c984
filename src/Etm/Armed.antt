-- ===== src/Etm/Armed.antt =====
-- What holds between the windows of a trace session, and in one.
use coresight_trace.Base.{ℕ, ◌<◌, ◌≡◌, refl, Bool, true, false, List, ltb}
use coresight_trace.Etm.Csal.{TraceUnit, Csal, Call, unit_after, collecting}
use coresight_trace.Etm.Commands.{Ensures}
use coresight_trace.Etm.Range.{low_half}
use coresight_trace.Etm.Configure.{Settings}
use coresight_trace.Etm.Paths.{etm_cycled_per_window}
use coresight_trace.Etm.Gate.{Gate, Board, initial, after}

-- What holds of the statics when 0 is returned.
abbrev pub Grants : (Gate → Type 0) → Bool × Gate → Type 0
Grants P (true, g) = P g
Grants P (false, g) = Unit

pub after-Grants :
    (P : List Call → Type 0) (Q : Gate → Type 0) (g : Gate) (r : Bool × List Call)
    → ((cs : List Call) → P cs → Q (record g { calls = cs }))
    → Ensures P r
    → Grants Q (after g r)
after-Grants P Q g (true, cs) k p = k cs p
after-Grants P Q g (false, cs) k p = tt

abbrev pub bb_of : TraceUnit → Bool
bb_of u = u.bb

abbrev pub running_of : TraceUnit → Bool
running_of u = u.running

pub not_set : (b : Bool) → (b ≡ true → false ≡ true) → b ≡ false
not_set true h = cc (h refl)
not_set false h = refl

module _ (csal : Csal) (settings : Settings) (board : Board) where
  -- Between two calls: a unit of the board broadcasts branches only if this was asked for last; once
  -- the units are ours they agree with the request, and run if nothing stops them after a window. The
  -- Stalker decoder agrees with the request too.
  pub record IsSteady (g : Gate) : Type 0 where
    pub asked :
        (j : ℕ) → j < board.n_cpu → (unit_after g.calls j).bb ≡ true → g.current_bb_mode ≡ true
    pub fresh :
        (j : ℕ)
        → j < board.n_cpu
        → g.trace_ever_configured ≡ false
        → (unit_after g.calls j).bb ≡ false
    pub agreed :
        (j : ℕ)
        → j < board.n_cpu
        → g.is_first_trace ≡ false
        → (unit_after g.calls j).bb ≡ g.current_bb_mode
    pub left_on :
        (j : ℕ)
        → j < board.n_cpu
        → g.is_first_trace ≡ false
        → etm_cycled_per_window csal settings ≡ false
        → (unit_after g.calls j).running ≡ true
    pub synced : settings.stalker_decoder ≡ true → g.decoder_bb_mode ≡ g.current_bb_mode
    pub owned : g.is_first_trace ≡ false → g.trace_ever_configured ≡ true

  -- A window is open for a child: the units run, with branch broadcast as it was asked for, and with
  -- the filter they are gated on the child; the decoder expects that mode, and the last sink collects.
  pub record IsArmed (child_pid : ℕ) (g : Gate) : Type 0 where
    pub running : (j : ℕ) → j < board.n_cpu → (unit_after g.calls j).running ≡ true
    pub bb : (j : ℕ) → j < board.n_cpu → (unit_after g.calls j).bb ≡ g.current_bb_mode
    pub gated :
        (j : ℕ)
        → j < board.n_cpu
        → settings.pid_filter ≡ true
        → ltb 0 child_pid ≡ true
        → (unit_after g.calls j).cid ≡ low_half child_pid
    pub decoder : settings.stalker_decoder ≡ true → g.decoder_bb_mode ≡ g.current_bb_mode
    pub sink : collecting g.calls ≡ true

  pub initial-IsSteady : IsSteady initial
  unfolding unit_after
  initial-IsSteady = record {
    asked = λ j lt e. cc;
    fresh = λ j lt e. refl;
    agreed = λ j lt e. cc;
    left_on = λ j lt e c. cc;
    synced = λ e. refl;
    owned = λ e. cc;
  }

  -- Armed, with the statics that go with it.
  pub record IsOpen (child_pid : ℕ) (g : Gate) : Type 0 where
    pub steady : IsSteady g
    pub armed : IsArmed child_pid g
