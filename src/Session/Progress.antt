-- ===== src/Session/Progress.antt =====
-- A stop does return: the decoder comes to its end by itself.
use coresight_trace.Base.{
  ℕ, ◌-◌, ◌≤◌, length, ◌≡◌, true, false, List, [], ◌∷◌, if◌then◌else◌, arith,
}
use coresight_trace.Session.Machine.{
  Shared, Caller, idle, waiting, Decoder, awaiting, entering, polling, killed, final, leaving,
  Outcome, caller_step, decoder_step, initialised, Action, caller_goes, decoder_goes, step, run,
}
use coresight_trace.Session.Fits.{failures, Fits, initialised-IsTogether}
use coresight_trace.Session.Returns.{stands}

-- The decoder's thread goes on its own for as many steps as there are outcomes of its calls.
abbrev pub decoder_alone : List Outcome → List Action
decoder_alone [] = []
decoder_alone (o ∷ os) = decoder_goes o true ∷ decoder_alone os

-- The steps that the decoder has left until it says that it is ready.
abbrev left : Decoder → Shared → ℕ
left awaiting s = if s.start_pending then 6 else 0
left entering s = 5
left polling s = 4
left killed s = 3
left final s = 2
left leaving s = 1
left _ s = 0

decoder_step-left :
    (d : Decoder) (o : Outcome) (s : Shared)
    → Fits waiting d s
    → s.alive ≡ false
    → Fits waiting (decoder_step false d o true s).0 (decoder_step false d o true s).1
      × (left (decoder_step false d o true s).0 (decoder_step false d o true s).1 ≡ left d s - 1)
      × ((decoder_step false d o true s).1.alive ≡ false)
unfolding decoder_step
decoder_step-left awaiting o s h dead = ground arith
decoder_step-left d o s h dead = ground arith

decoder_alone-returns :
    (os : List Outcome) (d : Decoder) (s : Shared)
    → Fits waiting d s
    → s.alive ≡ false
    → left d s ≤ length os
    → (step false (caller_goes true) (run false (decoder_alone os) (stands waiting d s))).caller
      ≡ idle
unfolding run step caller_step
decoder_alone-returns [] awaiting s h dead le = ground arith
decoder_alone-returns [] d s h dead le = ground arith
decoder_alone-returns (o ∷ os) d s h dead le =
    let (fits, less, gone) = decoder_step-left d o s h dead in
    decoder_alone-returns os (decoder_step false d o true s).0 (decoder_step false d o true s).1
      fits gone (omega arith)

left-le : (d : Decoder) (s : Shared) → left d s ≤ 6
left-le awaiting s = ground arith
left-le d s = omega arith

at_waiting :
    (os : List Outcome) (c : Caller) (d : Decoder) (s : Shared)
    → c ≡ waiting
    → Fits c d s
    → s.alive ≡ false
    → 6 ≤ length os
    → (step false (caller_goes true) (run false (decoder_alone os) (stands c d s))).caller ≡ idle
at_waiting os waiting d s at h dead many =
    decoder_alone-returns os d s h dead (omega (arith, left-le d s))
at_waiting os c d s at h dead many = cc

-- In the build for the Stalker decoder, if no start and no stop has failed and the child is dead, a stop
-- that waits does return: six steps of the decoder's thread are enough from wherever it stands,
-- however its calls and the decode end.
pub stop_trace-returns :
    (actions : List Action) (os : List Outcome)
    → failures (run false actions initialised).shared ≡ 0
    → (run false actions initialised).caller ≡ waiting
    → (run false actions initialised).shared.alive ≡ false
    → 6 ≤ length os
    → (step false
        (caller_goes true)
        (run false (decoder_alone os) (run false actions initialised))).caller
      ≡ idle
stop_trace-returns actions os none at dead many =
    at_waiting os (run false actions initialised).caller (run false actions initialised).decoder
      (run false actions initialised).shared at (initialised-IsTogether actions none) dead many
