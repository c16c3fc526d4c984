-- ===== src/Session/Returns.antt =====
-- A stop returns after the trace of its own start has been decoded, and not before.
use coresight_trace.Base.{◌≡◌, ◌+◌, false}
use coresight_trace.Session.Machine.{Shared, Caller, Decoder, awaiting, Machine}
use coresight_trace.Session.Fits.{Fits}

-- All that was started is decoded, or its decode has failed, the decoder waits for the next start, and no event is left over.
abbrev pub IsSettled : Machine → Type 0
IsSettled m =
    (m.shared.decoded + m.shared.undecoded ≡ m.shared.started)
    × (m.decoder ≡ awaiting)
    × (m.shared.start_pending ≡ false)
    × (m.shared.stop_pending ≡ false)

abbrev pub stands : Caller → Decoder → Shared → Machine
stands c d s = record { caller = c; decoder = d; shared = s }
