-- ===== src/Forksrv/Samples.antt =====
-- A child that stops, is drained once and exits, after a fork that is tried twice.
use coresight_trace.Base.{ℕ, refl, true, some, [], ◌∷◌, arith}
use coresight_trace.Forksrv.Server.{child, again, Server}
use coresight_trace.Forksrv.Served.{IsServing}

abbrev pub stop : ℕ
stop = 0x137f

abbrev pub server : Server
server = record {
  sent = 0 ∷ [];
  reads = true ∷ true ∷ [];
  forks = again ∷ child 77 ∷ [];
  waits = some stop ∷ some stop ∷ some 256 ∷ [];
  writes = true ∷ true ∷ true ∷ [];
}

abbrev pub served : Server
served = record {
  sent = 0 ∷ 77 ∷ stop ∷ 256 ∷ [];
  reads = true ∷ [];
  forks = [];
  waits = [];
  writes = [];
}

pub serving : IsServing 77 (stop ∷ 256 ∷ []) server served
serving = record {
  tries = 1;
  few = omega arith;
  forks = refl;
  reads = refl;
  stop = stop;
  stopped = refl;
  waits = refl;
  writes = refl;
}
