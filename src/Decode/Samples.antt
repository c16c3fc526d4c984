-- ===== src/Decode/Samples.antt =====
-- A decoder whose state is its counter, and which finds as many packets as the first byte says.
use coresight_trace.Base.{ℕ, ◌+◌, refl, true, false, none, some, List, [], ◌∷◌, arith}
use coresight_trace.Proxy.State.{edge_cov}
use coresight_trace.Decode.Backend.{Libcsdec, Build, coresight_decoder, Counts}
use coresight_trace.Decode.Dispatch.{Decoding}
use coresight_trace.Decode.Start.{Calls, Tracer, init_trace}
use coresight_trace.Decode.Started.{loaded}
use coresight_trace.Session.Machine.{Action, caller_goes, child_dies}

abbrev pub packets : List ℕ → ℕ
packets [] = 0
packets (n ∷ rest) = n

abbrev pub counter : Libcsdec ℕ
counter = record {
  init = λ cov d. (true, d);
  reset = λ cov d. (true, d);
  run = λ cov buf bitmap d. (true, bitmap, d + packets buf);
  finish = λ cov d. d;
  overflow_packets = λ d. d;
}

abbrev pub build : Build ℕ
build = coresight_decoder counter

pub counter-Counts : Counts counter
counter-Counts = record {
  run_counts = λ cov buf bitmap d. omega arith;
  reset_counts = λ cov d. refl;
}

-- Three packets have been seen before.
abbrev pub decoding : Decoding ℕ
decoding = record {
  decoder = true;
  has_bitmap = true;
  mem_img = true;
  mem_map = true;
  cov_type = edge_cov;
  trace_bitmap = 0 ∷ 0 ∷ [];
  trace_overflow_occurred = true;
  seen_overflow_packets = 3;
  lib = 3;
}

abbrev pub tracer : Tracer ℕ
tracer = record {
  trace_cpu = none;
  trace_id = none;
  shared = loaded;
  decoding = record decoding { decoder = false; has_bitmap = false; mem_img = false };
  decoder_thread = none;
  bound_cpu = none;
  shutdowns = 0;
}

-- All goes well, but no CPU is preferred.
abbrev pub calls : Calls
calls = record {
  preferred_cpu = none;
  free_cpu = some 5;
  child_cpu = some 2;
  get_udmabuf_info = true;
  setup_map_info = true;
  setup_named_board = true;
  get_trace_id = λ cpu. some 16;
  malloc_map = true;
  malloc_img = true;
  pthread_create = 0;
  set_pthread_cpu_affinity = true;
}

-- EAGAIN
abbrev pub no_thread : Calls
no_thread = record calls { pthread_create = 11 }

abbrev pub left : Tracer ℕ
left = (init_trace build no_thread true tracer).1

-- A first session up to the wait of stop_trace.
abbrev pub first_session : List Action
first_session =
    caller_goes true
    ∷ caller_goes true
    ∷ caller_goes true
    ∷ caller_goes true
    ∷ caller_goes true
    ∷ caller_goes true
    ∷ child_dies
    ∷ caller_goes true
    ∷ caller_goes true
    ∷ caller_goes true
    ∷ []
