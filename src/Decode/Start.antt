-- ===== src/Decode/Start.antt =====
-- init_trace of src/common.c. What its calls return, and the thread it creates, are arguments.
use coresight_trace.Base.{
  ℕ, zero, suc, Bool, true, false, ◌&&◌, Option, none, some, ◌==◌, if◌then◌else◌,
}
use coresight_trace.Session.Machine.{ready_state, Shared}
use coresight_trace.Decode.Backend.{Build}
use coresight_trace.Decode.Dispatch.{Decoding, init_decoder, stalker_setup}

abbrev pub default_decoder_cpu : ℕ
default_decoder_cpu = 1

-- What init_trace returns: 0, -1, or what pthread_create has returned.
pub data Ret : Type 0 where
  zero_ret minus_one : Ret
  errno : ℕ → Ret

-- `int ret < 0`
abbrev pub is_negative : Ret → Bool
is_negative zero_ret = false
is_negative minus_one = true
is_negative (errno n) = false

-- What the calls return: get_preferred_cpu of the parent and of the child, and find_free_cpu; whether
-- get_udmabuf_info, setup_map_info and setup_named_board succeed; get_trace_id of a CPU; whether memory
-- is there for the map and the images; what pthread_create returns, and whether the thread can be bound
-- to a CPU.
pub record Calls : Type 0 where
  pub preferred_cpu : Option ℕ
  pub free_cpu : Option ℕ
  pub child_cpu : Option ℕ
  pub get_udmabuf_info : Bool
  pub setup_map_info : Bool
  pub setup_named_board : Bool
  pub get_trace_id : ℕ → Option ℕ
  pub malloc_map : Bool
  pub malloc_img : Bool
  pub pthread_create : ℕ
  pub set_pthread_cpu_affinity : Bool

-- `decoder_thread` is the CPU chosen for the thread of the decoder, once that is created, and
-- `bound_cpu` the one that the thread is bound to.
pub record Tracer (D : Type 0) : Type 0 where
  pub trace_cpu : Option ℕ
  pub trace_id : Option ℕ
  pub shared : Shared
  pub decoding : Decoding D
  pub decoder_thread : Option ℕ
  pub bound_cpu : Option ℕ
  pub shutdowns : ℕ

-- `(preferred_cpu = find_free_cpu() < 0)`: the comparison is what is assigned.
abbrev pub compared : Option ℕ → ℕ
compared none = 1
compared (some cpu) = 0

abbrev pub preferred : Option ℕ → Option ℕ → ℕ
preferred (some cpu) free = cpu
preferred none free = compared free

abbrev pub choose_trace_cpu : Option ℕ → Calls → ℕ
choose_trace_cpu (some cpu) w = cpu
choose_trace_cpu none w = preferred w.preferred_cpu w.free_cpu

abbrev pub choose_decoder_cpu : Option ℕ → ℕ → ℕ
choose_decoder_cpu none trace_cpu = default_decoder_cpu
choose_decoder_cpu (some cpu) trace_cpu = if cpu == trace_cpu then default_decoder_cpu else cpu

module _ {D : Type 0} where
  -- The exit with an error.
  abbrev pub shut_down : Ret → Tracer D → Ret × Tracer D
  shut_down r t = (r, record t { shutdowns = suc t.shutdowns })

  abbrev pub ready : Tracer D → Ret × Tracer D
  ready t = (zero_ret, record t { shared = record t.shared { trace_state = ready_state } })

  -- From pthread_create on.
  abbrev pub started : ℕ → Calls → ℕ → Tracer D → Ret × Tracer D
  started zero w cpu t =
      let decoder_cpu = choose_decoder_cpu w.child_cpu cpu in
      ready (record t {
        decoder_thread = some decoder_cpu;
        bound_cpu = if w.set_pthread_cpu_affinity then some decoder_cpu else none;
      })
  started (suc n) w cpu t = shut_down (errno (suc n)) t

  abbrev pub create_thread : Calls → ℕ → Bool × Decoding D → Tracer D → Ret × Tracer D
  create_thread w cpu (false, d) t = shut_down minus_one (record t { decoding = d })
  create_thread w cpu (true, d) t =
      started w.pthread_create w cpu
        (record t { decoding = d; shared = record t.shared { decoder_ready = false } })

  abbrev pub with_decoder : Build D → Calls → ℕ → ℕ → Decoding D → Tracer D → Ret × Tracer D
  with_decoder build w cpu trace_id d t =
      if d.decoder
      then create_thread w cpu (stalker_setup build trace_id d) t
      else shut_down minus_one (record t { decoding = d })

  abbrev pub with_id : Build D → Calls → Bool → ℕ → Option ℕ → Tracer D → Ret × Tracer D
  with_id build w decoding_on cpu none t = shut_down minus_one (record t { trace_id = none })
  with_id build w decoding_on cpu (some id) t =
      let identified = record t { trace_id = some id } in
      if decoding_on
      then with_decoder build w cpu id (init_decoder build w.malloc_map w.malloc_img t.decoding)
          identified
      else ready identified

  unfoldable pub init_trace : Build D → Calls → Bool → Tracer D → Ret × Tracer D
  init_trace build w decoding_on t =
      let cpu = choose_trace_cpu t.trace_cpu w in
      let bound = record t { trace_cpu = some cpu } in
      if w.get_udmabuf_info && (w.setup_map_info && w.setup_named_board)
      then with_id build w decoding_on cpu (w.get_trace_id cpu) bound
      else shut_down minus_one bound
