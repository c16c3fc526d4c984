-- ===== src/Decode/Started.antt =====
-- What init_trace leaves for the sessions of src/common.c.
use mathlib.Core.Path.{subst}
use coresight_trace.Base.{
  ℕ, zero, suc, ◌≡◌, ◌≢◌, ◌⊎◌, refl, sym, ap, ◌∙◌, Bool, true, false, ◌&&◌, Option, none, some,
  ◌==◌, Bool-cases, inl, inr, if◌then◌else◌, arith,
}
use coresight_trace.Session.Machine.{
  init_state, ready_state, Shared, idle, Decoder, awaiting, ended, Machine, initialised,
}
use coresight_trace.Decode.Backend.{Build, stalker_decoder, coresight_decoder}
use coresight_trace.Decode.Dispatch.{Decoding, init_decoder, stalker_setup, take_setup}
use coresight_trace.Decode.Start.{
  Ret, zero_ret, minus_one, errno, Calls, Tracer, choose_trace_cpu, choose_decoder_cpu, shut_down,
  started, create_thread, with_decoder, with_id, init_trace,
}

-- The statics of src/common.c as the program is loaded.
abbrev pub loaded : Shared
loaded = record initialised.shared { trace_state = init_state; decoder_ready = true }

abbrev pub thread_of : Option ℕ → Decoder
thread_of none = ended
thread_of (some cpu) = awaiting

-- The two threads after init_trace; one that is not created takes no step.
abbrev pub machine_of : {D : Type 0} → Tracer D → Machine
machine_of t = record { caller = idle; decoder = thread_of t.decoder_thread; shared = t.shared }

-- The decoder has another CPU than the traced program, or CPU 1.
abbrev pub IsApart : Option ℕ → Option ℕ → Type 0
IsApart (some c) (some d) = (d ≢ c) ⊎ (d ≡ 1)
IsApart _ _ = ⊥

choose_decoder_cpu-IsApart :
    (child_cpu : Option ℕ) (cpu : ℕ) → IsApart (some cpu) (some (choose_decoder_cpu child_cpu cpu))
choose_decoder_cpu-IsApart none cpu = inr refl
choose_decoder_cpu-IsApart (some c) cpu = elim (Bool-cases (c == cpu)) [
  | inl e ↦ rw e (inr refl)
  | inr e ↦ rw e (inl (λ same. ground arith))
]

bound_or_not :
    (b : Bool) (c : ℕ)
    → ((if b then some c else none) ≡ some c) ⊎ ((if b then some c else none) ≡ none)
bound_or_not true c = inl refl
bound_or_not false c = inr refl

abbrev unready : Shared → Shared
unready s = record s { decoder_ready = false }

module _ {D : Type 0} where
  -- How init_trace can end, from a state with so many shutdowns.
  abbrev pub Started : ℕ → Ret × Tracer D → Type 0
  Started n (zero_ret, u) =
      (machine_of u ≡ initialised)
      × (u.decoding.decoder ≡ true)
      × IsApart u.trace_cpu u.decoder_thread
      × ((u.bound_cpu ≡ u.decoder_thread) ⊎ (u.bound_cpu ≡ none))
      × (u.shutdowns ≡ n)
  Started n (minus_one, u) = (u.shared ≡ loaded) × (u.decoder_thread ≡ none) × (u.shutdowns ≡ suc n)
  Started n (errno k, u) =
      (u.shared ≡ record loaded { decoder_ready = false })
      × (u.decoder_thread ≡ none)
      × (u.shutdowns ≡ suc n)

  shut_down-Started :
      (t : Tracer D)
      → t.shared ≡ loaded
      → t.decoder_thread ≡ none
      → Started t.shutdowns (shut_down minus_one t)
  shut_down-Started t e unmade = (e, unmade, refl)

  started-Started :
      (create : ℕ) (w : Calls) (cpu : ℕ) (t : Tracer D)
      → t.trace_cpu ≡ some cpu
      → t.decoding.decoder ≡ true
      → t.shared ≡ record loaded { decoder_ready = false }
      → t.decoder_thread ≡ none
      → Started t.shutdowns (started create w cpu t)
  started-Started zero w cpu t bound on e unmade = (
    ap (λ s. record initialised { shared = record s { trace_state = ready_state } }) e,
    on,
    subst (λ c. IsApart c (some (choose_decoder_cpu w.child_cpu cpu))) (sym bound)
        (choose_decoder_cpu-IsApart w.child_cpu cpu),
    bound_or_not w.set_pthread_cpu_affinity (choose_decoder_cpu w.child_cpu cpu),
    refl,
  )
  started-Started (suc n) w cpu t bound on e unmade = (e, unmade, refl)

  create_thread-Started :
      (w : Calls) (cpu : ℕ) (r : Bool × Decoding D) (t : Tracer D)
      → t.trace_cpu ≡ some cpu
      → r.1.decoder ≡ true
      → t.shared ≡ loaded
      → t.decoder_thread ≡ none
      → Started t.shutdowns (create_thread w cpu r t)
  create_thread-Started w cpu (false, d) t bound on e unmade = (e, unmade, refl)
  create_thread-Started w cpu (true, d) t bound on e unmade =
      started-Started w.pthread_create w cpu
        (record t { decoding = d; shared = record t.shared { decoder_ready = false } }) bound on
        (ap unready e) unmade

  stalker_setup-decoder :
      (build : Build D) (trace_id : ℕ) (d : Decoding D)
      → (stalker_setup build trace_id d).1.decoder ≡ d.decoder
  unfolding stalker_setup
  stalker_setup-decoder (stalker_decoder st) trace_id d = by_init (st.decoder_init d.lib)
    where
      by_init : (r : Bool × D) → (take_setup st trace_id d r).1.decoder ≡ d.decoder
      by_init (true, l) = refl
      by_init (false, l) = refl
  stalker_setup-decoder (coresight_decoder lib) trace_id d = refl

  with_decoder-Started :
      (build : Build D) (w : Calls) (cpu trace_id : ℕ) (d : Decoding D) (t : Tracer D)
      → t.trace_cpu ≡ some cpu
      → t.shared ≡ loaded
      → t.decoder_thread ≡ none
      → Started t.shutdowns (with_decoder build w cpu trace_id d t)
  with_decoder-Started build w cpu trace_id d t bound e unmade = by_decoder d.decoder refl
    where
      by_decoder :
          (b : Bool)
          → d.decoder ≡ b
          → Started t.shutdowns (
              if b
              then create_thread w cpu (stalker_setup build trace_id d) t
              else shut_down minus_one (record t { decoding = d }))
      by_decoder true on =
          create_thread-Started w cpu (stalker_setup build trace_id d) t bound
            (stalker_setup-decoder build trace_id d ∙ on) e unmade
      by_decoder false off = (e, unmade, refl)

  with_id-Started :
      (build : Build D) (w : Calls) (cpu : ℕ) (id : Option ℕ) (t : Tracer D)
      → t.trace_cpu ≡ some cpu
      → t.shared ≡ loaded
      → t.decoder_thread ≡ none
      → Started t.shutdowns (with_id build w true cpu id t)
  with_id-Started build w cpu none t bound e unmade = (e, unmade, refl)
  with_id-Started build w cpu (some id) t bound e unmade =
      with_decoder-Started build w cpu id (init_decoder build w.malloc_map w.malloc_img t.decoding)
        (record t { trace_id = some id }) bound e unmade

  -- With decoding on, init_trace from the state that the program is loaded in ends in one of three
  -- ways. It returns 0: then the two threads stand where a first session can start, there is a decoder,
  -- the CPU chosen for its thread is another one than the traced program's or CPU 1, the thread is
  -- bound to it or to none, and nothing is shut down. It returns
  -- -1: then CoreSight is shut down once, the thread is not there, and what the threads share has not
  -- moved. Or it returns what pthread_create has failed with: then it is as with -1, but that the
  -- decoder is marked as not ready.
  pub init_trace-Started :
      (build : Build D) (w : Calls) (t : Tracer D)
      → t.shared ≡ loaded
      → t.decoder_thread ≡ none
      → Started t.shutdowns (init_trace build w true t)
  unfolding init_trace
  init_trace-Started build w t e unmade =
      by_calls (w.get_udmabuf_info && (w.setup_map_info && w.setup_named_board))
    where
      cpu : ℕ
      cpu = choose_trace_cpu t.trace_cpu w

      bound : Tracer D
      bound = record t { trace_cpu = some cpu }

      by_calls :
          (b : Bool)
          → Started t.shutdowns (
              if b
              then with_id build w true cpu (w.get_trace_id cpu) bound
              else shut_down minus_one bound)
      by_calls true = with_id-Started build w cpu (w.get_trace_id cpu) bound refl e unmade
      by_calls false = (e, unmade, refl)
