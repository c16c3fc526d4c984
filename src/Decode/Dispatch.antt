-- ===== src/Decode/Dispatch.antt =====
-- init_decoder, reset_decoder, run_decoder, fini_decoder and the flag of src/common.c, with the
-- stalker_ functions of src/stalker.c.
use coresight_trace.Base.{ℕ, Bool, true, false, ◌||◌, not, List, [], ◌∷◌, ◌==◌, if◌then◌else◌}
use coresight_trace.Proxy.State.{CovType, edge_cov, path_cov, hybrid_cov}
use coresight_trace.Decode.Backend.{Libcsdec, Stalker, Build, stalker_decoder, coresight_decoder}

-- The statics. `decoder` is whether there is one; the next three are whether a buffer is allocated.
pub record Decoding (D : Type 0) : Type 0 where
  pub decoder : Bool
  pub has_bitmap : Bool
  pub mem_img : Bool
  pub mem_map : Bool
  pub cov_type : CovType
  pub trace_bitmap : List ℕ
  pub trace_overflow_occurred : Bool
  pub seen_overflow_packets : ℕ
  pub lib : D

-- The switches over cov_type.
abbrev pub switch : {A : Type 0} → CovType → A → A → A
switch edge_cov known default = known
switch path_cov known default = known
switch hybrid_cov known default = default

module _ {D : Type 0} where
  abbrev pub take_reset : Decoding D → Bool × D → Bool × Decoding D
  take_reset d (ok, l) = (ok, record d { lib = l })

  -- The call of a decoder, with the flag cleared.
  abbrev pub reset_library : Libcsdec D → Decoding D → Bool × Decoding D
  reset_library lib d =
      let cleared = record d { mem_map = true; trace_overflow_occurred = false } in
      switch d.cov_type (take_reset cleared (lib.reset d.cov_type d.lib)) (false, cleared)

  abbrev pub reset_of : Build D → Bool → Decoding D → Bool × Decoding D
  reset_of (stalker_decoder st) malloc d = (true, record d { trace_overflow_occurred = false })
  reset_of (coresight_decoder lib) malloc d =
      if d.mem_map || malloc then reset_library lib d else (false, d)

  -- `malloc` is whether an allocation succeeds.
  unfoldable pub reset_decoder : Build D → Bool → Decoding D → Bool × Decoding D
  reset_decoder build malloc d = if d.decoder then reset_of build malloc d else (false, d)

  -- `stalker_run`: the flag is looked at after a decode that succeeds, and is then an error.
  abbrev pub stalker_run : Stalker D → Decoding D → Bool × List ℕ × D → Bool × Bool × Decoding D
  stalker_run st d (false, bitmap, l) = (false, false, record d { trace_bitmap = bitmap; lib = l })
  stalker_run st d (true, bitmap, l) =
      (not (st.did_overflow l), st.did_overflow l, record d { trace_bitmap = bitmap; lib = l })

  abbrev pub note_overflow : Bool × Bool × Decoding D → Bool × Decoding D
  note_overflow (ok, overflow, d) =
      (ok, record d { trace_overflow_occurred = overflow || d.trace_overflow_occurred })

  -- The comparison with the packets seen before.
  abbrev pub count_overflow : Libcsdec D → Decoding D → Bool × List ℕ × D → Bool × Decoding D
  count_overflow lib d (ok, bitmap, l) = (
    ok,
    record d {
      trace_bitmap = bitmap;
      trace_overflow_occurred =
          not (lib.overflow_packets l == d.seen_overflow_packets) || d.trace_overflow_occurred;
      seen_overflow_packets = lib.overflow_packets l;
      lib = l;
    },
  )

  abbrev pub run_of : Build D → List ℕ → Decoding D → Bool × Decoding D
  run_of (stalker_decoder st) buf d =
      note_overflow (stalker_run st d (st.decode buf d.trace_bitmap d.lib))
  run_of (coresight_decoder lib) buf d =
      switch d.cov_type (count_overflow lib d (lib.run d.cov_type buf d.trace_bitmap d.lib))
        (false, d)

  unfoldable pub run_decoder : Build D → List ℕ → Decoding D → Bool × Decoding D
  run_decoder build buf d = if d.decoder then run_of build buf d else (false, d)

  abbrev pub trace_did_overflow : Decoding D → Bool
  trace_did_overflow d = d.trace_overflow_occurred

  -- The runs between a start and the end of its decoding: one for each drain, and one after the stop.
  unfoldable pub runs : Build D → List (List ℕ) → Decoding D → Decoding D
  runs build [] d = d
  runs build (buf ∷ bufs) d = runs build bufs (run_decoder build buf d).1

  abbrev pub take_init : Decoding D → Bool × D → Decoding D
  take_init d (ok, l) = record d { decoder = ok; lib = l }

  -- libcsdec needs the images of the code as well.
  abbrev pub init_of : Build D → Bool → Decoding D → Decoding D
  init_of (stalker_decoder st) malloc d = record d { has_bitmap = true; decoder = true }
  init_of (coresight_decoder lib) malloc d =
      let imaged = record d { has_bitmap = true; mem_img = true } in
      if d.mem_img || malloc
      then switch d.cov_type (take_init imaged (lib.init d.cov_type d.lib))
          (record imaged { decoder = false })
      else record d { has_bitmap = true; decoder = false }

  -- The two arguments are whether the map and the images can be allocated.
  unfoldable pub init_decoder : Build D → Bool → Bool → Decoding D → Decoding D
  init_decoder build malloc_map malloc_img d =
      if d.has_bitmap || malloc_map
      then init_of build malloc_img d
      else record d { decoder = false }

  abbrev pub take_setup : Stalker D → ℕ → Decoding D → Bool × D → Bool × Decoding D
  take_setup st trace_id d (false, l) = (false, record d { lib = l })
  take_setup st trace_id d (true, l) =
      (true, record d { lib = st.set_bb_mode false (st.set_trace_id trace_id l) })

  -- Only the build with the Stalker decoder has it.
  unfoldable pub stalker_setup : Build D → ℕ → Decoding D → Bool × Decoding D
  stalker_setup (stalker_decoder st) trace_id d = take_setup st trace_id d (st.decoder_init d.lib)
  stalker_setup (coresight_decoder lib) trace_id d = (true, d)

  abbrev pub finish_of : Build D → Decoding D → Decoding D
  finish_of (stalker_decoder st) d = d
  finish_of (coresight_decoder lib) d =
      switch d.cov_type (record d { lib = lib.finish d.cov_type d.lib }) d

  unfoldable pub fini_decoder : Build D → Decoding D → Bool × Decoding D
  fini_decoder build d = if d.decoder then (true, finish_of build d) else (false, d)
