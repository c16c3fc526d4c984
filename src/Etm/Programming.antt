-- ===== src/Etm/Programming.antt =====
-- What init_etm and the programming of the ranges, src/config.c, do to a trace unit.
use coresight_trace.Base.{
  ℕ, ◌+◌, ◌≡◌, refl, true, Option, some, List, ◌∷◌, ltb, Bool-cases, Option-cases, inl, inr,
  if◌then◌else◌, arith,
}
use coresight_trace.Maps.Select.{MapInfo}
use coresight_trace.Etm.Csal.{
  EtmConfig, TraceUnit, Csal, Call, unit_after, collecting, get_source, set_trace_source_id,
  etm_clean, etm_config_put,
}
use coresight_trace.Etm.Commands.{
  return_0, fail, ◌>>◌, must, no_errors, just, Ensures, Ensures-bind,
}
use coresight_trace.Etm.Range.{low_half}
use coresight_trace.Etm.Configure.{
  Settings, config_only, basic_config, init_etm, cid_config, range_config, put_ranges,
  configure_etmv4_addr_range_cid, init_cpu, configure_cpu, basic_flags,
}
use coresight_trace.Etm.Units.{Touches}
use coresight_trace.Etm.Effects.{
  NoNewBb, ==_refl, Ensures-must, Ensures-no_errors, range_config-keeps,
}

module _ (csal : Csal) (settings : Settings) where
  Touches-get_source : (i : ℕ) (cs : List Call) → Touches NoNewBb i cs (get_source i ∷ cs)
  unfolding unit_after collecting
  Touches-get_source i cs = record { at = λ h. h; others = λ j ne. refl; sink = refl }

  Touches-set_trace_source_id :
      (i id : ℕ) (cs ds : List Call)
      → Touches NoNewBb i cs ds
      → Touches NoNewBb i cs (set_trace_source_id i id ∷ ds)
  unfolding unit_after collecting
  Touches-set_trace_source_id i id cs ds t = record {
    at = λ h. t.at h;
    others = λ j ne. t.others j ne;
    sink = t.sink;
  }

  Touches-etm_clean :
      (i : ℕ) (cs ds : List Call)
      → Touches NoNewBb i cs ds
      → Touches NoNewBb i cs (etm_clean i ∷ ds)
  unfolding unit_after collecting
  Touches-etm_clean i cs ds t = record {
    at = rw (==_refl i) (λ h. t.at h);
    others = λ j ne. rw ne (t.others j ne);
    sink = t.sink;
  }

  -- A unit that has been initialised: it is of version 4.
  abbrev pub Initialised : ℕ → TraceUnit → TraceUnit → Type 0
  Initialised i u v = (v.bb ≡ true → u.bb ≡ true) × (csal.is_etmv4 i ≡ true)

  Touches-init_put :
      (i : ℕ) (cs ds : List Call)
      → Touches NoNewBb i cs ds × (csal.is_etmv4 i ≡ true)
      → Touches
          (Initialised i)
          i
          cs
          (etm_config_put i (basic_config csal settings (csal.config_get ds i config_only)) ∷ ds)
  unfolding unit_after collecting
  Touches-init_put i cs ds (t, v4) = record {
    at = rw (==_refl i) (λ h. t.at (csal.config_get-bb ds i config_only h), v4);
    others = λ j ne. rw ne (t.others j ne);
    sink = t.sink;
  }

  init_etm-Touches :
      (i : ℕ) (cs ds : List Call)
      → Touches NoNewBb i cs ds
      → Ensures (Touches (Initialised i) i cs) (init_etm csal settings i ds)
  unfolding init_etm just
  init_etm-Touches i cs ds t =
      Ensures-bind P4 (Touches (Initialised i) i cs)
        (must csal (etm_clean i) >> (if csal.is_etmv4 i then return_0 else fail))
        (λ es.
          just (etm_config_put i (basic_config csal settings (csal.config_get es i config_only)))
            es)
        ds
        (Ensures-bind P P4 (must csal (etm_clean i)) (if csal.is_etmv4 i then return_0 else fail) ds
          (Ensures-must csal P (etm_clean i) ds (Touches-etm_clean i cs ds t))
          (λ es u. elim (Bool-cases (csal.is_etmv4 i)) [ inl e ↦ rw e (u, e) | inr e ↦ rw e tt ]))
        (λ es u. Touches-init_put i cs es u)
    where
      P : List Call → Type 0
      P = Touches NoNewBb i cs

      P4 : List Call → Type 0
      P4 es = Touches NoNewBb i cs es × (csal.is_etmv4 i ≡ true)

  pub init_cpu-Touches :
      (i : ℕ) (cs : List Call)
      → Ensures (Touches (Initialised i) i cs) (init_cpu csal settings i cs)
  unfolding init_cpu
  init_cpu-Touches i cs =
      Ensures-bind P (Touches (Initialised i) i cs)
        (must csal (get_source i) >> must csal (set_trace_source_id i (0x10 + i)))
        (init_etm csal settings i) cs
        (Ensures-bind P P (must csal (get_source i)) (must csal (set_trace_source_id i (0x10 + i)))
          cs (Ensures-must csal P (get_source i) cs (Touches-get_source i cs))
          (λ ds t.
            Ensures-must csal P (set_trace_source_id i (0x10 + i)) ds
              (Touches-set_trace_source_id i (0x10 + i) cs ds t)))
        (λ ds t. init_etm-Touches i cs ds t)
    where
      P : List Call → Type 0
      P = Touches NoNewBb i cs

  -- A unit that has been configured for a PID.
  abbrev pub Configured : ℕ → ℕ → TraceUnit → TraceUnit → Type 0
  Configured pid i u v =
      (v.bb ≡ true → u.bb ≡ true)
      × (csal.etmv4_or_later i ≡ true → ltb 0 pid ≡ true → v.cid ≡ low_half pid)

  Touches-put :
      (range : List MapInfo) (pid i : ℕ) (cs : List Call) (c : EtmConfig)
      → range_config csal settings range pid
          (cid_config csal settings i pid (csal.config_get cs i basic_flags))
        ≡ some c
      → Touches
          (Configured pid i)
          i
          cs
          (etm_config_put i (record c { flags = record (c.flags) { addr_comp = true } }) ∷ cs)
  unfolding unit_after collecting
  Touches-put range pid i cs c e =
      let kept =
        range_config-keeps csal settings range pid
          (cid_config csal settings i pid (csal.config_get cs i basic_flags)) c e in
      record {
        at =
            rw (==_refl i)
              (λ h. csal.config_get-bb cs i basic_flags (ground arith), λ v4 named. ground arith);
        others = λ j ne. rw ne refl;
        sink = refl;
      }

  pub configure_cpu-Touches :
      (range : List MapInfo) (pid i : ℕ) (cs : List Call)
      → Ensures (Touches (Configured pid i) i cs) (configure_cpu csal settings range pid i cs)
  unfolding configure_cpu configure_etmv4_addr_range_cid just
  configure_cpu-Touches range pid i cs = elim (Bool-cases (csal.etmv4_or_later i)) [
    | inr older ↦
        rw older (record { at = (λ h. h, λ v4 named. cc); others = λ j ne. refl; sink = refl })
    | inl v4 ↦ rw v4 (
        Ensures-bind P P (λ ds. put_ranges csal settings i (configured ds) ds) (no_errors csal) cs
          (elim (Option-cases (configured cs)) [
            | inl e ↦ rw e tt
            | inr (c, e) ↦ rw e (Touches-put range pid i cs c e)
          ])
          (λ ds t. Ensures-no_errors csal P ds t))
  ]
    where
      P : List Call → Type 0
      P = Touches (Configured pid i) i cs

      configured : List Call → Option EtmConfig
      configured ds =
          range_config csal settings range pid
            (cid_config csal settings i pid (csal.config_get ds i basic_flags))
