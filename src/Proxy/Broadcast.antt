-- ===== src/Proxy/Broadcast.antt =====
-- The passes with branch broadcast, src/cs-proxy.c 454-499, when they return.
use coresight_trace.Base.{ℕ, ◌≡◌, refl, Bool, true, false, List, [], ◌∷◌}
use coresight_trace.Hybrid.Passes.{hybrid_after_sample}
use coresight_trace.Proxy.State.{
  Proxy, Answer, value, negative, fatal, out_of_fuel, Cmd, and_then, ◌>>=◌, ◌>>◌, modify, check,
  check_with,
}
use coresight_trace.Proxy.Child.{trace_set_bb_mode, broadcast_run, sample_with_branch_broadcast}

-- When the command returns a value, the state it leaves has the property.
record Leaves {A : Type 0} (P : Proxy → Type 0) (m : Cmd A) : Type 0 where
  at : (s : Proxy) (a : A) → (m s).0 ≡ value a → P (m s).1

module _ {A B : Type 0} {P : Proxy → Type 0} where
  and_then-Leaves :
      (r : Answer A) (t : Proxy) (k : A → Cmd B) (b : B)
      → ((a : A) → Leaves P (k a))
      → (and_then r t k).0 ≡ value b
      → P (and_then r t k).1
  and_then-Leaves (value a) t k b w h = (w a).at t b h
  and_then-Leaves negative t k b w h = cc
  and_then-Leaves fatal t k b w h = cc
  and_then-Leaves out_of_fuel t k b w h = cc

  Leaves-bind : (m : Cmd A) (k : A → Cmd B) → ((a : A) → Leaves P (k a)) → Leaves P (m >>= k)
  unfolding ◌>>=◌
  Leaves-bind m k w = record { at = λ s b. and_then-Leaves (m s).0 (m s).1 k b w }

-- Branch broadcast is set last, and only the trace unit is touched by it.
set_bb-Leaves :
    (on : Bool) (s : Proxy) (u : Unit {0})
    → (trace_set_bb_mode on s).0 ≡ value u
    → ((trace_set_bb_mode on s).1.bb_mode ≡ on)
      × ((trace_set_bb_mode on s).1.trace_bitmap ≡ s.trace_bitmap)
unfolding trace_set_bb_mode check ◌>>=◌
set_bb-Leaves on s u h = by_answers s.answers h
  where
    by_answers :
        (answers : List Bool)
        → (and_then
            (check_with answers s).0
            (check_with answers s).1
            (λ _. modify (λ s. record s { bb_mode = on }))).0
          ≡ value u
        → ((and_then
              (check_with answers s).0
              (check_with answers s).1
              (λ _. modify (λ s. record s { bb_mode = on }))).1.bb_mode
            ≡ on)
          × ((and_then
                (check_with answers s).0
                (check_with answers s).1
                (λ _. modify (λ s. record s { bb_mode = on }))).1.trace_bitmap
              ≡ s.trace_bitmap)
    by_answers [] h = cc
    by_answers (true ∷ rest) h = (refl, refl)
    by_answers (false ∷ rest) h = cc

module _ (rescale : ℕ → ℕ → ℕ → ℕ) where
  abbrev Restored : List ℕ → Proxy → Type 0
  Restored saved t = (t.bb_mode ≡ false) × (t.trace_bitmap ≡ saved)

  sample-Leaves :
      (saved : List ℕ) (overflowed : Bool)
      → Leaves (Restored saved) (do
        modify (λ s. record s {
          hybrid = hybrid_after_sample rescale s.trace_bitmap overflowed s.hybrid;
          trace_bitmap = saved;
        })
        trace_set_bb_mode false)
  unfolding ◌>>=◌
  sample-Leaves saved overflowed = record {
    at = λ s. set_bb-Leaves false (record s {
      hybrid = hybrid_after_sample rescale s.trace_bitmap overflowed s.hybrid;
      trace_bitmap = saved;
    });
  }

  -- A sampled re-run that returns leaves branch broadcast off and the shared map as it found it, so
  -- that afl-fuzz reads the map that the verdict chose.
  pub sample_with_branch_broadcast-restores :
      (s : Proxy)
      → (sample_with_branch_broadcast rescale s).0 ≡ value tt
      → ((sample_with_branch_broadcast rescale s).1.bb_mode ≡ false)
        × ((sample_with_branch_broadcast rescale s).1.trace_bitmap ≡ s.trace_bitmap)
  unfolding sample_with_branch_broadcast ◌>>=◌
  sample_with_branch_broadcast-restores s h =
      (Leaves-bind broadcast_run _ (sample-Leaves s.trace_bitmap)).at s tt h
