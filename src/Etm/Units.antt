-- ===== src/Etm/Units.antt =====
-- What the loops over the CPUs do to the trace units: each round leaves the other units alone.
use mathlib.Core.Path.{subst}
use coresight_trace.Base.{
  ℕ, suc, ◌≤◌, ◌<◌, ◌≡◌, refl, sym, ◌∙◌, Bool, true, false, List, ◌==◌, ==_iff, Bool-cases, inl,
  inr, arith,
}
use coresight_trace.Etm.Csal.{TraceUnit, Call, unit_after, collecting}
use coresight_trace.Etm.Commands.{Dev, each, Ensures, Ensures-each}

-- A change of one unit, related by `R`; the other units and the last sink stay.
pub record Touches (R : TraceUnit → TraceUnit → Type 0) (i : ℕ) (cs ds : List Call) : Type 0 where
  pub at : R (unit_after cs i) (unit_after ds i)
  pub others : (j : ℕ) → (j == i) ≡ false → unit_after ds j ≡ unit_after cs j
  pub sink : collecting ds ≡ collecting cs

-- A change of the units below `n`, related by `R`.
pub record TouchesAll (R : ℕ → TraceUnit → TraceUnit → Type 0) (n : ℕ) (cs ds : List Call)
    : Type 0 where
  pub at : (j : ℕ) → j < n → R j (unit_after cs j) (unit_after ds j)
  pub sink : collecting ds ≡ collecting cs

pub Ensures-weaken :
    (P Q : List Call → Type 0) (r : Bool × List Call)
    → ((ds : List Call) → P ds → Q ds)
    → Ensures P r
    → Ensures Q r
Ensures-weaken P Q (true, ds) w p = w ds p
Ensures-weaken P Q (false, ds) w p = tt

module _ (R : ℕ → TraceUnit → TraceUnit → Type 0) (cs : List Call) where
  -- The first `i` units are changed, and no other.
  record Below (i : ℕ) (ds : List Call) : Type 0 where
    done : (j : ℕ) → j < i → R j (unit_after cs j) (unit_after ds j)
    rest : (j : ℕ) → i ≤ j → unit_after ds j ≡ unit_after cs j
    sink : collecting ds ≡ collecting cs

  Below-suc : (i : ℕ) (ds es : List Call) → Below i ds → Touches (R i) i ds es → Below (suc i) es
  Below-suc i ds es b t = record {
    done = λ j lt. elim (Bool-cases (j == i)) [
      | inl e ↦
          subst (λ k. R k (unit_after cs k) (unit_after es k)) (sym ((==_iff j i).0 e))
            (subst (λ u. R i u (unit_after es i)) (b.rest i (omega arith)) t.at)
      | inr ne ↦
          subst (λ u. R j (unit_after cs j) u) (sym (t.others j ne)) (b.done j (ground arith))
    ];
    rest = λ j le. t.others j (ground arith) ∙ b.rest j (omega arith);
    sink = t.sink ∙ b.sink;
  }

  pub each-TouchesAll :
      (body : ℕ → Dev)
      → ((i : ℕ) (ds : List Call) → Ensures (Touches (R i) i ds) (body i ds))
      → (n : ℕ) → Ensures (TouchesAll R n cs) (each n 0 body cs)
  each-TouchesAll body touches n =
      Ensures-weaken (Below n) (TouchesAll R n cs) (each n 0 body cs)
        (λ ds b. record { at = b.done; sink = b.sink })
        (Ensures-each Below body
          (λ i ds b.
            Ensures-weaken (Touches (R i) i ds) (Below (suc i)) (body i ds)
              (λ es t. Below-suc i ds es b t) (touches i ds))
          n 0 n cs (omega arith)
          (record { done = λ j lt. absurd (omega arith); rest = λ j le. refl; sink = refl }))
