-- ===== src/Etm/Commands.antt =====
-- Commands over the list of calls: the functions of src/config.c that return 0 or a negative number.
use mathlib.Core.Path.{subst}
use coresight_trace.Base.{
  ℕ, zero, suc, ◌+◌, ◌≡◌, refl, Bool, true, false, not, List, ◌∷◌, ltb, arith,
}
use coresight_trace.Etm.Csal.{Call, Csal}

-- The result is whether 0 is returned; `false` also stands for the end of the process by `assert`.
abbrev pub Dev : Type 0
Dev = List Call → Bool × List Call

abbrev pub return_0 : Dev
return_0 cs = (true, cs)

abbrev pub fail : Dev
fail cs = (false, cs)

abbrev pub go_on : Bool × List Call → Dev → Bool × List Call
go_on (true, cs) n = n cs
go_on (false, cs) n = (false, cs)

-- The second command runs if the first returns 0.
infixl 5 ◌>>◌
unfoldable pub ◌>>◌ : Dev → Dev → Dev
(m >> n) cs = go_on (m cs) n

abbrev pub when : Bool → Dev → Dev
when true m = m
when false m = return_0

-- The command for each number from i on, n of them.
unfoldable pub each : ℕ → ℕ → (ℕ → Dev) → Dev
each zero i body = return_0
each (suc n) i body = body i >> each n (i + 1) body

module _ (csal : Csal) where
  open csal use {ok, cs_error_count}

  -- A call whose answer is looked at, and one whose answer is not.
  unfoldable pub must : Call → Dev
  must c cs = (ok cs c, c ∷ cs)

  -- `if (cs_error_count() > 0) return -1`
  unfoldable pub no_errors : Dev
  no_errors cs = (not (ltb 0 (cs_error_count cs)), cs)

unfoldable pub just : Call → Dev
just c cs = (true, c ∷ cs)

-- What holds of the calls when 0 is returned.
abbrev pub Ensures : (List Call → Type 0) → Bool × List Call → Type 0
Ensures P (true, cs) = P cs
Ensures P (false, cs) = Unit

module _ (P Q : List Call → Type 0) where
  pub Ensures-bind :
      (m n : Dev) (cs : List Call)
      → Ensures P (m cs)
      → ((ds : List Call) → P ds → Ensures Q (n ds))
      → Ensures Q ((m >> n) cs)
  unfolding ◌>>◌
  Ensures-bind m n cs h k = by_result (m cs) h
    where
      by_result : (r : Bool × List Call) → Ensures P r → Ensures Q (go_on r n)
      by_result (true, ds) h = k ds h
      by_result (false, ds) h = tt

pub Ensures-each :
    (P : ℕ → List Call → Type 0) (body : ℕ → Dev)
    → ((i : ℕ) (cs : List Call) → P i cs → Ensures (P (suc i)) (body i cs))
    → (n i m : ℕ) (cs : List Call) → i + n ≡ m
    → P i cs
    → Ensures (P m) (each n i body cs)
unfolding each
Ensures-each P body step zero i m cs e p = subst (λ k. P k cs) (omega arith) p
Ensures-each P body step (suc n) i m cs e p =
    Ensures-bind (P (suc i)) (P m) (body i) (each n (i + 1) body) cs (step i cs p) (λ ds q.
      Ensures-each P body step n (i + 1) m ds (omega arith) (subst (λ k. P k ds) (omega arith) q))

pub Succeeds-bind :
    (m n : Dev) (cs : List Call)
    → (m cs).0 ≡ true
    → ((ds : List Call) → (n ds).0 ≡ true)
    → ((m >> n) cs).0 ≡ true
unfolding ◌>>◌
Succeeds-bind m n cs h k = by_result (m cs) h
  where
    by_result : (r : Bool × List Call) → r.0 ≡ true → (go_on r n).0 ≡ true
    by_result (true, ds) h = k ds
    by_result (false, ds) h = h

pub Succeeds-when : (b : Bool) (m : Dev) (cs : List Call) → (m cs).0 ≡ true → (when b m cs).0 ≡ true
Succeeds-when true m cs h = h
Succeeds-when false m cs h = refl

pub Succeeds-each :
    (c : ℕ → Call) (n i : ℕ) (cs : List Call) → (each n i (λ j. just (c j)) cs).0 ≡ true
unfolding each ◌>>◌ just
Succeeds-each c zero i cs = refl
Succeeds-each c (suc n) i cs = Succeeds-each c n (i + 1) (c i ∷ cs)

pub Ensures-calls :
    (P : List Call → Type 0) (r : Bool × List Call) → r.0 ≡ true → Ensures P r → P r.1
Ensures-calls P (true, cs) e p = p
Ensures-calls P (false, cs) e p = cc

pub calls-no_errors :
    (csal : Csal) (m : Dev) (cs : List Call)
    → (m cs).0 ≡ true
    → ((m >> no_errors csal) cs).1 ≡ (m cs).1
unfolding ◌>>◌ no_errors
calls-no_errors csal m cs h = by_result (m cs) h
  where
    by_result : (r : Bool × List Call) → r.0 ≡ true → (go_on r (no_errors csal)).1 ≡ r.1
    by_result (true, ds) h = refl
    by_result (false, ds) h = refl
