-- ===== src/Proxy/Waits.antt =====
-- The waits that the commands of an attempt use up, and the status that they leave.
use mathlib.Core.Path.{subst}
use mathlib.Core.List.{append_assoc}
use coresight_trace.Base.{
  ℕ, ◌≡◌, ◌⊎◌, inl, inr, refl, sym, ap, ◌∙◌, Bool, true, false, List, [], ◌∷◌, ◌++◌,
}
use coresight_trace.FreqGov.Governor.{FreqMode, Governor}
use coresight_trace.Proxy.State.{
  Wait, is_suspended, Proxy, Answer, value, negative, fatal, out_of_fuel, Cmd, and_then, ◌>>=◌,
  modify, govern, check, check_with,
}
use coresight_trace.Proxy.Child.{read_pid, fork_fresh_child, start_and_resume, retry_child}
use coresight_trace.Proxy.TestCase.{next_attempt}
use coresight_trace.Proxy.Keeps.{Keeps, Keeps-pure, Keeps-bind}

abbrev pub KeepsWaits : {A : Type 0} → Cmd A → Type 0
KeepsWaits m = Keeps (λ s. s.waits) m

pub KeepsWaits-govern : (f : Governor → Governor) → KeepsWaits (govern f)
KeepsWaits-govern f = record { at = λ s. refl }

pub KeepsWaits-modify :
    (g : Proxy → Proxy) → ((s : Proxy) → (g s).waits ≡ s.waits) → KeepsWaits (modify g)
KeepsWaits-modify g h = record { at = h }

check_with-waits : (answers : List Bool) (s : Proxy) → (check_with answers s).1.waits ≡ s.waits
check_with-waits [] s = refl
check_with-waits (a ∷ rest) s = refl

pub check-KeepsWaits : KeepsWaits check
unfolding check
check-KeepsWaits = record { at = λ s. check_with-waits s.answers s }

read_pid-waits : (ps : List ℕ) (s : Proxy) → (read_pid ps s).1.waits ≡ s.waits
read_pid-waits [] s = refl
read_pid-waits (p ∷ ps) s = refl

retry_child-KeepsWaits : (mode : FreqMode) → KeepsWaits (retry_child mode)
unfolding retry_child fork_fresh_child start_and_resume
retry_child-KeepsWaits mode =
    Keeps-bind _ _
      (Keeps-bind _ _ check-KeepsWaits λ _.
        Keeps-bind _ _ (KeepsWaits-modify _ (λ s. refl))
          λ _. record { at = λ s. read_pid-waits s.pids s })
      λ child. Keeps-bind _ _ (KeepsWaits-modify _ (λ s. refl)) λ _.
        Keeps-bind _ _ (Keeps-bind _ _ (Keeps-pure tt) (λ _. check-KeepsWaits))
          (λ _. Keeps-pure child)

-- The status is that of the last wait that is used up, and that is not a suspension.
abbrev pub IsLast : ℕ → (old left : List Wait) → Type 0
IsLast code old left =
    (used : List Wait) × (w : Wait) × (old ≡ used ++ (w ∷ left))
    × (code ≡ w.code)
    × (is_suspended w.code ≡ false)

pub IsLast-after :
    (code : ℕ) (older old left : List Wait) (used : List Wait) (w : Wait)
    → older ≡ used ++ (w ∷ old)
    → IsLast code old left
    → IsLast code older left
IsLast-after code older old left used w e (more, v, f, c, n) = (
  used ++ (w ∷ more),
  v,
  e ∙ ap (λ l. used ++ (w ∷ l)) f ∙ sym (append_assoc used (w ∷ more) (v ∷ left)),
  c,
  n,
)

-- What a command that has read `code` comes to: that status, or one that it reads itself.
abbrev pub Follows : ℕ → List Wait → Answer (ℕ × Bool) × Proxy → Type 0
Follows code old (value r, t) = ((r.0 ≡ code) × (t.waits ≡ old)) ⊎ IsLast r.0 old t.waits
Follows code old (negative, t) = Unit
Follows code old (fatal, t) = Unit
Follows code old (out_of_fuel, t) = Unit

abbrev pub ReadsLast : List Wait → Answer (ℕ × Bool) × Proxy → Type 0
ReadsLast old (value r, t) = IsLast r.0 old t.waits
ReadsLast old (negative, t) = Unit
ReadsLast old (fatal, t) = Unit
ReadsLast old (out_of_fuel, t) = Unit

pub record Following (code : ℕ) (m : Cmd (ℕ × Bool)) : Type 0 where
  pub at : (s : Proxy) → Follows code s.waits (m s)

pub record Lasts (m : Cmd (ℕ × Bool)) : Type 0 where
  pub at : (s : Proxy) → ReadsLast s.waits (m s)

Lasts-Follows :
    (code : ℕ) (old : List Wait) (r : Answer (ℕ × Bool) × Proxy)
    → ReadsLast old r
    → Follows code old r
Lasts-Follows code old (value r, t) h = inr h
Lasts-Follows code old (negative, t) h = tt
Lasts-Follows code old (fatal, t) h = tt
Lasts-Follows code old (out_of_fuel, t) h = tt

module _ {A : Type 0} (code : ℕ) where
  and_then-Follows :
      (r : Answer A) (t : Proxy) (old : List Wait) (k : A → Cmd (ℕ × Bool))
      → t.waits ≡ old
      → ((a : A) → Following code (k a))
      → Follows code old (and_then r t k)
  and_then-Follows (value a) t old k same kk =
      subst (λ l. Follows code l (k a t)) same ((kk a).at t)
  and_then-Follows negative t old k same kk = tt
  and_then-Follows fatal t old k same kk = tt
  and_then-Follows out_of_fuel t old k same kk = tt

  pub Following-bind :
      (m : Cmd A) (k : A → Cmd (ℕ × Bool))
      → KeepsWaits m
      → ((a : A) → Following code (k a))
      → Following code (m >>= k)
  unfolding ◌>>=◌
  Following-bind m k q kk = record {
    at = λ s. and_then-Follows (m s).0 (m s).1 s.waits k (q.at s) kk;
  }

pub next_attempt-Following :
    (mode : FreqMode) (retry exhausted : Bool) (again last : Cmd (ℕ × Bool)) (code : ℕ) (o : Bool)
    → Lasts again
    → Lasts last
    → Following code (next_attempt mode retry exhausted again last (code, o))
unfolding next_attempt
next_attempt-Following mode true exhausted again last code o la ll =
    Following-bind code _ _ (retry_child-KeepsWaits mode)
      λ _. record { at = λ s. Lasts-Follows code s.waits (again s) (la.at s) }
next_attempt-Following mode false true again last code o la ll =
    Following-bind code _ _
      (Keeps-bind _ _ (KeepsWaits-modify _ (λ s. refl)) (λ _. retry_child-KeepsWaits mode))
      λ _. record { at = λ s. Lasts-Follows code s.waits (last s) (ll.at s) }
next_attempt-Following mode false false again last code o la ll = record {
  at = λ s. inl (refl, refl);
}
