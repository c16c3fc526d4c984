-- ===== src/Proxy/Keeps.antt =====
-- What a command leaves as it is, however it ends: one rule for each way to build a command.
use coresight_trace.Base.{◌≡◌, refl, ◌∙◌, Bool, true, false, if◌then◌else◌}
use coresight_trace.Proxy.State.{
  Proxy, Answer, value, negative, fatal, out_of_fuel, Cmd, pure, and_then, ◌>>=◌, gets,
}

-- `f` reads the same after the command as before.
pub record Keeps {X A : Type 0} (f : Proxy → X) (m : Cmd A) : Type 0 where
  pub at : (s : Proxy) → f (m s).1 ≡ f s

module _ {X A : Type 0} {f : Proxy → X} where
  pub Keeps-pure : (a : A) → Keeps f (pure a)
  Keeps-pure a = record { at = λ s. refl }

  pub Keeps-gets : (g : Proxy → A) → Keeps f (gets g)
  Keeps-gets g = record { at = λ s. refl }

  pub Keeps-if : (b : Bool) (m n : Cmd A) → Keeps f m → Keeps f n → Keeps f (if b then m else n)
  Keeps-if true m n km kn = km
  Keeps-if false m n km kn = kn

module _ {X A B : Type 0} {f : Proxy → X} where
  and_then-Keeps :
      (r : Answer A) (s : Proxy) (k : A → Cmd B)
      → ((a : A) → Keeps f (k a))
      → f (and_then r s k).1 ≡ f s
  and_then-Keeps (value a) s k kk = (kk a).at s
  and_then-Keeps negative s k kk = refl
  and_then-Keeps fatal s k kk = refl
  and_then-Keeps out_of_fuel s k kk = refl

  pub Keeps-bind :
      (m : Cmd A) (k : A → Cmd B) → Keeps f m → ((a : A) → Keeps f (k a)) → Keeps f (m >>= k)
  unfolding ◌>>=◌
  Keeps-bind m k km kk = record { at = λ s. and_then-Keeps (m s).0 (m s).1 k kk ∙ km.at s }

pub ruleset keeps_rules = (Keeps-pure, Keeps-gets, Keeps-if, Keeps-bind)
