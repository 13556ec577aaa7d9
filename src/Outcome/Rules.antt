-- ===== src/Outcome/Rules.antt =====
-- A block of code keeps a predicate of the state if each of its parts does: one rule for each way to
-- build a block.
use das_multi_device.Prelude.{Bool, true, false, if◌then◌else◌}
use das_multi_device.Outcome.{Result, Exec, pure, raise, lift, on_err, guard, ◌>>=◌}
use das_multi_device.Outcome.Keeps.{after-bind}

-- `m` keeps `P`, whether it returns or fails.
pub record Keeps {S E A : Type 0} (P : S → Type 0) (m : Exec S E A) : Type 0 where
  pub at : (s : S) → P s → P (m s).1

module _ {S E A : Type 0} {P : S → Type 0} where
  pub Keeps-pure : (a : A) → Keeps P (pure {E = E} a)
  unfolding pure
  Keeps-pure a = record { at = λ s h. h }

  pub Keeps-raise : (e : E) → Keeps P (raise {A = A} e)
  unfolding raise
  Keeps-raise e = record { at = λ s h. h }

  pub Keeps-lift : (r : Result E A) → Keeps P (lift r)
  unfolding lift
  Keeps-lift r = record { at = λ s h. h }

pub Keeps-guard : {S E : Type 0} {P : S → Type 0} (b : Bool) (e : E) → Keeps P (guard b e)
Keeps-guard true e = record { at = λ s h. h }
Keeps-guard false e = record { at = λ s h. h }

pub Keeps-if :
    {S E A : Type 0} {P : S → Type 0} (b : Bool) (m n : Exec S E A)
    → Keeps P m
    → Keeps P n
    → Keeps P (if b then m else n)
Keeps-if true m n km kn = km
Keeps-if false m n km kn = kn

pub Keeps-on_err :
    {S E F A : Type 0} {P : S → Type 0} (f : E → F) (m : Exec S E A)
    → Keeps P m
    → Keeps P (on_err f m)
unfolding on_err
Keeps-on_err f m k = record { at = λ s h. k.at s h }

pub Keeps-bind :
    {S E A B : Type 0} {P : S → Type 0} (m : Exec S E A) (f : A → Exec S E B)
    → Keeps P m
    → ((a : A) → Keeps P (f a))
    → Keeps P (m >>= f)
Keeps-bind {P} m f km kf = record {
  at = λ s h. after-bind P m f s (km.at s h) (λ a s' h'. (kf a).at s' h');
}

pub ruleset keeps_rules =
    (Keeps-pure, Keeps-raise, Keeps-lift, Keeps-guard, Keeps-on_err, Keeps-bind)
