-- ===== src/Outcome/Keeps.antt =====
-- What holds of the state after every part of a block of code holds after the block, whether it
-- returns or fails.
use das_multi_device.Prelude.{◌≡◌, Bool, true, false, refl, arith, if◌then◌else◌}
use das_multi_device.Outcome.{Result, ok, err, change_err, Exec, on_err, ◌>>=◌, continue}

module _ {S E A B : Type 0} (P : S → Type 0) where
  after-continue :
      (r : Result E A) (f : A → Exec S E B) (s : S)
      → P s
      → ((a : A) → P s → P (f a s).1)
      → P (continue r f s).1
  after-continue (ok a) f s h step = step a h
  after-continue (err e) f s h step = h

  pub after-bind :
      (m : Exec S E A) (f : A → Exec S E B) (s : S)
      → P (m s).1
      → ((a : A) (s' : S) → P s' → P (f a s').1)
      → P ((m >>= f) s).1
  unfolding ◌>>=◌
  after-bind m f s h step = after-continue (m s).0 f (m s).1 h (λ a. step a (m s).1)

pub after-if :
    {S E A : Type 0} (P : S → Type 0) (b : Bool) (m n : Exec S E A) (s : S)
    → (b ≡ true → P (m s).1)
    → (b ≡ false → P (n s).1)
    → P ((if b then m else n) s).1
after-if P true m n s hm hn = hm refl
after-if P false m n s hm hn = hn refl

-- A block's outcome is that of its first part, if that fails, or that of the rest after it.
module _ {S E A B : Type 0} (P : Result E B × S → Type 0) where
  cases-continue :
      (o : Result E A × S) (f : A → Exec S E B)
      → ((e : E) (s' : S) → o ≡ (err e, s') → P (err e, s'))
      → ((a : A) (s' : S) → o ≡ (ok a, s') → P (f a s'))
      → P (continue o.0 f o.1)
  cases-continue (ok a, s') f failed went = went a s' refl
  cases-continue (err e, s') f failed went = failed e s' refl

  pub bind-cases :
      (m : Exec S E A) (f : A → Exec S E B) (s : S)
      → ((e : E) (s' : S) → m s ≡ (err e, s') → P (err e, s'))
      → ((a : A) (s' : S) → m s ≡ (ok a, s') → P (f a s'))
      → P ((m >>= f) s)
  unfolding ◌>>=◌
  bind-cases m f s failed went = cases-continue (m s) f failed went

-- What a block returns, its last part returned after the first one did.
continue-ok :
    {S E A B : Type 0} (o : Result E A × S) (f : A → Exec S E B) (b : B) (q : S)
    → ◌≡◌ {A = Result E B × S} (continue o.0 f o.1) (ok b, q)
    → (a : A) × (s' : S) × (o ≡ (ok a, s')) × (f a s' ≡ (ok b, q))
continue-ok (ok a, s') f b q h = (a, s', refl, h)
continue-ok (err e, s') f b q h = cc

pub bind-ok :
    {S E A B : Type 0} (m : Exec S E A) (f : A → Exec S E B) (s : S) (b : B) (q : S)
    → (m >>= f) s ≡ (ok b, q)
    → (a : A) × (s' : S) × (m s ≡ (ok a, s')) × (f a s' ≡ (ok b, q))
unfolding ◌>>=◌
bind-ok m f s b q h = continue-ok (m s) f b q h

module _ {S E F A : Type 0} (f : E → F) where
  unchanged :
      (o : Result E A × S) (a : A) (q : S)
      → ◌≡◌ {A = Result F A × S} (change_err f o.0, o.1) (ok a, q)
      → o ≡ (ok a, q)
  unchanged (ok b, s) a q h = cc
  unchanged (err e, s) a q h = cc

  -- A success is not changed by the wrapping of errors.
  pub on_err-ok :
      (m : Exec S E A) (s : S) (a : A) (q : S) → on_err f m s ≡ (ok a, q) → m s ≡ (ok a, q)
  unfolding on_err
  on_err-ok m s a q h = unchanged (m s) a q h

-- An outcome that is no error, in a state with a property.
abbrev pub IsOk : {E A : Type 0} → Result E A → Type 0
IsOk (ok a) = Unit
IsOk (err e) = ⊥

abbrev pub Succeeds : {S E A : Type 0} → (S → Type 0) → Result E A × S → Type 0
Succeeds P o = IsOk o.0 × P o.1

module _ {S E A B : Type 0} (P Q : S → Type 0) where
  continue-Succeeds :
      (o : Result E A × S) (f : A → Exec S E B)
      → Succeeds P o
      → ((a : A) (s' : S) → P s' → Succeeds Q (f a s'))
      → Succeeds Q (continue o.0 f o.1)
  continue-Succeeds (ok a, s') f h step = step a s' h.1
  continue-Succeeds (err e, s') f h step = absurd h.0

  pub bind-Succeeds :
      (m : Exec S E A) (f : A → Exec S E B) (s : S)
      → Succeeds P (m s)
      → ((a : A) (s' : S) → P s' → Succeeds Q (f a s'))
      → Succeeds Q ((m >>= f) s)
  unfolding ◌>>=◌
  bind-Succeeds m f s h step = continue-Succeeds (m s) f h step

pub on_err-Succeeds :
    {S E F A : Type 0} (P : S → Type 0) (f : E → F) (m : Exec S E A) (s : S)
    → Succeeds P (m s)
    → Succeeds P (on_err f m s)
unfolding on_err
on_err-Succeeds P f m s h = ground arith
