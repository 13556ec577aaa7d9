-- ===== src/Outcome.antt =====
-- Go's `(value, error)` results, and code that reads and writes a state and may fail.
-- What was written before an error stays written, so the state comes back beside the error too.
pub mod Keeps
pub mod Rules
use das_multi_device.Prelude.{String, Bool, true, false}

-- `plain` is an error of a library with its text, `wrap` is fmt.Errorf around another error,
-- `duplicate_entry` is a write that breaks a unique index, and `panic` is a Go panic.
pub data Error : Type 0 where
  plain : String → Error
  wrap : String → Error → Error
  duplicate_entry : Error
  panic : String → Error

pub data Result (E A : Type 0) : Type 0 where
  ok : A → Result E A
  err : E → Result E A

abbrev pub Exec : Type 0 → Type 0 → Type 0 → Type 0
Exec S E A = S → Result E A × S

-- if err != nil { return ... }, where the error that is returned is made from `err`.
abbrev pub change_err : {E F A : Type 0} → (E → F) → Result E A → Result F A
change_err f (ok a) = ok a
change_err f (err e) = err (f e)

module _ {S E A : Type 0} where
  unfoldable pub pure : A → Exec S E A
  pure a s = (ok a, s)

  unfoldable pub raise : E → Exec S E A
  raise e s = (err e, s)

  unfoldable pub lift : Result E A → Exec S E A
  lift r s = (r, s)

unfoldable pub on_err : {S E F A : Type 0} → (E → F) → Exec S E A → Exec S F A
on_err f m s = let (r, s') = m s in (change_err f r, s')

module _ {S E A B : Type 0} where
  abbrev continue : Result E A → (A → Exec S E B) → Exec S E B
  continue (ok a) f s = f a s
  continue (err e) f s = (err e, s)

  infixl 5 ◌>>=◌ ◌>>◌
  unfoldable pub ◌>>=◌ : Exec S E A → (A → Exec S E B) → Exec S E B
  unfolding pure raise lift on_err
  ◌>>=◌ m f s = let (r, s') = m s in continue r f s'

  abbrev pub ◌>>◌ : Exec S E A → Exec S E B → Exec S E B
  m >> n = m >>= λ _. n

-- if !test { return e }
abbrev pub guard : {S E : Type 0} → Bool → E → Exec S E Unit
guard true e s = (ok tt, s)
guard false e s = (err e, s)
