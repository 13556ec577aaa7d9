-- ===== src/Tool.antt =====
-- tool/time.go, GetDurationFormatBySecond: seconds as text with days, hours, minutes and seconds. Nothing
-- calls it. The seconds are not negative and below 9,223,372,037, where time.Duration does not overflow;
-- there the conversions of the float64 that Hours and Minutes return are exact.
use Prim.Native.String.{◌++◌ as string_append}
use das_multi_device.Prelude.{
  ℕ, ◌+◌, ◌*◌, ◌/◌, ◌%◌, String, List, [], ◌∷◌, ◌++◌, ◌≡◌, arith, ltb, if◌then◌else◌,
}

pub data TimeUnit : Type 0 where
  days hours minutes seconds : TimeUnit

unit_text : TimeUnit → String
unit_text days = "d "
unit_text hours = "h "
unit_text minutes = "m "
unit_text seconds = "s "

abbrev part : ℕ → TimeUnit → List (ℕ × TimeUnit)
part n u = if ltb 0 n then (n, u) ∷ [] else []

-- The parts that are not zero.
unfoldable pub parts_of : ℕ → List (ℕ × TimeUnit)
parts_of sec =
    part (sec / 3600 / 24) days
    ++ (part (sec / 3600 % 24) hours ++ (part (sec / 60 % 60) minutes ++ part (sec % 60) seconds))

print : (ℕ → String) → List (ℕ × TimeUnit) → String
unfolding unit_text
print decimal [] = ""
print decimal ((n, u) ∷ parts) =
    string_append (decimal n) (string_append (unit_text u) (print decimal parts))

-- `decimal` is %d of a number.
unfoldable pub get_duration_format_by_second : (ℕ → String) → ℕ → String
unfolding print parts_of
get_duration_format_by_second decimal sec = print decimal (parts_of sec)

abbrev pub in_seconds : TimeUnit → ℕ
in_seconds days = 86400
in_seconds hours = 3600
in_seconds minutes = 60
in_seconds seconds = 1

abbrev pub total_seconds : List (ℕ × TimeUnit) → ℕ
total_seconds [] = 0
total_seconds ((n, u) ∷ parts) = n * in_seconds u + total_seconds parts

total-append :
    (xs ys : List (ℕ × TimeUnit)) → total_seconds (xs ++ ys) ≡ total_seconds xs + total_seconds ys
total-append [] ys = omega arith
total-append ((n, u) ∷ xs) ys = omega (arith, total-append xs ys)

total-part : (n : ℕ) (u : TimeUnit) → total_seconds (part n u) ≡ n * in_seconds u
total-part n u = ground arith

-- The parts add up to the seconds again.
pub total_seconds-parts_of : (sec : ℕ) → total_seconds (parts_of sec) ≡ sec
unfolding parts_of
total_seconds-parts_of sec =
    let d = sec / 3600 / 24 in
    let h = sec / 3600 % 24 in
    let m = sec / 60 % 60 in
    let s = sec % 60 in
    omega (
      arith,
      total-append (part d days) (part h hours ++ (part m minutes ++ part s seconds)),
      total-append (part h hours) (part m minutes ++ part s seconds),
      total-append (part m minutes) (part s seconds),
      total-part d days,
      total-part h hours,
      total-part m minutes,
      total-part s seconds,
    )
