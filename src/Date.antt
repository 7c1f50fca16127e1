-- ===== src/Date.antt =====
-- src/date.c: `Date`, which writes a date by a format, and `MkTime`. The clock, the calendar and
-- `mktime` are the C library's.
pub mod Room
use goombaserver.Common.{
  ℕ, zero, suc, ◌+◌, ◌-◌, ◌*◌, Bool, true, false, ◌||◌, Option, none, some, ◌>>=◌, List, [], ◌∷◌,
  ◌++◌, Bytes, String, codes, length, ltb, ◌==◌, if◌then◌else◌,
}
use goombaserver.Common.Int.{ℤ, pos, negsuc, ◌+ℤ◌, ◌-ℤ◌, ltb_ℤ, rem, to_int}
use goombaserver.Floats.{Floats}
use goombaserver.Numerals.{digits, decimal, atol}
use goombaserver.Machine.{lnumber, Item, Machine, error, pop}
use goombaserver.Expr.{push_number}

-- `struct tm` of the C library.
pub record Tm : Type 0 where
  pub tm_sec : ℤ
  pub tm_min : ℤ
  pub tm_hour : ℤ
  pub tm_mday : ℤ
  pub tm_mon : ℤ
  pub tm_year : ℤ
  pub tm_wday : ℤ
  pub tm_yday : ℤ
  pub tm_isdst : ℤ

unfoldable pub months : List Bytes
months =
    codes "Jan"
    ∷ codes "Feb"
    ∷ codes "Mar"
    ∷ codes "Apr"
    ∷ codes "May"
    ∷ codes "June"
    ∷ codes "July"
    ∷ codes "Aug"
    ∷ codes "Sept"
    ∷ codes "Oct"
    ∷ codes "Nov"
    ∷ codes "Dec"
    ∷ []

unfoldable pub days : List Bytes
days =
    codes "Sun"
    ∷ codes "Mon"
    ∷ codes "Tue"
    ∷ codes "Wed"
    ∷ codes "Thu"
    ∷ codes "Fri"
    ∷ codes "Sat"
    ∷ []

-- The entry of a table; an index out of range, which the library does not give, reads no text here.
unfoldable pub entry_at : List Bytes → ℕ → Bytes
entry_at [] n = []
entry_at (t ∷ ts) zero = t
entry_at (t ∷ ts) (suc n) = entry_at ts n

abbrev pub table_at : List Bytes → ℤ → Bytes
table_at ts (pos n) = entry_at ts n
table_at ts (negsuc n) = []

-- `sprintf` with `%02d` and with `%03d`; the sign counts for the width.
unfoldable pub two_digits : ℤ → Bytes
two_digits (pos n) = if ltb n 10 then 48 ∷ digits n else digits n
two_digits (negsuc n) = 45 ∷ digits (suc n)

unfoldable pub three_digits : ℤ → Bytes
three_digits (pos n) =
    if ltb n 10 then 48 ∷ 48 ∷ digits n else if ltb n 100 then 48 ∷ digits n else digits n
three_digits (negsuc n) = if ltb n 9 then 45 ∷ 48 ∷ digits (suc n) else 45 ∷ digits (suc n)

abbrev pub short_year : ℤ → ℤ
short_year y = if ltb_ℤ y (pos 100) then y else y -ℤ pos 100

-- The switch of `Date`: what the byte `c` of the format writes, for the time `t`.
unfoldable pub write_field : ℤ → Tm → ℕ → Bytes
unfolding months days entry_at two_digits three_digits
write_field t tm c =
    if c == 121
    then two_digits (short_year tm.tm_year)
    else if c == 122
    then three_digits tm.tm_yday
    else if c == 85
    then decimal t
    else if c == 89
    then decimal (pos 1900 +ℤ tm.tm_year)
    else if c == 77
    then table_at months tm.tm_mon
    else if c == 109
    then two_digits (tm.tm_mon +ℤ pos 1)
    else if c == 68
    then table_at days tm.tm_wday
    else if c == 100
    then two_digits tm.tm_mday
    else if c == 72
    then two_digits tm.tm_hour
    else if c == 104
    then two_digits (rem tm.tm_hour (pos 12))
    else if c == 105
    then two_digits tm.tm_min
    else if c == 115
    then two_digits tm.tm_sec
    else c ∷ []

-- The loop of `Date`; the buffer's size is `10 * (strlen(format)+1)`.
unfoldable pub write_date : ℤ → Tm → Bytes → Bytes
unfolding write_field
write_date t tm [] = []
write_date t tm (c ∷ s) = write_field t tm c ++ write_date t tm s

abbrev pub date_buffer : Bytes → ℕ
date_buffer format = 10 * (length format + 1)

-- What the arguments, the last one first, put into the current time.
unfoldable pub set_fields : List ℤ → Tm → Tm
set_fields [] tm = tm
set_fields (h ∷ []) tm = record tm { tm_hour = h }
set_fields (m ∷ h ∷ []) tm = record tm { tm_hour = h; tm_min = m }
set_fields (s ∷ m ∷ h ∷ []) tm = record tm { tm_hour = h; tm_min = m; tm_sec = s }
set_fields (o ∷ s ∷ m ∷ h ∷ []) tm = record tm {
  tm_hour = h;
  tm_min = m;
  tm_sec = s;
  tm_mon = o -ℤ pos 1;
}
set_fields (d ∷ o ∷ s ∷ m ∷ h ∷ []) tm = record tm {
  tm_hour = h;
  tm_min = m;
  tm_sec = s;
  tm_mon = o -ℤ pos 1;
  tm_mday = d;
}
set_fields (y ∷ d ∷ o ∷ s ∷ m ∷ h ∷ []) tm = record tm {
  tm_hour = h;
  tm_min = m;
  tm_sec = s;
  tm_mon = o -ℤ pos 1;
  tm_mday = d;
  tm_year = if ltb_ℤ (pos 1000) y then y -ℤ pos 1900 else y;
}
set_fields (y ∷ d ∷ o ∷ s ∷ m ∷ h ∷ x ∷ xs) tm = tm

-- An error is reported, and the function goes on. The last four tests look at the minutes where they
-- mean their own field.
unfoldable pub checks : Tm → List (Bool × String)
checks tm =
    (ltb_ℤ (pos 24) tm.tm_hour || ltb_ℤ tm.tm_hour (pos 0), "Hour argument to mktime is invalid")
    ∷ (ltb_ℤ (pos 60) tm.tm_min || ltb_ℤ tm.tm_min (pos 0), "Minute argument to mktime is invalid")
    ∷ (ltb_ℤ (pos 61) tm.tm_sec || ltb_ℤ tm.tm_min (pos 0), "Second argument to mktime is invalid")
    ∷ (ltb_ℤ (pos 11) tm.tm_mon || ltb_ℤ tm.tm_min (pos 0), "Month argument to mktime is invalid")
    ∷ (
      ltb_ℤ (pos 31) tm.tm_mday || ltb_ℤ tm.tm_min (pos 0),
      "Day of month argument to mktime is invalid",
    )
    ∷ (
      ltb_ℤ (pos 138) tm.tm_year || ltb_ℤ tm.tm_year (pos 70),
      "Calendar times before 00:00:00 UTC, January 1, 1970 or after 03:14:07 UTS, January 19, 2038 cannot be represented by mktime",
    )
    ∷ []

module _ {D : Type 0} where
  abbrev pub report : List (Bool × String) → Machine D → Machine D
  report [] m = m
  report ((b, message) ∷ cs) m = let m' = if b then error message m else m in report cs m'

  abbrev pub rest_of : Machine D → Option (Item D × Machine D) → Machine D
  rest_of m none = m
  rest_of m (some (s, m')) = m'

  -- The loop over `args` arguments: the item `s` was popped already, and each round pops one more;
  -- `none` is the use of a NULL pointer.
  unfoldable pub take_arguments :
      ℕ → Option (Item D × Machine D) → Machine D → Option (List ℤ × Machine D)
  unfolding pop
  take_arguments zero s m = some ([], rest_of m s)
  take_arguments (suc args) none m = none
  take_arguments (suc args) (some (s, m')) m =
      take_arguments args (pop m') m'
      >>= (λ r. let (vs, m'') = r in some (to_int s.intval ∷ vs, m''))

  -- `MkTime`, at the current time `now`; `mktime` gives the number of seconds.
  unfoldable pub mk_time : ⦃F : Floats D⦄ → (Tm → ℤ) → Tm → ℕ → Machine D → Option (Machine D)
  unfolding take_arguments set_fields checks push_number
  mk_time mktime now args m = take_arguments args (pop m) m >>= (λ r.
      let (vs, m') = r in
      let tm = set_fields vs (record now { tm_isdst = negsuc 0 }) in
      some (push_number lnumber (decimal (mktime tm) ++ 10 ∷ []) (report (checks tm) m')))
