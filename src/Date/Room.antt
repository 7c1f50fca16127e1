-- ===== src/Date/Room.antt =====
-- The buffer of `Date` in src/date.c: ten bytes for each byte of the format.
use goombaserver.Common.{
  ℕ, zero, suc, ◌+◌, ◌-◌, ◌*◌, ◌/◌, ◌%◌, ◌<◌, ◌≤◌, ◌≡◌, refl, ap, Bool, true, false, Bool-cases,
  List, [], ◌∷◌, Bytes, length, length-append, ltb, ◌==◌, if◌then◌else◌, All, arith, inl, inr,
}
use goombaserver.Common.Int.{ℤ, pos, negsuc, ◌+ℤ◌, rem}
use goombaserver.Numerals.{digits, digits_from, decimal}
use goombaserver.Date.{
  Tm, months, days, entry_at, table_at, two_digits, three_digits, short_year, write_field,
  write_date, date_buffer,
}

abbrev pub Below : ℕ → ℤ → Type 0
Below k z = (n : ℕ) × (z ≡ pos n) × (n < k)

-- What the C library says of the fields, and a year before 10000.
abbrev pub InRange : Tm → Type 0
InRange tm =
    Below 62 tm.tm_sec
    × Below 60 tm.tm_min
    × Below 24 tm.tm_hour
    × Below 32 tm.tm_mday
    × Below 12 tm.tm_mon
    × Below 8100 tm.tm_year
    × Below 7 tm.tm_wday
    × Below 366 tm.tm_yday

digits_1 : (fuel n : ℕ) (out : Bytes) → n < 10 → length (digits_from fuel n out) ≡ suc (length out)
unfolding digits_from
digits_1 zero n out lt = refl
digits_1 (suc fuel) n out lt = ground (arith, lt)

digits_2 : (fuel n : ℕ) (out : Bytes) → n < 100 → length (digits_from fuel n out) ≤ 2 + length out
unfolding digits_from
digits_2 zero n out lt = omega arith
digits_2 (suc fuel) n out lt = elim (Bool-cases (ltb n 10)) [
  | inl e ↦ rw e (omega arith)
  | inr e ↦ rw e (omega (arith, digits_1 fuel (n / 10) ((48 + n % 10) ∷ out) (omega (arith, lt))))
]

digits_3 : (fuel n : ℕ) (out : Bytes) → n < 1000 → length (digits_from fuel n out) ≤ 3 + length out
unfolding digits_from
digits_3 zero n out lt = omega arith
digits_3 (suc fuel) n out lt = elim (Bool-cases (ltb n 10)) [
  | inl e ↦ rw e (omega arith)
  | inr e ↦ rw e (omega (arith, digits_2 fuel (n / 10) ((48 + n % 10) ∷ out) (omega (arith, lt))))
]

digits_4 : (fuel n : ℕ) (out : Bytes) → n < 10000 → length (digits_from fuel n out) ≤ 4 + length out
unfolding digits_from
digits_4 zero n out lt = omega arith
digits_4 (suc fuel) n out lt = elim (Bool-cases (ltb n 10)) [
  | inl e ↦ rw e (omega arith)
  | inr e ↦ rw e (omega (arith, digits_3 fuel (n / 10) ((48 + n % 10) ∷ out) (omega (arith, lt))))
]

length-digits : (n : ℕ) → n < 10000 → length (digits n) ≤ 4
unfolding digits
length-digits n lt = digits_4 n n [] lt

two_digits_small : (z : ℤ) → Below 10000 z → length (two_digits z) ≤ 10
unfolding two_digits
two_digits_small z (n, e, lt) = rw e (ground (arith, length-digits n lt))

three_digits_small : (z : ℤ) → Below 10000 z → length (three_digits z) ≤ 10
unfolding three_digits
three_digits_small z (n, e, lt) = rw e (ground (arith, length-digits n lt))

entry_small : (ts : List Bytes) (n : ℕ) → All (λ t. length t ≤ 10) ts → length (entry_at ts n) ≤ 10
unfolding entry_at
entry_small [] n h = omega arith
entry_small (t ∷ ts) zero (h, hs) = h
entry_small (t ∷ ts) (suc n) (h, hs) = entry_small ts n hs

table_small : (ts : List Bytes) (z : ℤ) → All (λ t. length t ≤ 10) ts → length (table_at ts z) ≤ 10
table_small ts (pos n) h = entry_small ts n h
table_small ts (negsuc n) h = omega arith

if_small :
    (b : Bool) (x y : Bytes) → length x ≤ 10 → length y ≤ 10 → length (if b then x else y) ≤ 10
if_small true x y hx hy = hx
if_small false x y hx hy = hy

year_small : (z : ℤ) → Below 8100 z → Below 10000 (short_year z)
year_small z (n, e, lt) =
    (if ltb n 100 then n else n - 100, rw e (ground arith), ground (arith, lt))

sum_small : (k : ℕ) (z : ℤ) → k ≤ 1900 → Below 8100 z → Below 10000 (pos k +ℤ z)
sum_small k z le (n, e, lt) = (k + n, rw e (ground arith), omega (arith, lt, le))

next_small : (z : ℤ) → Below 12 z → Below 10000 (z +ℤ pos 1)
next_small z (n, e, lt) = (n + 1, rw e (ground arith), omega (arith, lt))

rem_small : (z : ℤ) → Below 24 z → Below 10000 (rem z (pos 12))
rem_small z (n, e, lt) = (n - n / 12 * 12, rw e (ground arith), omega (arith, lt))

Below-more : (k : ℕ) (z : ℤ) → k ≤ 10000 → Below k z → Below 10000 z
Below-more k z le (n, e, lt) = (n, e, omega (arith, le, lt))

decimal_small : (z : ℤ) → Below 10000 z → length (decimal z) ≤ 10
unfolding decimal
decimal_small z (n, e, lt) = rw e (omega (arith, length-digits n lt))

months_small : All (λ t. length t ≤ 10) months
unfolding months
months_small = (
  omega arith,
  (
    omega arith,
    (
      omega arith,
      (
        omega arith,
        (
          omega arith,
          (
            omega arith,
            (
              omega arith,
              (omega arith, (omega arith, (omega arith, (omega arith, (omega arith, tt))))),
            ),
          ),
        ),
      ),
    ),
  ),
)

days_small : All (λ t. length t ≤ 10) days
unfolding days
days_small = (
  omega arith,
  (omega arith, (omega arith, (omega arith, (omega arith, (omega arith, (omega arith, tt)))))),
)

field_small :
    (t : ℤ) (tm : Tm) (c : ℕ)
    → InRange tm
    → length (decimal t) ≤ 10
    → length (write_field t tm c) ≤ 10
unfolding write_field
field_small t tm c (sec, min, hour, mday, mon, year, wday, yday) le =
    if_small (c == 121) _ _ (two_digits_small _ (year_small tm.tm_year year)) (
      if_small (c == 122) _ _ (three_digits_small _ (Below-more 366 tm.tm_yday (omega arith) yday))
        (if_small (c == 85) _ _ le (
          if_small (c == 89) _ _ (decimal_small _ (sum_small 1900 tm.tm_year (omega arith) year)) (
            if_small (c == 77) _ _ (table_small months tm.tm_mon months_small) (
              if_small (c == 109) _ _ (two_digits_small _ (next_small tm.tm_mon mon)) (
                if_small (c == 68) _ _ (table_small days tm.tm_wday days_small) (
                  if_small (c == 100) _ _
                    (two_digits_small _ (Below-more 32 tm.tm_mday (omega arith) mday))
                    (if_small (c == 72) _ _
                      (two_digits_small _ (Below-more 24 tm.tm_hour (omega arith) hour))
                      (if_small (c == 104) _ _ (two_digits_small _ (rem_small tm.tm_hour hour)) (
                        if_small (c == 105) _ _
                          (two_digits_small _ (Below-more 60 tm.tm_min (omega arith) min))
                          (if_small (c == 115) _ _
                            (two_digits_small _ (Below-more 62 tm.tm_sec (omega arith) sec))
                            (omega arith))))))))))))

date_small :
    (t : ℤ) (tm : Tm) (format : Bytes)
    → InRange tm
    → length (decimal t) ≤ 10
    → length (write_date t tm format) ≤ 10 * length format
unfolding write_date
date_small t tm [] range le = omega arith
date_small t tm (c ∷ s) range le =
    let field = field_small t tm c range le in
    let rest = date_small t tm s range le in
    omega (arith, field, rest, length-append (write_field t tm c) (write_date t tm s))

-- A format of `n` letters `U`.
abbrev pub all_seconds : ℕ → Bytes
all_seconds zero = []
all_seconds (suc n) = 85 ∷ all_seconds n

length-all_seconds : (n : ℕ) → length (all_seconds n) ≡ n
length-all_seconds zero = refl
length-all_seconds (suc n) = ap suc (length-all_seconds n)

seconds_long :
    (t : ℤ) (tm : Tm) (n : ℕ)
    → 11 ≤ length (decimal t)
    → 11 * n ≤ length (write_date t tm (all_seconds n))
unfolding write_date write_field
seconds_long t tm zero le = omega arith
seconds_long t tm (suc n) le =
    omega (
      arith,
      le,
      seconds_long t tm n le,
      length-append (decimal t) (write_date t tm (all_seconds n)),
    )

-- For a date that the C library gives, with a year before 10000 and a time of at most ten digits, what
-- `Date` writes and its NUL fit into the buffer. But with a time of eleven digits or more, as a script
-- may pass it, ten letters `U` or more in the format write beyond the buffer.
pub write_date_fits :
    (t t' : ℤ) (tm : Tm) (format : Bytes) (n : ℕ)
    → InRange tm
    → length (decimal t) ≤ 10
    → 11 ≤ length (decimal t')
    → 10 ≤ n
    → (length (write_date t tm format) < date_buffer format)
      × (date_buffer (all_seconds n) ≤ length (write_date t' tm (all_seconds n)))
write_date_fits t t' tm format n range le long many = (
  omega (arith, date_small t tm format range le),
  omega (arith, seconds_long t' tm n long, length-all_seconds n, many),
)
