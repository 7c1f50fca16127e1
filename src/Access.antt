-- ===== src/Access.antt =====
-- `StrtoAccess` of src/acc.c: the text of a page's access rules, read by a state machine over its
-- fields.
pub mod Written
use goombaserver.Common.{
  ℕ, zero, suc, ◌+◌, Bool, true, false, not, ◌&&◌, ◌||◌, Option, none, some, List, [], ◌∷◌, ◌++◌,
  Bytes, codes, drop, bytes_eq, ◌==◌, if◌then◌else◌,
}
use goombaserver.Common.Int.{ℤ, pos, ltb_ℤ}
use goombaserver.Text.{strchr}
use goombaserver.Text.Chars.{signed_char}
use goombaserver.Format.{strip_slashes}

-- A field, and the fields behind it: `strtok` takes several separators in a row for one.
abbrev pub field_and : Bytes → List Bytes → List Bytes
field_and [] ts = ts
field_and (c ∷ w) ts = (c ∷ w) ∷ ts

-- `strtok` of the C library with the byte 27: what stands before the first separator, and the fields
-- behind it.
unfoldable pub split : Bytes → Bytes × List Bytes
split [] = ([], [])
split (c ∷ s) = let (w, ts) = split s in if c == 27 then ([], field_and w ts) else (c ∷ w, ts)

unfoldable pub fields : Bytes → List Bytes
fields s = let (w, ts) = split s in field_and w ts

pub record AccessInfo : Type 0 where
  pub def : ℕ
  pub mode : ℕ
  pub password : Option Bytes
  pub type : ℕ
  pub patt : Bytes

-- The states 0 to 3.
pub data State : Type 0 where
  get_default get_mode get_password get_pattern : State

-- The local variables, with the list that `top` points to.
pub record Reader : Type 0 where
  pub state : State
  pub def : ℕ
  pub mode : ℕ
  pub password : Option Bytes
  pub rules : List AccessInfo

abbrev has : Bytes → ℕ → Bool
has s c = elim (strchr s c) [ none ↦ false | some _ ↦ true ]

abbrev bit : Bytes → ℕ → ℕ → ℕ
bit s c v = if has s c then v else 0

-- The bits are different, so that `|=` adds them.
unfoldable pub mode_bits : Bytes → ℕ
mode_bits s =
    bit s 65 2
    + (bit s 66 4
        + (bit s 76 32
            + (bit s 69 1 + (bit s 78 16 + (bit s 83 64 + (bit s 72 128 + bit s 80 8))))))

unfoldable pub has_password : Bytes → Bool
has_password s = has s 80

-- `strncmp` with three bytes is 0.
unfoldable pub starts_with : Bytes → Bytes → Bool
starts_with [] s = true
starts_with (c ∷ p) [] = false
starts_with (c ∷ p) (d ∷ s) = (c == d) && starts_with p s

unfoldable pub pattern_type : Bytes → ℕ
pattern_type s =
    if starts_with (codes "dom") s
    then 0
    else if starts_with (codes "mai") s
    then 1
    else if starts_with (codes "ref") s
    then 2
    else if starts_with (codes "bro") s
    then 3
    else 0

-- A field that does not start with a capital is no mode, and the pattern itself.
unfoldable pub begins_pattern : Bytes → Bool
begins_pattern [] = false
begins_pattern (c ∷ s) = ltb_ℤ (pos 90) (signed_char c)

unfoldable pub read_pattern : Bytes → Reader → Reader
read_pattern s r = record r {
  state = get_mode;
  rules =
      r.rules
      ++ record {
        def = r.def;
        mode = r.mode;
        password = r.password;
        type = pattern_type s;
        patt = strip_slashes (drop 3 s);
      }
        ∷ [];
}

unfoldable pub read_mode : Bytes → Reader → Reader
read_mode s r = record r {
  state = if has_password s then get_password else get_pattern;
  mode = mode_bits s;
}

-- The switch on the state.
unfoldable pub read_in : State → Bytes → Reader → Reader
unfolding read_pattern read_mode
read_in get_default s r = record r {
  state = get_mode;
  def = if bytes_eq s (codes "pri") then 0 else 1;
}
read_in get_mode s r = if begins_pattern s then read_pattern s r else read_mode s r
read_in get_password s r = record r { state = get_pattern; password = some s }
read_in get_pattern s r = read_pattern s r

unfoldable pub read_field : Bytes → Reader → Reader
unfolding read_in
read_field s r = read_in r.state s r

unfoldable pub read_fields : List Bytes → Reader → Reader
read_fields [] r = r
read_fields (s ∷ ss) r = read_fields ss (read_field s r)

unfoldable pub strto_access : Bytes → List AccessInfo
strto_access str =
    (read_fields (fields str)
      (record { state = get_default; def = 0; mode = 0; password = none; rules = [] })).rules
