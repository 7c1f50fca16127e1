-- ===== src/Access/Written.antt =====
-- Access rules as they are written, and what `StrtoAccess` of src/acc.c makes of them.
use goombaserver.Common.{
  ℕ, ◌≡◌, refl, sym, ap, ap₂, ◌∙◌, Bool, true, false, Option, none, some, List, [], ◌∷◌, ◌++◌, All,
  Lacks, Bytes, codes, drop, bytes_eq, ◌==◌, if◌then◌else◌, arith, append_assoc, append-nil,
  All-append,
}
use goombaserver.Format.{strip_slashes}
use goombaserver.Access.{
  field_and, split, fields, AccessInfo, State, get_default, get_mode, get_password, get_pattern,
  Reader, mode_bits, has_password, starts_with, pattern_type, begins_pattern, read_pattern,
  read_mode, read_in, read_field, read_fields, strto_access,
}

pub data RuleType : Type 0 where
  domain mail referer browser : RuleType

abbrev pub prefix : RuleType → Bytes
prefix domain = codes "dom"
prefix mail = codes "mai"
prefix referer = codes "ref"
prefix browser = codes "bro"

abbrev pub type_number : RuleType → ℕ
type_number domain = 0
type_number mail = 1
type_number referer = 2
type_number browser = 3

-- A rule: its mode letters, its password if there is one, and its pattern.
pub record Rule : Type 0 where
  pub letters : Bytes
  pub password : Option Bytes
  pub type : RuleType
  pub patt : Bytes

abbrev pub password_field : Option Bytes → List Bytes
password_field none = []
password_field (some p) = p ∷ []

abbrev pub rule_fields : Rule → List Bytes
rule_fields r = r.letters ∷ (password_field r.password ++ (prefix r.type ++ r.patt) ∷ [])

unfoldable pub rules_fields : List Rule → List Bytes
rules_fields [] = []
rules_fields (r ∷ rs) = rule_fields r ++ rules_fields rs

-- The fields with a separator behind each.
unfoldable pub join : List Bytes → Bytes
join [] = []
join (s ∷ ss) = s ++ 27 ∷ join ss

abbrev pub is_nonempty : Bytes → Bool
is_nonempty [] = false
is_nonempty (c ∷ s) = true

-- A field is not empty, and has no separator in it.
abbrev pub IsField : Bytes → Type 0
IsField s = (is_nonempty s ≡ true) × Lacks 27 s

abbrev pub is_some : Option Bytes → Bool
is_some none = false
is_some (some p) = true

-- The letters are no pattern, and have a P exactly if there is a password; the pattern has no backslash.
abbrev pub IsRule : Rule → Type 0
IsRule r =
    All IsField (rule_fields r)
    × Lacks 92 r.patt
    × (begins_pattern r.letters ≡ false)
    × (has_password r.letters ≡ is_some r.password)

-- A rule without a password keeps that of an earlier one.
abbrev pub kept : Option Bytes → Option Bytes → Option Bytes
kept none old = old
kept (some p) old = some p

unfoldable pub expected : ℕ → Option Bytes → List Rule → List AccessInfo
expected def old [] = []
expected def old (r ∷ rs) =
    record {
      def = def;
      mode = mode_bits r.letters;
      password = kept r.password old;
      type = type_number r.type;
      patt = r.patt;
    }
    ∷ expected def (kept r.password old) rs

strip_slashes-Lacks : (s : Bytes) → Lacks 92 s → strip_slashes s ≡ s
unfolding strip_slashes
strip_slashes-Lacks [] lacks = refl
strip_slashes-Lacks (c ∷ []) (ne, lacks) = ground (arith, ne)
strip_slashes-Lacks (c ∷ d ∷ s) (ne, lacks) =
    let e : (c == 92) ≡ false = ground (arith, ne) in
    rw (e, strip_slashes) (ap (λ l. c ∷ l) (strip_slashes-Lacks (d ∷ s) lacks))

split_field : (s rest : Bytes) → Lacks 27 s → split (s ++ 27 ∷ rest) ≡ (s, fields rest)
unfolding split fields
split_field [] rest _ = refl
split_field (c ∷ s) rest (ne, all) =
    let e : (c == 27) ≡ false = ground arith in rw (split_field s rest all, e) refl

field_and_lem : (s : Bytes) (ts : List Bytes) → is_nonempty s ≡ true → field_and s ts ≡ s ∷ ts
field_and_lem [] ts e = ground arith
field_and_lem (c ∷ s) ts e = refl

fields-join : (ss : List Bytes) → All IsField ss → fields (join ss) ≡ ss
unfolding fields join
fields-join [] _ = unfold split in refl
fields-join (s ∷ ss) ((ne, lacks), all) =
    ap (λ p. field_and p.0 p.1) (split_field s (join ss) lacks)
    ∙ (field_and_lem s (fields (join ss)) ne ∙ ap (λ ts. s ∷ ts) (fields-join ss all))

prefix_type : (t : RuleType) (patt : Bytes) → pattern_type (prefix t ++ patt) ≡ type_number t
unfolding pattern_type starts_with
prefix_type domain patt = refl
prefix_type mail patt = refl
prefix_type referer patt = refl
prefix_type browser patt = refl

drop-prefix : (t : RuleType) (patt : Bytes) → drop 3 (prefix t ++ patt) ≡ patt
drop-prefix domain patt = refl
drop-prefix mail patt = refl
drop-prefix referer patt = refl
drop-prefix browser patt = refl

reader_at : State → ℕ → ℕ → Option Bytes → List AccessInfo → Reader
reader_at state def mode password rules = record {
  state = state;
  def = def;
  mode = mode;
  password = password;
  rules = rules;
}

read_letters :
    (letters : Bytes) (b : Bool) (def mode : ℕ) (old : Option Bytes) (rules : List AccessInfo)
    → begins_pattern letters ≡ false
    → has_password letters ≡ b
    → read_field letters (reader_at get_mode def mode old rules)
      ≡ reader_at (if b then get_password else get_pattern) def (mode_bits letters) old rules
unfolding read_field read_mode reader_at
read_letters letters b def mode old rules e h = rw (e, read_in) (rw h refl)

info : ℕ → ℕ → Option Bytes → RuleType → Bytes → AccessInfo
info def mode password t patt = record {
  def = def;
  mode = mode;
  password = password;
  type = type_number t;
  patt = strip_slashes patt;
}

read_patt :
    (t : RuleType) (patt : Bytes) (def mode : ℕ) (old : Option Bytes) (rules : List AccessInfo)
    → read_field (prefix t ++ patt) (reader_at get_pattern def mode old rules)
      ≡ reader_at get_mode def mode old (rules ++ info def mode old t patt ∷ [])
unfolding read_field read_pattern reader_at info
read_patt t patt def mode old rules =
    ap₂
      (λ n p. reader_at get_mode def mode old (
        rules
        ++ record { def = def; mode = mode; password = old; type = n; patt = strip_slashes p }
          ∷ []))
      (prefix_type t patt) (drop-prefix t patt)

one_rule :
    (letters : Bytes) (password : Option Bytes) (t : RuleType) (patt : Bytes) (ts : List Bytes)
    (def mode : ℕ) (old : Option Bytes) (rules : List AccessInfo)
    → begins_pattern letters ≡ false
    → has_password letters ≡ is_some password
    → read_fields
        (letters ∷ (password_field password ++ (prefix t ++ patt) ∷ ts))
        (reader_at get_mode def mode old rules)
      ≡ read_fields ts (
          reader_at get_mode def
            (mode_bits letters)
            (kept password old)
            (rules ++ info def (mode_bits letters) (kept password old) t patt ∷ []))
unfolding read_fields
one_rule letters none t patt ts def mode old rules e h =
    ap (λ r. read_fields ts (read_field (prefix t ++ patt) r))
      (read_letters letters false def mode old rules e h)
    ∙ ap (read_fields ts) (read_patt t patt def (mode_bits letters) old rules)
one_rule letters (some p) t patt ts def mode old rules e h =
    ap (λ r. read_fields ts (read_field (prefix t ++ patt) (read_field p r)))
      (read_letters letters true def mode old rules e h)
    ∙ (unfold read_field reader_at in
        ap (read_fields ts) (read_patt t patt def (mode_bits letters) (some p) rules))

rule_append :
    (r : Rule) (ts : List Bytes)
    → rule_fields r ++ ts
      ≡ r.letters ∷ (password_field r.password ++ (prefix r.type ++ r.patt) ∷ ts)
rule_append r ts =
    ap (λ l. r.letters ∷ l)
      (append_assoc (password_field r.password) ((prefix r.type ++ r.patt) ∷ []) ts)

read-rules :
    (rs : List Rule) (def mode : ℕ) (old : Option Bytes) (rules : List AccessInfo)
    → All IsRule rs
    → (read_fields (rules_fields rs) (reader_at get_mode def mode old rules)).rules
      ≡ rules ++ expected def old rs
unfolding rules_fields expected info
read-rules [] def mode old rules _ = unfold read_fields reader_at in sym (append-nil rules)
read-rules (r ∷ rs) def mode old rules ((_, plain, e, h), all) =
    ap (λ l. (read_fields l (reader_at get_mode def mode old rules)).rules)
      (rule_append r (rules_fields rs))
    ∙ (ap (λ q. q.rules)
          (one_rule r.letters r.password r.type r.patt (rules_fields rs) def mode old rules e h)
        ∙ (read-rules rs def (mode_bits r.letters) (kept r.password old) _ all
            ∙ (append_assoc rules
                  (info def (mode_bits r.letters) (kept r.password old) r.type r.patt ∷ []) _
                ∙ ap
                    (λ s.
                      rules
                      ++ record {
                        def = def;
                        mode = mode_bits r.letters;
                        password = kept r.password old;
                        type = type_number r.type;
                        patt = s;
                      }
                        ∷ expected def (kept r.password old) rs)
                    (strip_slashes-Lacks r.patt plain))))

rules-IsField : (rs : List Rule) → All IsRule rs → All IsField (rules_fields rs)
unfolding rules_fields
rules-IsField [] _ = tt
rules-IsField (r ∷ rs) ((h, _, _, _), all) =
    All-append IsField (rule_fields r) (rules_fields rs) h (rules-IsField rs all)

-- From a text that was written from rules, a field for the default and then the fields of each rule,
-- `StrtoAccess` reads the rules, each with its mode bits, its type and its pattern, which has no
-- backslash (one would be stripped); a rule without a password keeps that of the last one that had one.
pub strto_access-join :
    (first : Bytes) (rs : List Rule)
    → IsField first
    → All IsRule rs
    → strto_access (join (first ∷ rules_fields rs))
      ≡ expected (if bytes_eq first (codes "pri") then 0 else 1) none rs
unfolding strto_access read_fields expected reader_at
strto_access-join first rs hf hs =
    ap (λ l. (read_fields l (reader_at get_default 0 0 none [])).rules)
      (fields-join (first ∷ rules_fields rs) (hf, rules-IsField rs hs))
    ∙ (unfold read_fields read_field read_in reader_at in
        read-rules rs (if bytes_eq first (codes "pri") then 0 else 1) 0 none [] hs)
