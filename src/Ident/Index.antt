-- ===== src/Ident/Index.antt =====
-- `CheckIdentType` and `GetIdentIndex` of src/type.c on the name of an array's element.
use goombaserver.Common.{
  ℕ, ◌≡◌, refl, sym, ap, ◌∙◌, none, some, [], ◌∷◌, ◌++◌, Bytes, length, Lacks, ltb, if◌then◌else◌,
  append_assoc, arith,
}
use goombaserver.Text.Fields.{strchr_behind}
use goombaserver.Ident.{before_last, copy_index, get_ident_index}

before_last-Lacks : (s : Bytes) (c : ℕ) → Lacks c s → before_last s c ≡ none
unfolding before_last
before_last-Lacks [] c _ = refl
before_last-Lacks (b ∷ s) c (ne, all) = rw (before_last-Lacks s c all) (ground arith)

before_last_mid :
    (front back : Bytes) (c : ℕ) → Lacks c back → before_last (front ++ c ∷ back) c ≡ some front
unfolding before_last
before_last_mid [] back c all = rw (before_last-Lacks back c all) (ground arith)
before_last_mid (b ∷ front) back c all = rw (before_last_mid front back c all) refl

-- Of a name `name[index]rest`, with no `[` in the first part and no `]` in the last, `GetIdentIndex`
-- gives the index if it has fewer than 256 bytes, and writes past its buffer if it has more.
pub get_ident_index_lem :
    (name inside rest : Bytes)
    → Lacks 91 name
    → Lacks 93 rest
    → get_ident_index (name ++ 91 ∷ (inside ++ 93 ∷ rest))
      ≡ (if ltb (length inside) 256 then some inside else none)
unfolding get_ident_index copy_index
get_ident_index_lem name inside rest hn hr =
    let whole : before_last (name ++ 91 ∷ (inside ++ 93 ∷ rest)) 93 ≡ some (name ++ 91 ∷ inside) =
      ap (λ l. before_last l 93) (sym (append_assoc name (91 ∷ inside) (93 ∷ rest)))
      ∙ before_last_mid (name ++ 91 ∷ inside) rest 93 hr in
    rw
      (
        strchr_behind name (inside ++ 93 ∷ rest) 91 hn,
        whole,
        before_last_mid inside rest 93 hr,
        get_ident_index,
      )
      refl
