-- ===== src/TextExamples.antt =====
-- The theorems on texts, formats, numbers and operators, each at a concrete input.
use goombaserver.Common.{
  bytes_eq, ℕ, ◌≡◌, refl, true, none, some, List, [], ◌∷◌, ◌++◌, codes, All, Lacks, arith,
}
use goombaserver.Common.Int.{pos}
use goombaserver.Floats.{whole}
use goombaserver.Cond.Program.{with_value}
use goombaserver.Scenario.{start, number, text}
use goombaserver.Text.{strchr, url_encode, parse_url}
use goombaserver.Text.RoundTrip.{parse_url-url_encode}
use goombaserver.Text.Pieces.{quote_meta, sub_str}
use goombaserver.Text.Slices.{strip_slashes-quote_meta, sub_str-take}
use goombaserver.Text.Form.{check_result}
use goombaserver.Text.Fields.{any_filled, encode_form, check_result-encode_form}
use goombaserver.Format.{
  strip_slashes, failed, format_check, member, check_found, skip_to_percent, read_directive, action,
}
use goombaserver.Format.Directives.{IsDirective}
use goombaserver.Format.Sound.{format_check-IsDirective}
use goombaserver.Format.Unterminated.{unterminated_runs_past}
use goombaserver.Expr.{cond_lt, cond_ge, compare_handler, not_handler}
use goombaserver.Expr.Negation.{not-compare}
use goombaserver.Bases.{hexdec}
use goombaserver.Bases.Horner.{horner}
use goombaserver.Bases.Values.{hexadecimal, Holds, convert-horner}
use goombaserver.Ident.{get_ident_index}
use goombaserver.Ident.Index.{get_ident_index_lem}
use goombaserver.Pool.{page_pool, token_pool, init_pool}
use goombaserver.Pool.Accounts.{Op, alloc, strdup, clear, run_ops, IsAccounted, run_ops-IsAccounted}
use goombaserver.Access.{strto_access, has_password, begins_pattern}
use goombaserver.Access.Written.{
  Rule, IsRule, domain, mail, rules_fields, join, expected, strto_access-join,
}

parse_url-url_encode_example :
    parse_url (url_encode (codes "a b+c%41&" ++ 233 ∷ [])) ≡ codes "a b+c%41&" ++ 233 ∷ []
parse_url-url_encode_example = parse_url-url_encode (codes "a b+c%41&" ++ 233 ∷ []) (ground arith)

-- a=&b=1
check_result-encode_form_example :
    check_result (encode_form ((codes "a", []) ∷ (codes "b", codes "1") ∷ [])) ≡ some true
unfolding any_filled
check_result-encode_form_example =
    check_result-encode_form ((codes "a", []) ∷ (codes "b", codes "1") ∷ []) (ground arith)

format_check-IsDirective_example :
    let r = format_check (codes "n=%-5ld!") in
    IsDirective r.type r.fmt
    × Lacks 37 r.beg
    × ((rest : List ℕ) × (r.format ≡ some rest) × (r.beg ++ (r.fmt ++ rest) ≡ codes "n=%-5ld!"))
unfolding format_check check_found skip_to_percent read_directive action member
format_check-IsDirective_example =
    format_check-IsDirective (codes "n=%-5ld!") (λ e. ground arith) (λ e. ground arith)

unterminated_runs_past_example :
    let r = format_check (codes "50" ++ 37 ∷ codes "-8") in
    (r.type ≡ failed) × (r.beg ≡ codes "50") × (r.format ≡ none)
unfolding member
unterminated_runs_past_example =
    unterminated_runs_past (codes "50") (codes "-8") (ground arith) (refl, (refl, tt))

-- !(3 < 7)
not-compare_example :
    not_handler
      (compare_handler cond_lt (with_value (number (pos 7)) (with_value (number (pos 3)) start))).1
    ≡ some
        (compare_handler cond_ge
          (with_value (number (pos 7)) (with_value (number (pos 3)) start))).1
not-compare_example =
    not-compare cond_lt (with_value (number (pos 7)) (with_value (number (pos 3)) start))
      (number (pos 3)) (number (pos 7)) [] refl tt

convert-horner_example : Holds (hexdec (with_value (text (codes "2a")) start)) 42 []
unfolding horner
convert-horner_example =
    convert-horner hexadecimal (with_value (text (codes "2a")) start) (text (codes "2a")) []
      (2 ∷ 10 ∷ []) refl refl (ground arith) (ground arith)

get_ident_index_lem_example : get_ident_index (codes "colour[2]") ≡ some (codes "2")
get_ident_index_lem_example =
    get_ident_index_lem (codes "colour") (codes "2") [] (ground arith) (ground arith)

abbrev requests : List Op
requests =
    alloc page_pool 900
    ∷ strdup token_pool (codes "text")
    ∷ clear token_pool
    ∷ alloc page_pool 200
    ∷ []

run_ops-IsAccounted_example : IsAccounted (run_ops requests (init_pool 1))
run_ops-IsAccounted_example = run_ops-IsAccounted 1 requests

abbrev rules : List Rule
rules =
    record {
      letters = codes "AP";
      password = some (codes "secret");
      type = domain;
      patt = codes ".*";
    }
    ∷ record { letters = codes "L"; password = none; type = mail; patt = codes "joe" }
    ∷ []

rules-IsRule : All IsRule rules
unfolding has_password begins_pattern strchr
rules-IsRule = ground arith

strto_access-join_example :
    strto_access (join (codes "pri" ∷ rules_fields rules)) ≡ expected 0 none rules
unfolding bytes_eq
strto_access-join_example = strto_access-join (codes "pri") rules (ground arith) rules-IsRule

strip_slashes-quote_meta_example : strip_slashes (quote_meta (codes "a.b*[c]")) ≡ codes "a.b*[c]"
strip_slashes-quote_meta_example = strip_slashes-quote_meta (codes "a.b*[c]")

sub_str-take_example : sub_str (pos 2) (pos 3) (codes "goomba") ≡ codes "omb"
sub_str-take_example = sub_str-take 2 3 (codes "goomba") (omega arith)
