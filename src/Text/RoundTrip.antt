-- ===== src/Text/RoundTrip.antt =====
-- What `UrlEncode` of src/string.c writes, `parse_url` of src/post.c reads back.
use goombaserver.Common.{
  ℕ, ◌+◌, ◌*◌, ◌/◌, ◌%◌, ◌<◌, ◌≤◌, ◌⊎◌, ◌≡◌, refl, ap, ◌∙◌, true, false, some, none, [], ◌∷◌, All,
  Bytes, ◌==◌, Bool-cases, inl, inr, arith,
}
use goombaserver.Text.{must_escape, url_encode, ishex, htoi, escaped, parse_from, parse_url}
use goombaserver.Text.Chars.{hex_digit}

ishex_digit : (d : ℕ) → d < 16 → ishex (hex_digit d) ≡ true
unfolding ishex
ishex_digit d lt = ground arith

htoi_digits : (h l : ℕ) → h < 16 → l < 16 → htoi (hex_digit h) (hex_digit l) ≡ h * 16 + l
unfolding htoi
htoi_digits h l hh hl = ground arith

plain_not_special : (b : ℕ) → must_escape b ≡ false → ((b == 43) ≡ false) × ((b == 37) ≡ false)
unfolding must_escape
plain_not_special b h = ground arith

escaped_byte :
    (b : ℕ) (rest : Bytes)
    → b < 256
    → escaped 37 (hex_digit (b / 16) ∷ hex_digit (b % 16) ∷ rest) ≡ some b
unfolding escaped
escaped_byte b rest lt =
    rw
      (
        ishex_digit (b / 16) (omega arith),
        ishex_digit (b % 16) (omega arith),
        htoi_digits (b / 16) (b % 16) (omega arith) (omega arith),
      )
      (ap (λ n. some n) (omega arith))

escaped_plain : (b : ℕ) (rest : Bytes) → (b == 37) ≡ false → escaped b rest ≡ none
unfolding escaped
escaped_plain b [] h = refl
escaped_plain b (x ∷ []) h = refl
escaped_plain b (x ∷ y ∷ rest) h = rw h refl

parse_escape :
    (b : ℕ) (rest : Bytes)
    → b < 256
    → parse_from 0 (37 ∷ hex_digit (b / 16) ∷ hex_digit (b % 16) ∷ rest) ≡ b ∷ parse_from 0 rest
unfolding parse_from
parse_escape b rest lt = rw (escaped_byte b rest lt) refl

parse_plain :
    (b : ℕ) (rest : Bytes) → must_escape b ≡ false → parse_from 0 (b ∷ rest) ≡ b ∷ parse_from 0 rest
unfolding parse_from
parse_plain b rest h =
    let (plus, percent) = plain_not_special b h in rw (plus, escaped_plain b rest percent) refl

parse_nil : parse_from 0 [] ≡ []
unfolding parse_from
parse_nil = refl

-- For every text, a list of bytes below 256, `parse_url` gives back what `UrlEncode` was given.
pub parse_url-url_encode : (s : Bytes) → All (λ b. b < 256) s → parse_url (url_encode s) ≡ s
unfolding url_encode parse_url
parse_url-url_encode [] _ = parse_nil
parse_url-url_encode (b ∷ s) (lt, all) = elim (Bool-cases (must_escape b)) [
  | inl e ↦ rw e (parse_escape b (url_encode s) lt ∙ ap (λ l. b ∷ l) (parse_url-url_encode s all))
  | inr e ↦ rw e (parse_plain b (url_encode s) e ∙ ap (λ l. b ∷ l) (parse_url-url_encode s all))
]

-- A letter, a digit, or one of the four bytes - . _ and %.
abbrev IsUrlByte : ℕ → Type 0
IsUrlByte b =
    ((48 ≤ b) × (b ≤ 57))
    ⊎ (((65 ≤ b) × (b ≤ 90))
        ⊎ (((97 ≤ b) × (b ≤ 122)) ⊎ ((b ≡ 45) ⊎ ((b ≡ 46) ⊎ ((b ≡ 95) ⊎ (b ≡ 37))))))

plain-IsUrlByte : (b : ℕ) → must_escape b ≡ false → IsUrlByte b
unfolding must_escape
plain-IsUrlByte b h = grind arith

digit-IsUrlByte : (d : ℕ) → d < 16 → IsUrlByte (hex_digit d)
digit-IsUrlByte d h = grind arith

-- `UrlEncode` writes nothing but letters, digits and the bytes - . _ and %, so that its result has no
-- blank, no & and no = in it.
url_encode-IsUrlByte : (s : Bytes) → All (λ b. b < 256) s → All IsUrlByte (url_encode s)
unfolding url_encode
url_encode-IsUrlByte [] _ = tt
url_encode-IsUrlByte (b ∷ s) (lt, all) = elim (Bool-cases (must_escape b)) [
  | inl e ↦ rw e (
    omega arith,
    (
      digit-IsUrlByte (b / 16) (omega arith),
      (digit-IsUrlByte (b % 16) (omega arith), url_encode-IsUrlByte s all),
    ),
  )
  | inr e ↦ rw e (plain-IsUrlByte b e, url_encode-IsUrlByte s all)
]
