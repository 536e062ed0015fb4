-- ===== src/Inject/Escape/Rounds.antt =====
-- Reading a reference token of RFC 6901 back.
use Prim.Native.Char.{Char, char, code}
use Prim.Native.String.{[], ◌∷◌}
use text.Mathlib.TextLemmas.{nil-append, cons-append}
use text.Mathlib.TextEquality.{Char-path}
use koshi_runtime.Base.{
  Bool, ◌≡◌, refl, sym, ap, ◌∙◌, String, ◌<>◌, ◌==◌, ==_iff, Bool-cases, inl, inr, true, false,
}
use koshi_runtime.Inject.Escape.{escape_char, escape_json_pointer}

abbrev tilde : Char
tilde = char b'~' tt

abbrev slash : Char
slash = char 47 tt

-- RFC 6901: `~1` stands for a slash and `~0` for a tilde. The flag is set behind a tilde, which is
-- kept where neither follows.
unfoldable pub unescape_from : Bool → String → String
unescape_from false [] = []
unescape_from true [] = tilde ∷ []
unescape_from false (c ∷ s) = elim (code c == b'~') [
  | true ↦ unescape_from true s
  | false ↦ c ∷ unescape_from false s
]
unescape_from true (c ∷ s) = elim (code c == b'0') [
  | true ↦ tilde ∷ unescape_from false s
  | false ↦ elim (code c == b'1') [
    | true ↦ slash ∷ unescape_from false s
    | false ↦ tilde ∷ (elim (code c == b'~') [
      | true ↦ unescape_from true s
      | false ↦ c ∷ unescape_from false s
    ])
  ]
]

abbrev pub unescape_json_pointer : String → String
unescape_json_pointer s = unescape_from false s

-- No character of the text separates two reference tokens.
abbrev pub HasNoSlash : String → Type 0
HasNoSlash [] = Unit {0}
HasNoSlash (c ∷ s) = ((code c == b'/') ≡ false) × HasNoSlash s

two : (c d : Char) (s : String) → (c ∷ (d ∷ [])) <> s ≡ c ∷ (d ∷ s)
two c d s = cons-append c (d ∷ []) s ∙ ap (λ r. c ∷ r) (one_char d s)
  where
    one_char : (d : Char) (s : String) → (d ∷ []) <> s ≡ d ∷ s
    one_char d s = cons-append d [] s ∙ ap (λ r. d ∷ r) (nil-append s)

-- The text of one escaped character and what follows it.
IsEscaped : Char → String → Type 0
IsEscaped c t =
    (unescape_json_pointer (escape_char c <> t) ≡ c ∷ unescape_json_pointer t)
    × (HasNoSlash t → HasNoSlash (escape_char c <> t))

escape_char-IsEscaped : (c : Char) (t : String) → IsEscaped c t
unfolding escape_char unescape_from IsEscaped
escape_char-IsEscaped c t = elim (Bool-cases (code c == b'~')) [
  | inl e ↦
      rw (e, two tilde (char b'0' tt) t)
        (
          ap (λ x. x ∷ unescape_json_pointer t)
              (Char-path tilde c (sym ((==_iff (code c) b'~').0 e))),
          λ h. (refl, (refl, h)),
        )
  | inr e ↦ elim (Bool-cases (code c == b'/')) [
    | inl f ↦
        rw (e, f, two tilde (char b'1' tt) t)
          (
            ap (λ x. x ∷ unescape_json_pointer t)
                (Char-path slash c (sym ((==_iff (code c) b'/').0 f))),
            λ h. (refl, (refl, h)),
          )
    | inr f ↦ rw (e, f, cons-append c [] t, nil-append t) (rw (unescape_from, e) refl, λ h. (f, h))
  ]
]

-- A key that escapeJSONPointer escaped is one reference token without a slash, and reading it
-- back by RFC 6901 gives the key.
pub unescape-escape_json_pointer :
    (s : String)
    → (unescape_json_pointer (escape_json_pointer s) ≡ s) × HasNoSlash (escape_json_pointer s)
unfolding escape_json_pointer unescape_from IsEscaped
unescape-escape_json_pointer [] = (refl, tt)
unescape-escape_json_pointer (c ∷ s) =
    let (back, plain) = unescape-escape_json_pointer s in
    let (first, clean) = escape_char-IsEscaped c (escape_json_pointer s) in
    (first ∙ ap (λ r. c ∷ r) back, clean plain)
