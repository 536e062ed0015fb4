-- ===== src/Inject/Pointer.antt =====
-- The paths of internal/inject/webhook.go, read by RFC 6901: reference tokens, each behind a slash,
-- and indices of arrays in decimal notation.
use Prim.Native.Char.{Char, char, code}
use Prim.Native.String.{[], ◌∷◌}
use text.Mathlib.TextLemmas.{nil-append, cons-append}
use koshi_runtime.Base.{
  ℕ, zero, suc, ◌+◌, ◌-◌, ◌*◌, ◌/◌, ◌%◌, ◌<◌, ◌≤◌, ◌≡◌, refl, sym, ap, ◌∙◌, false, ◌&&◌, String,
  ◌<>◌, ◌==◌, ltb, leb, str_eq, if◌then◌else◌, Option, none, some, List, [], ◌∷◌, map, Bool-cases,
  inl, inr, arith,
}
use koshi_runtime.Base.Decimal.{digit, decimal_from, decimal_text}
use koshi_runtime.Inject.Escape.Rounds.{
  unescape_json_pointer, unescape_from, HasNoSlash, unescape-escape_json_pointer,
}
use koshi_runtime.Inject.Escape.{escape_json_pointer}

-- A character in front of the first of the texts.
abbrev extend : Char → List String → List String
extend c [] = []
extend c (t ∷ ts) = (c ∷ t) ∷ ts

-- A text in front of a split one, split at its own slashes.
unfoldable pub behind : String → List String → List String
behind [] ts = ts
behind (c ∷ s) ts = if code c == b'/' then [] ∷ behind s ts else extend c (behind s ts)

-- The texts between the slashes.
unfoldable pub split : String → List String
unfolding behind
split s = behind s ([] ∷ [])

-- The whole document is the text without a token, any other pointer begins with a slash.
abbrev below_root : List String → Option (List String)
below_root [] = none
below_root (t ∷ ts) = if str_eq t "" then some (map unescape_json_pointer ts) else none

unfoldable pub tokens : String → Option (List String)
unfolding split
tokens s = below_root (split s)

-- The number that a text continues, by its digits.
unfoldable pub read_digits : ℕ → String → Option ℕ
read_digits n [] = some n
read_digits n (c ∷ s) =
    let rest = read_digits (n * 10 + (code c - 48)) s in
    if leb 48 (code c) && ltb (code c) 58 then rest else none

-- An index of an array; that it has no leading zero is not asked.
abbrev pub read_index : String → Option ℕ
read_index [] = none
read_index (c ∷ s) = read_digits 0 (c ∷ s)

behind-append : (s x : String) (ts : List String) → behind (s <> x) ts ≡ behind s (behind x ts)
unfolding behind
behind-append [] x ts = ap (λ y. behind y ts) (nil-append x)
behind-append (c ∷ s) x ts = rw (cons-append c s x, behind, behind-append s x ts) refl

-- Without a slash a text belongs to the first of the texts behind it.
behind-plain : (s t : String) (ts : List String) → HasNoSlash s → behind s (t ∷ ts) ≡ (s <> t) ∷ ts
unfolding behind
behind-plain [] t ts h = ap (λ y. y ∷ ts) (sym (nil-append t))
behind-plain (c ∷ s) t ts (e, h) =
    rw (e, behind, behind-plain s t ts h) (ap (λ y. y ∷ ts) (sym (cons-append c s t)))

ten : (d : ℕ) → d < 10 → (c : Char) × (digit d ≡ c ∷ []) × (code c ≡ 48 + d)
ten zero h = (char 48 tt, refl, refl)
ten (suc zero) h = (char 49 tt, refl, refl)
ten (suc (suc zero)) h = (char 50 tt, refl, refl)
ten (suc (suc (suc zero))) h = (char 51 tt, refl, refl)
ten (suc (suc (suc (suc zero)))) h = (char 52 tt, refl, refl)
ten (suc (suc (suc (suc (suc zero))))) h = (char 53 tt, refl, refl)
ten (suc (suc (suc (suc (suc (suc zero)))))) h = (char 54 tt, refl, refl)
ten (suc (suc (suc (suc (suc (suc (suc zero))))))) h = (char 55 tt, refl, refl)
ten (suc (suc (suc (suc (suc (suc (suc (suc zero)))))))) h = (char 56 tt, refl, refl)
ten (suc (suc (suc (suc (suc (suc (suc (suc (suc zero))))))))) h = (char 57 tt, refl, refl)
ten (suc (suc (suc (suc (suc (suc (suc (suc (suc (suc d)))))))))) h = absurd (omega arith)

-- A digit before a text is its first character.
digit-append :
    (d : ℕ) (s : String) → d < 10 → (c : Char) × (digit d <> s ≡ c ∷ s) × (code c ≡ 48 + d)
digit-append d s h =
    let (c, e, value) = ten d h in
    (c, rw e (cons-append c [] s ∙ ap (λ y. c ∷ y) (nil-append s)), value)

-- The digits of a number put before a text are read as that number.
read_digits-decimal_from :
    (fuel n : ℕ) (s : String) → n ≤ fuel → read_digits 0 (decimal_from fuel n s) ≡ read_digits n s
unfolding read_digits decimal_from
read_digits-decimal_from zero n s h =
    let (c, e, value) = digit-append n s (omega arith) in rw e (ground (arith, value))
read_digits-decimal_from (suc fuel) n s h = elim (Bool-cases (ltb n 10)) [
  | inl small ↦
      let (c, e, value) = digit-append n s (ground arith) in
      rw (small, decimal_from, e) (ground (arith, value))
  | inr large ↦
      let (c, e, value) = digit-append (n % 10) s (omega arith) in
      rw
        (
          large,
          decimal_from,
          read_digits-decimal_from fuel (n / 10) (digit (n % 10) <> s) (ground arith),
          e,
        )
        (ground (arith, value))
]

-- Neither a slash nor a tilde.
abbrev IsPlain : String → Type 0
IsPlain [] = Unit {0}
IsPlain (c ∷ s) = ((code c == b'/') ≡ false) × ((code c == b'~') ≡ false) × IsPlain s

digit-IsPlain : (d : ℕ) (s : String) → d < 10 → IsPlain s → IsPlain (digit d <> s)
digit-IsPlain d s h p =
    let (c, e, value) = digit-append d s h in rw e (ground (arith, value), ground (arith, value), p)

decimal_from-IsPlain :
    (fuel n : ℕ) (s : String) → n ≤ fuel → IsPlain s → IsPlain (decimal_from fuel n s)
unfolding decimal_from
decimal_from-IsPlain zero n s h p = digit-IsPlain n s (omega arith) p
decimal_from-IsPlain (suc fuel) n s h p = elim (Bool-cases (ltb n 10)) [
  | inl small ↦ rw (small, decimal_from) (digit-IsPlain n s (ground arith) p)
  | inr large ↦
      rw (large, decimal_from)
        (decimal_from-IsPlain fuel (n / 10) (digit (n % 10) <> s) (ground arith)
          (digit-IsPlain (n % 10) s (omega arith) p))
]

IsPlain-HasNoSlash : (s : String) → IsPlain s → HasNoSlash s
IsPlain-HasNoSlash [] p = tt
IsPlain-HasNoSlash (c ∷ s) (a, b, p) = (a, IsPlain-HasNoSlash s p)

unescape-plain : (s : String) → IsPlain s → unescape_json_pointer s ≡ s
unfolding unescape_from
unescape-plain [] p = refl
unescape-plain (c ∷ s) (a, b, p) = rw (unescape_from, b, unescape-plain s p) refl

decimal_from_first :
    (fuel n : ℕ) (s : String)
    → n ≤ fuel
    → (c : Char) × (t : String) × (decimal_from fuel n s ≡ c ∷ t)
unfolding decimal_from
decimal_from_first zero n s h = let (c, e, _) = digit-append n s (omega arith) in (c, s, e)
decimal_from_first (suc fuel) n s h = elim (Bool-cases (ltb n 10)) [
  | inl small ↦
      let (c, e, _) = digit-append n s (ground arith) in (c, s, rw (small, decimal_from) e)
  | inr large ↦
      rw (large, decimal_from)
        (decimal_from_first fuel (n / 10) (digit (n % 10) <> s) (ground arith))
]

-- An index in decimal notation is read back.
pub read_index-decimal_text : (n : ℕ) → read_index (decimal_text n) ≡ some n
unfolding read_digits
read_index-decimal_text n =
    let (c, t, e) = decimal_from_first n n "" (omega arith) in
    rw e (sym (ap (λ y. read_digits 0 y) e) ∙ read_digits-decimal_from n n "" (omega arith))

decimal_text-IsPlain : (n : ℕ) → IsPlain (decimal_text n)
decimal_text-IsPlain n = decimal_from-IsPlain n n "" (omega arith) tt

append-empty : (s : String) → s <> [] ≡ s
append-empty [] = nil-append []
append-empty (c ∷ s) = cons-append c s [] ∙ ap (λ y. c ∷ y) (append-empty s)

plain_token : (s : String) (ts : List String) → HasNoSlash s → behind s ([] ∷ ts) ≡ s ∷ ts
plain_token s ts h = behind-plain s [] ts h ∙ ap (λ y. y ∷ ts) (append-empty s)

-- The tokens of a place in a container.
pub tokens_in_container :
    (n : ℕ) (s : String) (ts : List String)
    → split s ≡ [] ∷ ts
    → tokens ("/spec/containers/" <> (decimal_text n <> s))
      ≡ some ("spec" ∷ "containers" ∷ decimal_text n ∷ map unescape_json_pointer ts)
unfolding tokens split behind unescape_from
tokens_in_container n s ts e =
    rw
      (
        tokens,
        split,
        behind-append "/spec/containers/" (decimal_text n <> s) ([] ∷ []),
        behind-append (decimal_text n) s ([] ∷ []),
        e,
        plain_token (decimal_text n) ts
            (IsPlain-HasNoSlash (decimal_text n) (decimal_text-IsPlain n)),
        unescape-plain (decimal_text n) (decimal_text-IsPlain n),
      )
      refl

-- The tokens of the place of an annotation.
pub tokens_of_annotation :
    (key : String)
    → tokens ("/metadata/annotations/" <> escape_json_pointer key)
      ≡ some ("metadata" ∷ "annotations" ∷ key ∷ [])
unfolding tokens split behind unescape_from
tokens_of_annotation key =
    let (back, plain) = unescape-escape_json_pointer key in
    rw
      (
        tokens,
        split,
        behind-append "/metadata/annotations/" (escape_json_pointer key) ([] ∷ []),
        plain_token (escape_json_pointer key) [] plain,
        back,
      )
      refl
