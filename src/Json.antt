-- ===== src/Json.antt =====
-- JSON values and encoding/json's decoding into structs, as far as the providers and the proxy use
-- it. Texts are lists of code points. The grammar of JSON texts is a parameter where it is needed.
use koshi_runtime.Base.{
  ℕ, ◌+◌, Bool, true, false, ◌&&◌, ◌||◌, ◌==◌, leb, ltb, List, [], ◌∷◌, Option, none, some,
  if◌then◌else◌, map, ◌^◌, String,
}
use koshi_runtime.Base.Int.{ℤ, pos_part, neg_part}
use Prim.Native.Char.{code}

abbrev pub codes : String → List ℕ
codes String.[] = []
codes (String.◌∷◌ c s) = code c ∷ codes s

abbrev pub Text : Type 0
Text = List ℕ

-- An integer literal is `int`; a literal with a fraction or an exponent is `real`.
mutual
  pub data Json : Type 0 where
    null : Json
    bool : Bool → Json
    int : ℤ → Json
    real : Text → Json
    str : Text → Json
    arr : Items → Json
    obj : Fields → Json

  pub data Items : Type 0 where
    nil : Items
    cons : Json → Items → Items

  pub data Fields : Type 0 where
    end : Fields
    field : Text → Json → Fields → Fields

abbrev pub text_eq : Text → Text → Bool
text_eq [] [] = true
text_eq (x ∷ xs) (y ∷ ys) = x == y && text_eq xs ys
text_eq _ _ = false

-- The case folding of encoding/json at the letters that fold to an ASCII one.
abbrev pub fold_code : ℕ → ℕ
fold_code c =
    if leb b'A' c && leb c b'Z'
    then c + 32
    else if c == 0x212a
    then b'k'
    else if c == 0x17f
    then b's'
    else c

abbrev pub names : String → Text → Bool
names name key = text_eq (codes name) (map fold_code key)

-- A decoder gives the new value and whether encoding/json reports an error.
abbrev pub Decoder : Type 0 → Type 0
Decoder S = Json → S → S × Bool

abbrev in_range : ℤ → Bool
in_range z = ltb (pos_part z) (2 ^ 63) && leb (neg_part z) (2 ^ 63)

-- A field of type *int64.
abbrev pub int64_pointer : Decoder (Option ℤ)
int64_pointer null s = (none, false)
int64_pointer (int z) s = if in_range z then (some z, false) else (s, true)
int64_pointer _ s = (s, true)

-- A field of type int64; null leaves it alone.
abbrev pub int64 : Decoder ℤ
int64 null s = (s, false)
int64 (int z) s = if in_range z then (z, false) else (s, true)
int64 _ s = (s, true)

abbrev pub bool_pointer : Decoder (Option Bool)
bool_pointer null s = (none, false)
bool_pointer (bool b) s = (some b, false)
bool_pointer _ s = (s, true)

abbrev pub text : Decoder Text
text null s = (s, false)
text (str t) s = (t, false)
text _ s = (s, true)

-- The fields in the order of the text: each goes to the struct's field of that name, and an
-- error does not stop the decoding.
unfoldable pub decode_fields {ℓ} :
    {S : Type ℓ} → (Text → Json → S → S × Bool) → Fields → S → S × Bool
decode_fields on end s = (s, false)
decode_fields on (field k v rest) s =
    let (s', bad) = on k v s in let (s'', bad') = decode_fields on rest s' in (s'', bad || bad')

unfoldable pub decode_struct {ℓ} : {S : Type ℓ} → (Text → Json → S → S × Bool) → Json → S → S × Bool
decode_struct on null s = (s, false)
decode_struct on (obj fs) s = decode_fields on fs s
decode_struct on _ s = (s, true)

-- A field of pointer type: null clears it; a second value is decoded over the first.
unfoldable pub pointer {ℓ} :
    {S : Type ℓ} → S → (Text → Json → S → S × Bool) → Json → Option S → Option S × Bool
unfolding decode_struct
pointer zero on null s = (none, false)
pointer zero on j (some s) = let (s', bad) = decode_struct on j s in (some s', bad)
pointer zero on j none = let (s', bad) = decode_struct on j zero in (some s', bad)
