-- ===== src/Base/Utf8.antt =====
-- The UTF-8 bytes of a text, `str::as_bytes`, and its blanks, `str::trim`.
use Prim.Native.Nat.{ℕ, ◌+◌, ◌/◌, ◌%◌, ◌<◌}
use Prim.Native.Char.{Char, char, code}
use Prim.Native.String.{String, [] as no_chars, ◌∷◌ as chars, ◌++◌ as text_append}
use mathlib.Core.Path.{◌≡◌, refl, sym, ap, ◌∙◌}
use mathlib.Core.Bool.{Bool, true, ◌&&◌, ◌||◌}
use mathlib.Core.List.{List, [], ◌∷◌, ◌++◌, append_assoc}
use native.Mathlib.Omega.{arith}
use mathlib.Core.Path.{ap₂}
use text.Mathlib.TextEquality.{Char-path}
use text.Mathlib.TextLemmas.{nil-append, cons-append}
use wyrtloom.Base.Tests.{ltb, leb, ◌==◌, if◌then◌else◌}

abbrev encode : ℕ → List ℕ
encode n =
    if ltb n 128
    then n ∷ []
    else if ltb n 2048
    then (192 + n / 64) ∷ (128 + n % 64) ∷ []
    else if ltb n 65536
    then (224 + n / 4096) ∷ (128 + n / 64 % 64) ∷ (128 + n % 64) ∷ []
    else (240 + n / 262144) ∷ (128 + n / 4096 % 64) ∷ (128 + n / 64 % 64) ∷ (128 + n % 64) ∷ []

encode-injective :
    (m n : ℕ) (s t : List ℕ)
    → m < 1114112
    → n < 1114112
    → encode m ++ s ≡ encode n ++ t
    → (m ≡ n) × (s ≡ t)
encode-injective m n s t h k e = ground (arith, e)

code_bound : (c : Char) → code c < 1114112
code_bound (char n p) = ground (arith, p)

encode≢[] : (n : ℕ) (s : List ℕ) → encode n ++ s ≡ [] → ⊥
encode≢[] n s e = ground (arith, e)

-- `s.as_bytes()`
unfoldable pub as_bytes : String → List ℕ
as_bytes no_chars = []
as_bytes (chars c s) = encode (code c) ++ as_bytes s

pub as_bytes-injective : (s t : String) → as_bytes s ≡ as_bytes t → s ≡ t
unfolding as_bytes
as_bytes-injective no_chars no_chars e = refl
as_bytes-injective no_chars (chars d t) e = absurd (encode≢[] (code d) _ (sym e))
as_bytes-injective (chars c s) no_chars e = absurd (encode≢[] (code c) _ e)
as_bytes-injective (chars c s) (chars d t) e =
    let (p, q) = encode-injective (code c) (code d) _ _ (code_bound c) (code_bound d) e in
    ap₂ chars (Char-path c d p) (as_bytes-injective s t q)

pub as_bytes-append : (s t : String) → as_bytes (text_append s t) ≡ as_bytes s ++ as_bytes t
unfolding as_bytes
as_bytes-append no_chars t = ap as_bytes (nil-append t)
as_bytes-append (chars c s) t =
    ap as_bytes (cons-append c s t)
    ∙ ap (λ l. encode (code c) ++ l) (as_bytes-append s t)
    ∙ sym (append_assoc (encode (code c)) (as_bytes s) (as_bytes t))

-- `char::is_whitespace`
abbrev pub is_whitespace : ℕ → Bool
is_whitespace c =
    (leb 9 c && leb c 13)
    || c == 32
    || c == 133
    || c == 160
    || c == 5760
    || (leb 8192 c && leb c 8202)
    || c == 8232
    || c == 8233
    || c == 8239
    || c == 8287
    || c == 12288

-- `s.trim().is_empty()`
unfoldable pub is_blank : String → Bool
is_blank no_chars = true
is_blank (chars c s) = is_whitespace (code c) && is_blank s
