-- ===== src/Canon/Frames.antt =====
-- The encoding of a list of fields, each under its length.
use wyrtloom.Base.{ℕ, ◌^◌, ◌<◌, ◌≡◌, refl, sym, ◌∙◌, arith, List, [], ◌∷◌, ◌++◌, length, All}
use mathlib.Core.List.{append_assoc, append-nil}
use mathlib.Core.Path.{ap₂}
use wyrtloom.Canon.{Bytes, to_be_bytes, CanonicalEncoder, write}

pub to_be_bytes-injective :
    (m n : ℕ) → m < 2 ^ 64 → n < 2 ^ 64 → to_be_bytes m ≡ to_be_bytes n → m ≡ n
unfolding to_be_bytes
to_be_bytes-injective m n h k e = ground arith

-- The bytes that a list of fields adds: each under its length.
abbrev pub frames : List Bytes → Bytes
frames [] = []
frames (f ∷ fs) = to_be_bytes (length f) ++ (f ++ frames fs)

abbrev pub Short : List Bytes → Type 0
Short = All λ f. length f < 2 ^ 64

-- Two prefixes of one length in equal lists are equal, and so are the rests.
append_parts {ℓ} :
    {A : Type ℓ} (xs ys us vs : List A)
    → length xs ≡ length ys
    → xs ++ us ≡ ys ++ vs
    → (xs ≡ ys) × (us ≡ vs)
append_parts [] [] us vs l e = (refl, e)
append_parts [] (y ∷ ys) us vs l e = absurd (omega arith)
append_parts (x ∷ xs) [] us vs l e = absurd (omega arith)
append_parts (x ∷ xs) (y ∷ ys) us vs l e =
    let (p, q) = append_parts xs ys us vs (omega arith) (let t : xs ++ us ≡ ys ++ vs = cc in t) in
    (ground (arith, p), q)

pub length-to_be_bytes : (n : ℕ) → length (to_be_bytes n) ≡ 8
unfolding to_be_bytes
length-to_be_bytes n = refl

[]≢frames : (n : ℕ) (bs : Bytes) → [] ≡ to_be_bytes n ++ bs → ⊥
unfolding to_be_bytes
[]≢frames n bs e = cc

pub frames-injective : (fs gs : List Bytes) → Short fs → Short gs → frames fs ≡ frames gs → fs ≡ gs
frames-injective [] [] s t e = refl
frames-injective [] (g ∷ gs) s t e = absurd ([]≢frames _ _ e)
frames-injective (f ∷ fs) [] s t e = absurd ([]≢frames _ _ (sym e))
frames-injective (f ∷ fs) (g ∷ gs) s t e =
    let (p, q) =
      append_parts (to_be_bytes (length f)) (to_be_bytes (length g)) _ _
        (length-to_be_bytes _ ∙ sym (length-to_be_bytes _)) e in
    let n : length f ≡ length g = to_be_bytes-injective _ _ s.0 t.0 p in
    let (p', q') = append_parts f g _ _ n q in ap₂ ◌∷◌ p' (frames-injective fs gs s.1 t.1 q')

-- What is written behind the fields so far.
pub buf-write : (e : CanonicalEncoder) (f : Bytes) → (write e f).buf ≡ e.buf ++ frames (f ∷ [])
unfolding write
buf-write e f = simp (append_assoc, append-nil)
