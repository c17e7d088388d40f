-- ===== src/Terminal.antt =====
-- The cleaning of text for a terminal or a prompt, `strip_control` of crates/core/src/util.rs: the
-- iterator with its lookahead is a machine over the characters, whose mode says what the code waits for.
use Prim.Native.Char.{code}
use Prim.Native.String.{[] as no_chars, ◌∷◌ as chars}
use wyrtloom.Base.{
  ℕ, ◌≡◌, refl, ap, arith, Bool, true, false, not, ◌&&◌, ◌||◌, String, leb, ◌==◌, ==_iff, sym, ◌∙◌,
  Bool-cases, inl, inr, if◌then◌else◌,
}
use wyrtloom.Security.Audit.{is_control, is_bidi_or_format}

-- `terminated` waits for ESC \, or also for BEL; `ended` has seen its ESC, and ends with the \ or
-- leaves the ESC to be read again.
pub data Mode : Type 0 where
  plain escape control_sequence : Mode
  terminated ended : Bool → Mode

-- The character after an ESC.
unfoldable pub after_escape : ℕ → Mode
after_escape c =
    if c == 91
    then control_sequence
    else if c == 93
    then terminated true
    else if c == 80 || (c == 88 || (c == 94 || c == 95))
    then terminated false
    else plain

unfoldable pub next : Mode → ℕ → Mode
unfolding after_escape
next plain c = if c == 27 then escape else plain
next escape c = after_escape c
next control_sequence c = if leb 64 c && leb c 126 then plain else control_sequence
next (terminated allow_bel) c =
    if allow_bel && c == 7 then plain else if c == 27 then ended allow_bel else terminated allow_bel
next (ended allow_bel) c = if c == 92 then plain else after_escape c

-- Neither a control character, but for a line feed, a carriage return and a tab, nor one of format.
unfoldable pub is_shown : ℕ → Bool
unfolding is_control is_bidi_or_format
is_shown c =
    not (is_control c && (not (c == 10) && (not (c == 13) && not (c == 9))) || is_bidi_or_format c)

unfoldable pub pushes : Mode → ℕ → Bool
unfolding is_shown
pushes plain c = not (c == 27) && is_shown c
pushes escape c = false
pushes control_sequence c = false
pushes (terminated allow_bel) c = false
pushes (ended allow_bel) c = false

unfoldable pub strip : Mode → String → String
unfolding next pushes
strip m no_chars = no_chars
strip m (chars c s) =
    let rest = strip (next m (code c)) s in if pushes m (code c) then chars c rest else rest

unfoldable pub strip_control : String → String
unfolding strip
strip_control s = strip plain s

-- Every character is shown.
abbrev pub Shown : String → Type 0
Shown no_chars = Unit
Shown (chars c s) = (is_shown (code c) ≡ true) × Shown s

true≢false : true ≡ false → ⊥
true≢false h = cc

shown-not_escape : (c : ℕ) → is_shown c ≡ true → (c == 27) ≡ false
unfolding is_shown
shown-not_escape c h = elim (Bool-cases (c == 27)) [
  | inl e ↦ absurd (true≢false (sym h ∙ ap is_shown ((==_iff c 27).0 e)))
  | inr e ↦ e
]

pushes-shown : (m : Mode) (c : ℕ) → pushes m c ≡ true → is_shown c ≡ true
unfolding pushes
pushes-shown plain c h = ground (arith, h)
pushes-shown escape c h = cc
pushes-shown control_sequence c h = cc
pushes-shown (terminated b) c h = cc
pushes-shown (ended b) c h = cc

strip-Shown : (m : Mode) (s : String) → Shown (strip m s)
unfolding strip
strip-Shown m no_chars = tt
strip-Shown m (chars c s) = elim (Bool-cases (pushes m (code c))) [
  | inl e ↦ rw e (pushes-shown m (code c) e, strip-Shown (next m (code c)) s)
  | inr e ↦ rw e (strip-Shown (next m (code c)) s)
]

-- What is shown stays.
Shown-strip : (s : String) → Shown s → strip plain s ≡ s
unfolding strip next pushes
Shown-strip no_chars h = refl
Shown-strip (chars c s) h =
    rw (shown-not_escape (code c) h.0) (rw h.0 (ap (chars c) (Shown-strip s h.1)))

-- The cleaned text has no character that is not shown, a text of shown characters is left as it is,
-- and so cleaning a text again changes nothing.
pub strip_control_lem :
    (s : String)
    → Shown (strip_control s)
      × (Shown s → strip_control s ≡ s)
      × (strip_control (strip_control s) ≡ strip_control s)
unfolding strip_control
strip_control_lem s =
    (strip-Shown plain s, Shown-strip s, Shown-strip (strip plain s) (strip-Shown plain s))
