-- ===== src/Sqlite/Sample.antt =====
-- A codec that counts in strokes, and a small board.
use wyrtloom.Base.{
  ℕ, zero, suc, ◌≡◌, refl, ap, subst, arith, false, String, Option, none, some, List, [], ◌∷◌, inl,
  inr, str_eq, str_eq_iff, if◌then◌else◌, Bool-cases,
}
use wyrtloom.Kanban.{TaskId, BlockReason, BlockedBy, human, dependency}
use wyrtloom.Sqlite.Store.{Board, Codec}

pub none≢some {ℓ} : {A : Type ℓ} {a : A} → none ≡ some a → ⊥
none≢some e = cc

unfoldable pub unary : ℕ → String
unary zero = ""
unary (suc n) = String.◌∷◌ "i" (unary n)

unfoldable pub count : String → ℕ
count String.[] = 0
count (String.◌∷◌ c s) = suc (count s)

pub count-unary : (n : ℕ) → count (unary n) ≡ n
unfolding count unary
count-unary zero = refl
count-unary (suc n) = ap suc (count-unary n)

abbrev pub show_deps : List TaskId → Option String
show_deps [] = some ""
show_deps (i ∷ []) = some (String.◌∷◌ "c" (unary i))
show_deps (_ ∷ _ ∷ _) = none

abbrev pub parse_deps : String → Option (List TaskId)
parse_deps String.[] = some []
parse_deps (String.◌∷◌ c s) = some (count s ∷ [])

pub parse-show_deps :
    (ds : List TaskId) (s : String) → show_deps ds ≡ some s → parse_deps s ≡ some ds
parse-show_deps [] s e = subst (λ z. parse_deps z ≡ some []) (let e' : "" ≡ s = cc in e') refl
parse-show_deps (i ∷ []) s e =
    subst (λ z. parse_deps z ≡ some (i ∷ [])) (let e' : String.◌∷◌ "c" (unary i) ≡ s = cc in e')
      (rw (count-unary i))
parse-show_deps (i ∷ j ∷ ds) s e = cc

-- This codec writes one text of a reason, and refuses the others.
abbrev pub show_reason_of : String → BlockedBy → Option String
show_reason_of text (human a) = none
show_reason_of text (dependency i) = if str_eq text "waiting" then some (unary i) else none

abbrev pub parse_reason : String → Option BlockReason
parse_reason s = some (record { reason = "waiting"; blocked_by = dependency (count s) })

pub parse-show_reason_of :
    (text : String) (by : BlockedBy) (s : String)
    → show_reason_of text by ≡ some s
    → parse_reason s ≡ some (record { reason = text; blocked_by = by })
parse-show_reason_of text (human a) s e = cc
parse-show_reason_of text (dependency i) s e = elim (Bool-cases (str_eq text "waiting")) [
  | inr other ↦ absurd (none≢some {a = s} (ground (arith, other)))
  | inl waiting ↦
      let same : text ≡ "waiting" = (str_eq_iff text "waiting").0 waiting in
      let by_id : unary i ≡ s = ground (arith, waiting) in
      subst (λ z. parse_reason z ≡ some (record { reason = text; blocked_by = dependency i })) by_id
        (rw (count-unary i, same))
]

abbrev pub codec : Codec
unfolding count unary
codec = record {
  show_id = unary;
  parse_id = λ s. some (count s);
  show_deps = show_deps;
  parse_deps = parse_deps;
  show_reason = λ r. show_reason_of r.reason r.blocked_by;
  parse_reason = parse_reason;
  show_time = unary;
  parse_time = λ s. some (count s);
  parse-show_id = λ i. ap some (count-unary i);
  parse-show_deps = parse-show_deps;
  parse-show_reason = λ r s. parse-show_reason_of r.reason r.blocked_by s;
  parse-show_time = λ i. ap some (count-unary i);
}

-- Task 1 waits for task 2, which is done.
abbrev pub two_tasks : Board
two_tasks = record {
  tables = record {
    tasks =
        record {
          id = "i";
          title = "ship";
          state = "Todo";
          actor = none;
          depends_on = "cii";
          block_reason = none;
          created_at = "i";
        }
        ∷ record {
          id = "ii";
          title = "test";
          state = "Done";
          actor = none;
          depends_on = "";
          block_reason = none;
          created_at = "ii";
        }
        ∷ [];
    history = [];
  };
  saved = none;
  faults = [];
  poisoned = false;
}
