-- ===== src/Db.antt =====
-- The SQLite connection of a plugin's store, as crates/plugin-coverage-map,
-- crates/plugin-rationale-ledger, crates/plugin-calibration-ledger and
-- crates/plugin-insight-artifact use rusqlite: one statement at a
-- time, each committed by itself, under a lock that no code of theirs panics with. SQLite may refuse
-- any statement, and any row that it is asked for.
pub mod Laws
pub mod Errors
pub mod Sample
use wyrtloom.Kanban.{Timestamp}
use wyrtloom.Base.{
  ◌≡◌, none, some, String, Option, Bool, true, false, List, [], ◌∷◌, any, if◌then◌else◌,
}

pub data Result (E A : Type 0) : Type 0 where
  ok : A → Result E A
  err : E → Result E A

-- `faults` is what SQLite will answer to the coming statements: true for a refusal; past its end every
-- one succeeds.
pub record Conn (T : Type 0) : Type 0 where
  pub tables : T
  pub faults : List Bool

abbrev pub M : Type 0 → Type 0 → Type 0 → Type 0
M T E A = Conn T → Result E A × Conn T

module _ {T E A : Type 0} where
  unfoldable pub pure : A → M T E A
  pure a c = (ok a, c)

  unfoldable pub fail : E → M T E A
  fail e c = (err e, c)

  -- A value that is there, or the error.
  unfoldable pub give : Result E A → M T E A
  give r c = (r, c)

  -- One statement: it is refused with the error, or reads and changes the tables.
  unfoldable pub statement : E → (T → A × T) → M T E A
  statement e f c = elim c.faults [
    | [] ↦ (ok (f c.tables).0, record c { tables = (f c.tables).1 })
    | false ∷ rest ↦ (ok (f c.tables).0, record c { tables = (f c.tables).1; faults = rest })
    | true ∷ rest ↦ (err e, record c { faults = rest })
  ]

  -- A statement that only reads.
  unfoldable pub query : E → (T → A) → M T E A
  unfolding statement
  query e f = statement e (λ t. (f t, t))

-- `?`: the rest of the function runs unless the result is an error.
abbrev pub on_ok : {T E A B : Type 0} → Result E A × Conn T → (A → M T E B) → Result E B × Conn T
on_ok (ok a, c) k = k a c
on_ok (err e, c) k = (err e, c)

infixl 5 ◌>>=◌ ◌>>◌
unfoldable pub ◌>>=◌ : {T E A B : Type 0} → M T E A → (A → M T E B) → M T E B
unfolding pure fail give query
◌>>=◌ m k c = on_ok (m c) k

abbrev pub ◌>>◌ : {T E B : Type 0} → M T E Unit → M T E B → M T E B
m >> k = m >>= λ _. k

-- The loop over a query's rows, each read and decoded.
unfoldable pub each_row : {T E R A : Type 0} → E → (R → Result E A) → List R → M T E (List A)
unfolding ◌>>=◌
each_row e decode [] = pure []
each_row e decode (r ∷ rows) = do
  query e (λ _. tt)
  a ← give (decode r)
  rest ← each_row e decode rows
  pure (a ∷ rest)

-- What follows where the result is not an error.
abbrev pub and_then : {E A B : Type 0} → Result E A → (A → Result E B) → Result E B
and_then (ok a) g = g a
and_then (err e) g = err e

-- A value that is there, or the error.
abbrev pub or_err : {E A : Type 0} → Option A → E → Result E A
or_err none e = err e
or_err (some a) e = ok a

-- What the loop makes where no row is refused.
unfoldable pub decode_rows : {E R A : Type 0} → (R → Result E A) → List R → Result E (List A)
decode_rows decode [] = ok []
decode_rows decode (r ∷ rows) =
    and_then (decode r) λ a. and_then (decode_rows decode rows) λ rest. ok (a ∷ rest)

-- A statement that a constraint of the schema may refuse, and then changes nothing.
abbrev pub kept : {T E A : Type 0} → Result E (A × T) → T → Result E A × T
kept (ok (a, u)) t = (ok a, u)
kept (err e) t = (err e, t)

unfoldable pub constrained : {T E A : Type 0} → E → (T → Result E (A × T)) → M T E A
unfolding ◌>>=◌ statement give
constrained e f = statement e (λ t. kept (f t) t) >>= give

-- chrono's RFC 3339 text of a time.
pub record Rfc3339 : Type 0 where
  pub show_time : Timestamp → String
  pub parse_time : String → Option Timestamp
  pub parse-show_time : (t : Timestamp) → parse_time (show_time t) ≡ some t

-- serde_json's text of a value, and its reading.
pub record Json (A : Type 0) : Type 0 where
  pub to_string : A → Option String
  pub from_str : String → Option A
  pub from_str-to_string : (a : A) (s : String) → to_string a ≡ some s → from_str s ≡ some a
