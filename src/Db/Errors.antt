-- ===== src/Db/Errors.antt =====
-- Which errors a computation on a connection answers with.
use wyrtloom.Base.{Bool, true, false, List, [], ◌∷◌}
use wyrtloom.Db.{
  Result, ok, err, Conn, M, give, query, on_ok, ◌>>=◌, constrained, kept, and_then, or_err,
}
use wyrtloom.Base.{Option, none, some}

module _ {E : Type 0} (P : E → Type 0) where
  -- The error, if it is one, has the property.
  abbrev pub Errs : {A : Type 0} → Result E A → Type 0
  Errs (ok a) = Unit
  Errs (err e) = P e

  -- A value that is there or not, and what follows.
  pub or_err-Errs :
      {A B : Type 0} (o : Option A) (e : E) (k : A → Result E B)
      → P e
      → ((a : A) → Errs (k a))
      → Errs (and_then (or_err o e) k)
  or_err-Errs none e k h g = h
  or_err-Errs (some a) e k h g = g a

module _ {T E : Type 0} (P : E → Type 0) where
  -- Each error that it answers has the property.
  abbrev pub Fails : {A : Type 0} → M T E A → Type 0
  Fails m = (c : Conn T) → Errs P (m c).0

  pub give-Fails : {A : Type 0} (r : Result E A) → Errs P r → Fails (give r)
  unfolding give
  give-Fails r h c = h

  asked :
      {A : Type 0} (e : E) (f : T → A) (t : T) (fs : List Bool)
      → P e
      → Errs P (query e f (record { tables = t; faults = fs })).0
  unfolding query
  asked e f t [] h = tt
  asked e f t (false ∷ fs) h = tt
  asked e f t (true ∷ fs) h = h

  pub query-Fails : {A : Type 0} (e : E) (f : T → A) → P e → Fails (query e f)
  query-Fails e f h c = asked e f c.tables c.faults h

  settled : {A : Type 0} (r : Result E (A × T)) (t : T) → Errs P r → Errs P (kept r t).0
  settled (ok p) t h = tt
  settled (err e) t h = h

  constrain :
      {A : Type 0} (e : E) (f : T → Result E (A × T)) (t : T) (fs : List Bool)
      → P e
      → Errs P (f t)
      → Errs P (constrained e f (record { tables = t; faults = fs })).0
  unfolding constrained
  constrain e f t [] h k = settled (f t) t k
  constrain e f t (false ∷ fs) h k = settled (f t) t k
  constrain e f t (true ∷ fs) h k = h

  pub constrained-Fails :
      {A : Type 0} (e : E) (f : T → Result E (A × T))
      → P e
      → ((t : T) → Errs P (f t))
      → Fails (constrained e f)
  constrained-Fails e f h k c = constrain e f c.tables c.faults h (k c.tables)

  next-Errs :
      {A B : Type 0} (x : Result E A × Conn T) (k : A → M T E B)
      → Errs P x.0
      → ((a : A) → Fails (k a))
      → Errs P (on_ok x k).0
  next-Errs (ok a, c) k h g = g a c
  next-Errs (err e, c) k h g = h

  pub bind-Fails :
      {A B : Type 0} (m : M T E A) (k : A → M T E B)
      → Fails m
      → ((a : A) → Fails (k a))
      → Fails (m >>= k)
  unfolding ◌>>=◌
  bind-Fails m k h g c = next-Errs (m c) k (h c) g
