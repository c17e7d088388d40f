-- ===== src/Db/Sample.antt =====
-- Times in strokes.
use wyrtloom.Base.{ap, some}
use wyrtloom.Sqlite.Sample.{unary, count, count-unary}
use wyrtloom.Db.{Rfc3339}

abbrev pub strokes : Rfc3339
unfolding count unary
strokes = record {
  show_time = unary;
  parse_time = λ s. some (count s);
  parse-show_time = λ i. ap some (count-unary i);
}
