-- ===== src/SqlClassify/Sample.antt =====
-- The character tables of memora/sql_classify.py on ASCII.
use memora.Prelude.{ℕ, ◌+◌, ◌-◌, Bool, ◌&&◌, ◌||◌, map, nat_eq, leb, if◌then◌else◌}
use memora.SqlClassify.Tokens.{CharTables}

abbrev pub between : ℕ → ℕ → ℕ → Bool
between a b c = leb a c && leb c b

abbrev pub raise : ℕ → ℕ
raise c = if between 97 122 c then c - 32 else c

abbrev pub fall : ℕ → ℕ
fall c = if between 65 90 c then c + 32 else c

abbrev pub letter : ℕ → Bool
letter c = between 65 90 c || between 97 122 c

-- The tables on ASCII.
abbrev pub ascii : CharTables
ascii = record {
  is_space = λ c. nat_eq c 32 || between 9 13 c;
  is_alpha = letter;
  is_alnum = λ c. letter c || between 48 57 c;
  is_digit = between 48 57;
  upper = map raise;
  lower = map fall;
}
