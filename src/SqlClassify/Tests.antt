-- ===== src/SqlClassify/Tests.antt =====
-- Runs of memora/sql_classify.py on ASCII statements, and its theorems applied to them.
use memora.Prelude.{String, ℕ, false, some, List, [], ◌∷◌, ◌++◌, ◌≡◌, refl, text_beq}
use memora.Prelude.Text.{codes}
use memora.SqlClassify.Tokens.{
  Tok, word, punct, str, ident, quoted, take_while, lex, tokens_from, tokenize,
}
use memora.SqlClassify.Statements.{
  drop, skip_parens, note_body, split_token, split_tokens, split_statements, with_rounds, skip_with,
}
use memora.SqlClassify.Classify.{
  read, mutation, unknown, target_after, classify_main, classify_one, classify_statements,
  classify_tokens, classify_statement,
}
use memora.SqlClassify.Sample.{ascii}
use memora.SqlClassify.Comments.{HasPlainMarks, nothing, space, line, classify_statement-Blank}
use memora.SqlClassify.Effect.{update_effect, keys_in}
use memora.SqlClassify.Updates.{
  IsUpdate, set_tokens, and_tokens, values, dict_of, update_effect_lem,
}

ascii-HasPlainMarks : HasPlainMarks ascii
ascii-HasPlainMarks = record { minus = refl; slash = refl }

test_select : (classify_statement ascii (codes "with x as (select 1) select * from x;")).kind ≡ read
unfolding classify_statement lex tokens_from tokenize take_while split_token split_tokens
    split_statements note_body drop skip_parens with_rounds skip_with classify_main classify_one
    classify_statements classify_tokens text_beq
test_select = refl

test_two : (classify_statement ascii (codes "select 1; delete from t")).kind ≡ unknown
unfolding classify_statement lex tokens_from tokenize take_while split_token split_tokens
    split_statements note_body classify_statements classify_tokens text_beq
test_two = refl

test_update :
    classify_statement ascii (codes "update main.t set a = ?")
    ≡ record { kind = mutation; main = codes "UPDATE"; target = some (codes "t"); txn_end = false }
unfolding classify_statement lex tokens_from tokenize take_while split_token split_tokens
    split_statements note_body drop classify_main classify_one classify_statements classify_tokens
    target_after text_beq
test_update = refl

classify_statement-Blank_example :
    classify_statement ascii (codes " --a;\n" ++ codes "select 1")
    ≡ classify_statement ascii (codes "select 1")
classify_statement-Blank_example =
    classify_statement-Blank ascii ascii-HasPlainMarks (codes " --a;\n") (codes "select 1")
      (space refl (line (codes "a;") refl nothing))

abbrev one_param : List ℕ
one_param = 7 ∷ []

abbrev word_tok : String → Tok
word_tok w = record { kind = word; text = codes w }

abbrev punct_tok : ℕ → Tok
punct_tok c = record { kind = punct; text = c ∷ [] }

abbrev with_tokens : List Tok
with_tokens =
    word_tok "with"
    ∷ word_tok "x"
    ∷ word_tok "as"
    ∷ punct_tok 40
    ∷ word_tok "select"
    ∷ punct_tok 41
    ∷ word_tok "select"
    ∷ []

test_literal :
    tokenize ascii (codes "'it''s' [a]")
    ≡ some (
        record { kind = str; text = codes "it's" } ∷ record { kind = ident; text = codes "a" } ∷ [])
unfolding lex tokens_from tokenize quoted
test_literal = refl

-- UPDATE memories SET content = ?, tags = ? WHERE id = ?
abbrev update_head : List Tok
update_head = word_tok "update" ∷ word_tok "memories" ∷ []

abbrev two_sets : List (Tok × ℕ)
two_sets = (word_tok "tags", 11) ∷ []

update_head-IsUpdate :
    IsUpdate ascii update_head
      (word_tok "set")
      (word_tok "where")
      (word_tok "and")
      (word_tok "content", 10)
      two_sets
      (word_tok "id", 12)
      []
unfolding text_beq
update_head-IsUpdate = record {
  no_set = (refl, (refl, tt));
  no_where = (refl, (refl, tt));
  is_set = refl;
  set_no_where = refl;
  is_where = refl;
  is_and = refl;
  set_names = (refl, (refl, tt));
  set_others = (refl, (refl, tt));
  key_names = (refl, tt);
}

update_effect_lem_example :
    update_effect ascii
      (some (codes "id" ∷ []))
      (some (codes "memories"))
      (update_head
        ++ word_tok "set"
          ∷ (set_tokens ((word_tok "content", 10) ∷ two_sets)
              ++ word_tok "where" ∷ and_tokens {V = ℕ} (word_tok "and") ((word_tok "id", 12) ∷ [])))
      (values ((word_tok "content", 10) ∷ two_sets) ++ values ((word_tok "id", 12) ∷ []))
    ≡ record {
      target = some (codes "memories");
      keys = keys_in (some (codes "id" ∷ [])) (dict_of ((word_tok "id", 12) ∷ []) []);
      post = some (dict_of ((word_tok "content", 10) ∷ two_sets) []);
    }
update_effect_lem_example =
    update_effect_lem ascii (some (codes "id" ∷ [])) (some (codes "memories")) update_head
      (word_tok "set") (word_tok "where") (word_tok "and") (word_tok "content", 10) two_sets
      (word_tok "id", 12) [] update_head-IsUpdate
