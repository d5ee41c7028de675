-- ===== src/SqlClassify/Classify.antt =====
-- `classify_statement` and `is_select_only` of memora/sql_classify.py.
use memora.Prelude.{
  Bool, true, false, not, ◌&&◌, Option, none, some, List, [], ◌∷◌, any, if◌then◌else◌, text_beq,
  String,
}
use memora.Prelude.Text.{Text, codes}
use memora.SqlClassify.Tokens.{CharTables, Tok, tokenize}
use memora.SqlClassify.Statements.{
  is_punct, first_is, first_name, drop, is_upper, upper_of, split_statements, skip_with,
}

pub data StatementKind : Type 0 where
  read mutation ddl txn unknown : StatementKind

pub record Classified : Type 0 where
  pub kind : StatementKind
  pub main : Text
  pub target : Option Text
  pub txn_end : Bool

abbrev pub text_in : List String → Text → Bool
text_in ws t = any (λ w. text_beq (codes w) t) ws

abbrev pragma_read_with_arg : List String
pragma_read_with_arg =
    "table_info" ∷ "table_xinfo" ∷ "index_list" ∷ "index_info" ∷ "foreign_key_list" ∷ []

abbrev pragma_read_bare : List String
pragma_read_bare =
    "database_list" ∷ "integrity_check" ∷ "quick_check" ∷ "journal_mode" ∷ "user_version"
    ∷ "schema_version" ∷ []

abbrev plain : StatementKind → Text → Classified
plain k main = record { kind = k; main = main; target = none; txn_end = false }

-- The kind of a PRAGMA by its name and what stands behind the name.
abbrev pragma_form : Text → List Tok → StatementKind
pragma_form name [] = if text_in pragma_read_bare name then read else ddl
pragma_form name (t ∷ ts) = if is_punct 40 t && text_in pragma_read_with_arg name then read else ddl

abbrev pragma_named : (Text → Text) → Option Text → List Tok → StatementKind
pragma_named lower none ts = unknown
pragma_named lower (some name) ts = pragma_form (lower name) ts

-- `_target_after`, on the tokens from its index on.
abbrev qualified : Text → List Tok → Option Text
qualified name (dot ∷ t ∷ ts) = if is_punct 46 dot then first_name (t ∷ ts) else some name
qualified name _ = some name

abbrev target_named : Option Text → List Tok → Option Text
target_named none ts = none
target_named (some name) ts = qualified name ts

unfoldable pub target_after : List Tok → Option Text
target_after ts = target_named (first_name ts) (drop 1 ts)

-- A mutation when there is a target that is not empty.
abbrev pub of_target : Text → Option Text → Classified
of_target main none = record { kind = unknown; main = main; target = none; txn_end = false }
of_target main (some []) = record { kind = unknown; main = main; target = some []; txn_end = false }
of_target main (some (c ∷ t)) = record {
  kind = mutation;
  main = main;
  target = some (c ∷ t);
  txn_end = false;
}

abbrev pub is_read : StatementKind → Bool
is_read read = true
is_read _ = false

abbrev pub is_mutation : StatementKind → Bool
is_mutation mutation = true
is_mutation _ = false

module _ (u : CharTables) where
  unfoldable pub pragma_kind : List Tok → StatementKind
  pragma_kind stmt =
      let at_name = drop 1 stmt in
      elim (first_name at_name) [
        | none ↦ unknown
        | some name ↦
            let behind = drop 1 at_name in
            if first_is (is_punct 46) behind
            then pragma_named u.lower (first_name (drop 1 behind)) (drop 2 behind)
            else pragma_form (u.lower name) behind
      ]

  abbrev is_first : String → List Tok → Bool
  is_first w ts = first_is (is_upper u (codes w)) ts

  -- The statement from its main keyword on; `with_prefix` tells whether a WITH stands before.
  unfoldable pub classify_insert : Text → List Tok → Classified
  classify_insert main rest =
      let into =
        if text_beq main (codes "INSERT") && is_first "OR" rest then drop 2 rest else rest in
      if is_first "INTO" into
      then of_target main (target_after (drop 1 into))
      else plain unknown main

  unfoldable pub classify_other : Bool → Text → Classified
  classify_other with_prefix main =
      if with_prefix
      then plain unknown main
      else if text_in
          ("CREATE" ∷ "ALTER" ∷ "DROP" ∷ "REINDEX" ∷ "VACUUM" ∷ "ANALYZE" ∷ "ATTACH" ∷ "DETACH"
            ∷ [])
          main
      then plain ddl main
      else if text_in ("BEGIN" ∷ "SAVEPOINT" ∷ []) main
      then plain txn main
      else if text_in ("COMMIT" ∷ "END" ∷ "ROLLBACK" ∷ "RELEASE" ∷ []) main
      then record { kind = txn; main = main; target = none; txn_end = true }
      else plain unknown main

  unfoldable pub classify_main : List Tok → Bool → Text → List Tok → Classified
  unfolding classify_insert classify_other pragma_kind
  classify_main stmt with_prefix main rest =
      if text_in ("SELECT" ∷ "VALUES" ∷ []) main
      then plain read main
      else if text_beq main (codes "EXPLAIN") && not with_prefix
      then plain read main
      else if text_beq main (codes "PRAGMA") && not with_prefix
      then plain (pragma_kind stmt) main
      else if text_in ("INSERT" ∷ "REPLACE" ∷ []) main
      then classify_insert main rest
      else if text_beq main (codes "UPDATE")
      then of_target main (target_after (if is_first "OR" rest then drop 2 rest else rest))
      else if text_beq main (codes "DELETE")
      then (if is_first "FROM" rest
          then of_target main (target_after (drop 1 rest))
          else plain unknown main)
      else classify_other with_prefix main

  abbrev pub from_main : List Tok → Bool → List Tok → Classified
  from_main stmt with_prefix [] = plain unknown (codes "WITH")
  from_main stmt with_prefix (t ∷ ts) = classify_main stmt with_prefix (upper_of u t) ts

  abbrev pub behind_with : List Tok → Option (List Tok) → Classified
  behind_with stmt none = plain unknown (codes "WITH")
  behind_with stmt (some rest) = from_main stmt true rest

  unfoldable pub classify_one : List Tok → Classified
  unfolding classify_main
  classify_one stmt =
      if is_first "WITH" stmt
      then behind_with stmt (skip_with u stmt)
      else from_main stmt false stmt

  unfoldable pub classify_statements : List (List Tok) → Classified
  classify_statements [] = plain read []
  classify_statements (stmt ∷ []) = classify_one stmt
  classify_statements (stmt ∷ more ∷ stmts) = plain unknown (codes "MULTI")

  unfoldable pub classify_tokens : Option (List Tok) → Classified
  classify_tokens none = plain unknown []
  classify_tokens (some toks) = classify_statements (split_statements u toks)

  unfoldable pub classify_statement : Text → Classified
  unfolding classify_tokens classify_statements classify_one
  classify_statement sql = classify_tokens (tokenize u sql)

  abbrev no_returning : Option (List Tok) → Bool
  no_returning none = false
  no_returning (some toks) = not (any (is_upper u (codes "RETURNING")) toks)

  unfoldable pub is_select_only : Text → Bool
  is_select_only sql =
      let c = classify_statement sql in
      (is_read c.kind && text_beq c.main (codes "SELECT")) && no_returning (tokenize u sql)
