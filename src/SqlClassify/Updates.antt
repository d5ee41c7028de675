-- ===== src/SqlClassify/Updates.antt =====
-- What `derive_effect` of memora/sql_classify.py binds in an UPDATE and a DELETE.
use memora.Prelude.{
  ℕ, suc, ◌-◌, true, false, Option, some, List, [], ◌∷◌, ◌++◌, ◌≡◌, refl, ap, ◌∙◌, arith, All, ltb,
  length, length-append, insert, text_beq, Text_comparable, subst,
}
use memora.Prelude.Text.{Text, codes}
use memora.SqlClassify.Tokens.{CharTables, Tok, punct, param}
use memora.SqlClassify.Statements.{is_kind_name, is_upper, drop}
use memora.SqlClassify.Effect.{index_of, assignments, conjuncts, update_effect, where_keys, keys_in}

abbrev pub equals_tok : Tok
equals_tok = record { kind = punct; text = 61 ∷ [] }

abbrev pub comma_tok : Tok
comma_tok = record { kind = punct; text = 44 ∷ [] }

abbrev pub mark_tok : Tok
mark_tok = record { kind = param; text = 63 ∷ [] }

drop_behind :
    (pre : List Tok) (t : Tok) (rest : List Tok) → drop (suc (length pre)) (pre ++ t ∷ rest) ≡ rest
unfolding drop
drop_behind [] t rest = refl
drop_behind (x ∷ pre) t rest = drop_behind pre t rest

append_between :
    (xs : List Tok) (t : Tok) (ys zs : List Tok) → (xs ++ t ∷ ys) ++ zs ≡ xs ++ t ∷ (ys ++ zs)
append_between [] t ys zs = refl
append_between (x ∷ xs) t ys zs = ap (λ ts. x ∷ ts) (append_between xs t ys zs)

module _ {V : Type 0} where
  -- The tokens `c = ?, d = ?, …` and `c = ? AND d = ? …` of columns, each with the value that its mark
  -- is to be bound to, the values in order, and the dictionary of the columns.
  abbrev pub set_tokens : List (Tok × V) → List Tok
  set_tokens [] = []
  set_tokens ((c, v) ∷ []) = c ∷ equals_tok ∷ mark_tok ∷ []
  set_tokens ((c, v) ∷ i ∷ items) = c ∷ equals_tok ∷ mark_tok ∷ comma_tok ∷ set_tokens (i ∷ items)

  abbrev pub and_tokens : Tok → List (Tok × V) → List Tok
  and_tokens both [] = []
  and_tokens both ((c, v) ∷ []) = c ∷ equals_tok ∷ mark_tok ∷ []
  and_tokens both ((c, v) ∷ i ∷ items) =
      c ∷ equals_tok ∷ mark_tok ∷ both ∷ and_tokens both (i ∷ items)

  abbrev pub values : List (Tok × V) → List V
  values [] = []
  values ((c, v) ∷ items) = v ∷ values items

  abbrev pub dict_of : List (Tok × V) → List (Text × V) → List (Text × V)
  dict_of [] d = d
  dict_of ((c, v) ∷ items) d = dict_of items (insert c.text v d)

  abbrev pub AreNames : List (Tok × V) → Type 0
  AreNames = All (λ item. is_kind_name item.0.kind ≡ true)

  assignments_step :
      (c : Tok) (v : V) (n : ℕ) (more : List Tok) (params : List V) (d : List (Text × V))
      → is_kind_name c.kind ≡ true
      → assignments
          (suc (suc (suc (suc n))))
          (c ∷ equals_tok ∷ mark_tok ∷ comma_tok ∷ more)
          (v ∷ params)
          d
        ≡ assignments n more params (insert c.text v d)
  unfolding assignments text_beq
  assignments_step c v n more params d h =
      let wide : ltb 2 (suc (suc (suc n))) ≡ true = ground arith in
      let left : suc (suc (suc n)) - 3 ≡ n = omega arith in rw (h, wide, left, assignments) refl

  assignments_lem :
      (item : Tok × V) (items : List (Tok × V)) (stop : Tok) (rest : List Tok) (ws : List V)
      (d : List (Text × V))
      → AreNames (item ∷ items)
      → assignments
          (length (set_tokens (item ∷ items)))
          (set_tokens (item ∷ items) ++ stop ∷ rest)
          (values (item ∷ items) ++ ws)
          d
        ≡ some (dict_of (item ∷ items) d, ws)
  unfolding assignments text_beq
  assignments_lem (c, v) [] stop rest ws d h = rw (h.0, assignments) refl
  assignments_lem (c, v) (i ∷ items) stop rest ws d h =
      assignments_step c v (length (set_tokens (i ∷ items))) (set_tokens (i ∷ items) ++ stop ∷ rest)
        (values (i ∷ items) ++ ws) d h.0
      ∙ assignments_lem i items stop rest ws (insert c.text v d) h.1

  conjuncts_lem :
      (u : CharTables) (both : Tok) (item : Tok × V) (items : List (Tok × V)) (d : List (Text × V))
      → is_upper u (codes "AND") both ≡ true
      → AreNames (item ∷ items)
      → conjuncts u (and_tokens both (item ∷ items)) (values (item ∷ items)) d
        ≡ some (dict_of (item ∷ items) d)
  unfolding conjuncts text_beq
  conjuncts_lem u both (c, v) [] d a h = rw (h.0, conjuncts) refl
  conjuncts_lem u both (c, v) (i ∷ items) d a h =
      rw (h.0, a, conjuncts) (conjuncts_lem u both i items (insert c.text v d) a h.1)

module _ (u : CharTables) where
  abbrev pub Lacks : Text → List Tok → Type 0
  Lacks w = All (λ t. is_upper u w t ≡ false)

  index_of-append :
      (w : Text) (pre : List Tok) (t : Tok) (rest : List Tok)
      → Lacks w pre
      → is_upper u w t ≡ true
      → index_of u w (pre ++ t ∷ rest) ≡ some (length pre)
  unfolding index_of
  index_of-append w [] t rest h k = rw k refl
  index_of-append w (x ∷ pre) t rest h k = rw h.0 (rw (index_of-append w pre t rest h.1 k) refl)

  Lacks-append : (w : Text) (xs ys : List Tok) → Lacks w xs → Lacks w ys → Lacks w (xs ++ ys)
  Lacks-append w [] ys h k = k
  Lacks-append w (x ∷ xs) ys h k = (h.0, Lacks-append w xs ys h.1 k)

  module _ {V : Type 0} where
    abbrev pub AreOther : Text → List (Tok × V) → Type 0
    AreOther w = All (λ item. is_upper u w item.0 ≡ false)

    sets-Lacks :
        (items : List (Tok × V))
        → AreOther (codes "WHERE") items
        → Lacks (codes "WHERE") (set_tokens items)
    unfolding text_beq
    sets-Lacks [] h = tt
    sets-Lacks ((c, v) ∷ []) h = (h.0, (refl, (refl, tt)))
    sets-Lacks ((c, v) ∷ i ∷ items) h = (h.0, (refl, (refl, (refl, sets-Lacks (i ∷ items) h.1))))

    update_found :
        (pk : Option (List Text)) (target : Option Text) (toks : List Tok) (params : List V)
        (s w n : ℕ) (sets behind : List Tok) (post : List (Text × V)) (rest : List V)
        (keys : List (Text × V))
        → index_of u (codes "SET") toks ≡ some s
        → index_of u (codes "WHERE") toks ≡ some w
        → w - suc s ≡ n
        → drop (suc s) toks ≡ sets
        → drop (suc w) toks ≡ behind
        → assignments n sets params [] ≡ some (post, rest)
        → conjuncts u behind rest [] ≡ some keys
        → update_effect u pk target toks params
          ≡ record { target = target; keys = keys_in pk keys; post = some post }
    unfolding update_effect where_keys
    update_found pk target toks params s w n sets behind post rest keys a b c d e f g =
        rw (a, b, c, d, f, update_effect) (rw b (rw e (rw (g, where_keys) refl)))

    -- The tokens of `UPDATE … SET c = ?, … WHERE d = ? AND …`: neither SET nor WHERE stands before its
    -- place, the columns are names, and there are some on either side.
    pub record IsUpdate (head : List Tok) (set where_tok both : Tok) (first : Tok × V)
        (sets : List (Tok × V)) (key : Tok × V) (keys : List (Tok × V)) : Type 0 where
      pub no_set : Lacks (codes "SET") head
      pub no_where : Lacks (codes "WHERE") head
      pub is_set : is_upper u (codes "SET") set ≡ true
      pub set_no_where : is_upper u (codes "WHERE") set ≡ false
      pub is_where : is_upper u (codes "WHERE") where_tok ≡ true
      pub is_and : is_upper u (codes "AND") both ≡ true
      pub set_names : AreNames (first ∷ sets)
      pub set_others : AreOther (codes "WHERE") (first ∷ sets)
      pub key_names : AreNames (key ∷ keys)

    -- On the tokens of UPDATE … SET c = ?, … WHERE d = ? AND …, where SET and WHERE stand nowhere before
    -- their places, the columns are names and there are some on either side, the columns behind SET have
    -- the first parameters, in order, and those of the WHERE the ones behind them; the keys are the
    -- primary key of the table among the latter.
    pub update_effect_lem :
        (pk : Option (List Text)) (target : Option Text) (head : List Tok)
        (set where_tok both : Tok) (first : Tok × V) (sets : List (Tok × V)) (key : Tok × V)
        (keys : List (Tok × V))
        → IsUpdate head set where_tok both first sets key keys
        → update_effect u pk target
            (head ++ set ∷ (set_tokens (first ∷ sets) ++ where_tok ∷ and_tokens both (key ∷ keys)))
            (values (first ∷ sets) ++ values (key ∷ keys))
          ≡ record {
            target = target;
            keys = keys_in pk (dict_of (key ∷ keys) []);
            post = some (dict_of (first ∷ sets) []);
          }
    update_effect_lem pk target head set where_tok both first sets key keys h =
        let spelled = set_tokens (first ∷ sets) in
        let behind = and_tokens both (key ∷ keys) in
        let before = head ++ set ∷ spelled in
        let split = append_between head set spelled (where_tok ∷ behind) in
        let lacks : Lacks (codes "WHERE") before =
          Lacks-append (codes "WHERE") head (set ∷ spelled) h.no_where
            (h.set_no_where, sets-Lacks (first ∷ sets) h.set_others) in
        let at_where = index_of-append (codes "WHERE") before where_tok behind lacks h.is_where in
        update_found pk target (head ++ set ∷ (spelled ++ where_tok ∷ behind))
          (values (first ∷ sets) ++ values (key ∷ keys)) (length head) (length before)
          (length spelled) (spelled ++ where_tok ∷ behind) behind (dict_of (first ∷ sets) [])
          (values (key ∷ keys)) (dict_of (key ∷ keys) [])
          (index_of-append (codes "SET") head set _ h.no_set h.is_set)
          (subst (λ ts. index_of u (codes "WHERE") ts ≡ some (length before)) split at_where)
          (omega (arith, length-append head (set ∷ spelled)))
          (drop_behind head set (spelled ++ where_tok ∷ behind))
          (subst (λ ts. drop (suc (length before)) ts ≡ behind) split
            (drop_behind before where_tok behind))
          (assignments_lem first sets where_tok behind (values (key ∷ keys)) [] h.set_names)
          (conjuncts_lem u both key keys [] h.is_and h.key_names)
