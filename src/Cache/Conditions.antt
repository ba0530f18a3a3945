-- ===== src/Cache/Conditions.antt =====
-- domain/globalmail/cache.go: compiled conditions, their match against a player's profile, and the
-- servers that a mail's conditions name.
use globalmail.Prelude.{
  String, Bool, true, false, not, ◌||◌, none, some, List, [], ◌∷◌, ◌++◌, map, contains,
  if◌then◌else◌, ◌==◌, string_eq, int_eq,
}
use globalmail.Prelude.Int.{ℤ, ltb_ℤ, leb_ℤ, eqb_ℤ}
use globalmail.Json.{
  RawMessage, decode_int, decode_int_list, decode_string, decode_string_list, parse_int,
}
use globalmail.Types.{Condition, UserProfile}

pub record CompiledCondition : Type 0 where
  pub type : String
  pub operator : String
  pub value : RawMessage

unfoldable pub compile_condition : Condition → CompiledCondition
compile_condition c = record { type = c.type; operator = c.operator; value = c.value }

unfoldable pub compile_conditions : List Condition → List CompiledCondition
unfolding compile_condition
compile_conditions = map compile_condition

unfoldable pub compare_int64 : ℤ → ℤ → String → Bool
compare_int64 actual expected operator =
    if operator == "" || operator == "eq"
    then eqb_ℤ actual expected
    else if operator == "ne"
    then not (eqb_ℤ actual expected)
    else if operator == "gt"
    then ltb_ℤ expected actual
    else if operator == "gte"
    then leb_ℤ expected actual
    else if operator == "lt"
    then ltb_ℤ actual expected
    else if operator == "lte"
    then leb_ℤ actual expected
    else false

unfoldable pub match_int : CompiledCondition → ℤ → Bool
unfolding compare_int64
match_int c actual = elim (decode_int c.value) [
  | some expected ↦ compare_int64 actual expected c.operator
  | none ↦ elim (decode_int_list c.value) [ some items ↦ contains items actual | none ↦ false ]
]

unfoldable pub match_int64 : CompiledCondition → ℤ → Bool
unfolding compare_int64
match_int64 c actual = elim (decode_int c.value) [
  | some expected ↦ compare_int64 actual expected c.operator
  | none ↦ elim (decode_string c.value) [
    | some encoded ↦ elim (parse_int encoded) [
      | some parsed ↦ compare_int64 actual parsed c.operator
      | none ↦ false
    ]
    | none ↦ false
  ]
]

unfoldable pub match_string : CompiledCondition → String → Bool
match_string c actual = elim (decode_string c.value) [
  | some expected ↦ actual == expected
  | none ↦ elim (decode_string_list c.value) [ some items ↦ contains items actual | none ↦ false ]
]

-- The switch of `conditionsMatch`. A type that it does not name holds of every player.
unfoldable pub condition_matches : CompiledCondition → UserProfile → Bool
unfolding match_int match_int64 match_string
condition_matches c p =
    if c.type == "server" || c.type == "server_id"
    then match_int c p.server_id
    else if c.type == "vip" || c.type == "vip_level"
    then match_int c p.vip_level
    else if c.type == "recharge" || c.type == "total_recharge"
    then match_int64 c p.total_recharge
    else if c.type == "corps_level"
    then match_int c p.corps_level
    else if c.type == "country"
    then match_string c p.country
    else true

unfoldable pub conditions_match : List CompiledCondition → UserProfile → Bool
unfolding condition_matches
conditions_match [] p = true
conditions_match (c ∷ cs) p = if condition_matches c p then conditions_match cs p else false

unfoldable pub condition_server_ids : Condition → List ℤ
condition_server_ids c =
    if c.type == "server" || c.type == "server_id"
    then elim (decode_int_list c.value) [
      | some ids ↦ ids
      | none ↦ elim (decode_int c.value) [ some id ↦ id ∷ [] | none ↦ [] ]
    ]
    else []

unfoldable pub server_ids_from_conditions : List Condition → List ℤ
unfolding condition_server_ids
server_ids_from_conditions [] = []
server_ids_from_conditions (c ∷ cs) = condition_server_ids c ++ server_ids_from_conditions cs
