-- ===== src/Json/Encode.antt =====
-- encoding/json.Marshal of a []int.
use globalmail.Prelude.{◌≡◌, refl, true, some, List, [], ◌∷◌, All, arith}
use globalmail.Prelude.Int.{ℤ, in_range, ℤ_half}
use globalmail.Json.Decode.{
  RawMessage, value, int, arr, Items, nil, cons, json_int, int_items, decode_int_list,
}

encode_items : List ℤ → Items
encode_items [] = nil
encode_items (n ∷ ns) = cons (int n) (encode_items ns)

unfoldable pub encode_int_list : List ℤ → RawMessage
unfolding encode_items
encode_int_list ns = value (arr (encode_items ns))

int_items-encode_items :
    (ns : List ℤ) → All (λ n. in_range ℤ_half n ≡ true) ns → int_items (encode_items ns) ≡ some ns
unfolding int_items encode_items json_int
int_items-encode_items [] h = refl
int_items-encode_items (n ∷ ns) h = ground (arith, int_items-encode_items ns h.1)

pub decode-encode_int_list :
    (ns : List ℤ)
    → All (λ n. in_range ℤ_half n ≡ true) ns
    → decode_int_list (encode_int_list ns) ≡ some ns
unfolding decode_int_list encode_int_list
decode-encode_int_list ns h = int_items-encode_items ns h
