-- ===== src/Json.antt =====
-- encoding/json on the `json.RawMessage` fields of domain/globalmail/types.go: what Unmarshal
-- gives for the Go types that the server decodes into, and strconv.ParseInt. A raw message is
-- what a JSON parser makes of its bytes.
mod Decode
mod Encode
pub use Decode.{
  RawMessage, empty, malformed, value, Json, null, bool, int, other_number, str, arr, obj, Items,
  nil, cons,
}
unfoldable pub use Decode.{
  decode_int, decode_int_list, decode_string, decode_string_list, decode_items, parse_int,
}
unfoldable pub use Encode.{encode_int_list}
pub use Encode.{decode-encode_int_list}
