-- ===== src/Config/Durations.antt =====
-- config/config.go: a Duration in the file, and LoadBytes. What yaml reads of a node, and
-- time.ParseDuration, are parameters.
use globalmail.Prelude.{
  ◌+◌, ◌*◌, ◌≡◌, arith, Bool, String, Option, none, some, Result, ok, err, if◌then◌else◌,
}
use globalmail.Prelude.Int.{ℤ, pos, negsuc, wrap64, wrap64_id, InRange}
use globalmail.Config.{Config, default_config, second}
use globalmail.Config.Validate.{ConfigError, validate, yaml_error}

pub record YamlNode : Type 0 where
  pub is_scalar : Bool
  pub value : String
  pub decoded_int : Option ℤ

-- A number of seconds in nanoseconds, before it is cut to an int64.
abbrev pub nanoseconds : ℤ → ℤ
nanoseconds (pos n) = pos (n * second)
nanoseconds (negsuc n) = negsuc (n * second + 999999999)

unfoldable pub seconds_duration : Option ℤ → Result ConfigError ℤ
seconds_duration none = err yaml_error
seconds_duration (some seconds) = ok (wrap64 (nanoseconds seconds))

unfoldable pub unmarshal_yaml : (String → Option ℤ) → YamlNode → Result ConfigError ℤ
unfolding seconds_duration
unmarshal_yaml parse_duration node =
    if node.is_scalar
    then elim (parse_duration node.value) [
      | some parsed ↦ ok parsed
      | none ↦ seconds_duration node.decoded_int
    ]
    else seconds_duration node.decoded_int

-- A configuration that does not pass comes back beside its error.
unfoldable pub load_bytes {ℓ} :
    {P : Type ℓ} → (P → Config → Option Config) → P → Option Config × Option ConfigError
unfolding default_config validate
load_bytes unmarshal payload = elim (unmarshal payload default_config) [
  | none ↦ (none, some yaml_error)
  | some cfg ↦ (some cfg, validate cfg)
]

-- A plain number in the file counts seconds exactly, up to 292 years.
unmarshal_yaml-seconds :
    (parse_duration : String → Option ℤ) (node : YamlNode) (seconds : ℤ)
    → parse_duration node.value ≡ none
    → node.decoded_int ≡ some seconds
    → InRange 9223372036 seconds
    → unmarshal_yaml parse_duration node ≡ ok (nanoseconds seconds)
unfolding unmarshal_yaml seconds_duration
unmarshal_yaml-seconds parse_duration node (pos n) p d r =
    ground (arith, p, d, wrap64_id (pos (n * second)))
unmarshal_yaml-seconds parse_duration node (negsuc n) p d r =
    ground (arith, p, d, wrap64_id (negsuc (n * second + 999999999)))
