-- ===== src/Gateway/Fingerprint.antt =====
-- The canonical text of a release request, whose digest is its fingerprint
-- (apps/capability-gateway/src/capability_gateway/service.py, _release_request_fingerprint).
use Prim.Native.Nat.{◌/◌, ◌%◌}
use Prim.Native.Char.{Char, code}
use Prim.Native.String
use control_architecture.Base.{
  ◌≡◌, refl, ℕ, ◌+◌, ◌-◌, String, [], ◌∷◌, ◌==◌, ltb, if◌then◌else◌, format, nat_eq, ℕ_discrete,
}
use control_architecture.Contracts.Literals.{release_mode_text}
use control_architecture.Gateway.Types.{ReleaseApprovedPaymentRequest}

hex_digit : ℕ → String
hex_digit n = String.slice "0123456789abcdef" n (n + 1)

-- `\uXXXX` for a number below 65536
escaped_unit : ℕ → String
unfolding hex_digit
escaped_unit n = format (
    "\\u"
    ∷ hex_digit (n / 4096 % 16)
    ∷ hex_digit (n / 256 % 16)
    ∷ hex_digit (n / 16 % 16)
    ∷ hex_digit (n % 16)
    ∷ [])

-- One character of a text in `json.dumps`, with `ensure_ascii` on.
escaped_char : Char → String
unfolding escaped_unit
escaped_char c =
    let n = code c in
    if n == 34
    then "\\\""
    else if n == 92
    then "\\\\"
    else if n == 10
    then "\\n"
    else if n == 13
    then "\\r"
    else if n == 9
    then "\\t"
    else if n == 12
    then "\\f"
    else if n == 8
    then "\\b"
    else if ltb n 32
    then escaped_unit n
    else if ltb n 127
    then String.◌∷◌ c ""
    else if ltb n 65536
    then escaped_unit n
    else let m = n - 65536 in
      format (escaped_unit (55296 + m / 1024) ∷ escaped_unit (56320 + m % 1024) ∷ [])

escaped : String → String
unfolding escaped_char
escaped String.[] = ""
escaped (String.◌∷◌ c s) = String.◌++◌ (escaped_char c) (escaped s)

-- `json.dumps` of a text
unfoldable pub json_string : String → String
unfolding escaped
json_string s = format ("\"" ∷ escaped s ∷ "\"" ∷ [])

-- `json.dumps(payload.model_dump(mode="json"), sort_keys=True, separators=(",", ":"))`
unfoldable pub canonical_payload : ReleaseApprovedPaymentRequest → String
unfolding json_string
canonical_payload p = format (
    "{\"idempotency_key\":"
    ∷ json_string p.idempotency_key
    ∷ ",\"payment_id\":"
    ∷ json_string p.payment_id
    ∷ ",\"release_mode\":"
    ∷ json_string (release_mode_text p.release_mode)
    ∷ ",\"released_by\":"
    ∷ json_string p.released_by
    ∷ ",\"task_id\":"
    ∷ json_string p.task_id
    ∷ "}"
    ∷ [])

escapes : json_string "a\"b\\ é" ≡ "\"a\\\"b\\\\ \\u00e9\""
unfolding json_string ℕ_discrete
escapes = refl
