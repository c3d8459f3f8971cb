-- ===== src/Domain/Identifier.antt =====
-- internal/core/domain/identifier.go, and the session identifiers of sandbox.go. The random reader is
-- a parameter: what `io.ReadFull` returns for a buffer of `random_id_bytes` bytes, if it is not nil.
pub mod Format
use heliopause.Base.{
  Eq, List, Option, Result, eq_via, err, if◌then◌else◌, length, list_eq, map, nat_eq, none, not, ok,
  or_error, some, ℕ, ◌%◌, ◌*◌, ◌++◌, ◌+◌, ◌/◌, ◌==◌, ◌>>=◌, ◌>>◌, ◌||◌, ◌≡◌,
}
use heliopause.Text.{Text, codes, lower, trim_prefix, upper}
use heliopause.Text.Base32.{decode, encode}

abbrev pub random_id_bytes : ℕ
random_id_bytes = 16

-- `idEncoding.EncodedLen(16)`: eight digits for five bytes, rounded up.
abbrev pub encoded_len : ℕ → ℕ
encoded_len n = n / 5 * 8 + (n % 5 * 8 + 4) / 5

pub record OperationId : Type 0 where
  pub value : Text

pub record RunId : Type 0 where
  pub value : Text

pub record SandboxSessionId : Type 0 where
  pub value : Text

pub OperationId-injective : (a b : OperationId) → a.value ≡ b.value → a ≡ b
OperationId-injective a b p = λ i. record { value = p i }

pub RunId-injective : (a b : RunId) → a.value ≡ b.value → a ≡ b
RunId-injective a b p = λ i. record { value = p i }

instance abbrev pub run_id_eq : Eq RunId
run_id_eq = eq_via (λ r. r.value) RunId-injective

-- `reader` is `none` where the source's reader is nil.
unfoldable pub generate_id : Text → Option (Result (List ℕ)) → Result Text
unfolding encode lower
generate_id prefix none = err "random reader is nil"
generate_id prefix (some read) = do
  payload ← or_error read "read random payload"
  ok (prefix ++ map lower (encode payload))

-- The checks of `validateID` behind the prefix.
unfoldable pub validate_encoded : Text → Result (Unit {0})
validate_encoded encoded =
    if not (length encoded == encoded_len random_id_bytes) || not (encoded == map lower encoded)
    then err "invalid identifier"
    else elim (decode (map upper encoded)) [
      | none ↦ err "invalid identifier"
      | some payload ↦
          if not (length payload == random_id_bytes) || not (map lower (encode payload) == encoded)
          then err "invalid identifier"
          else ok tt
    ]

unfoldable pub validate_id : Text → Text → Result (Unit {0})
validate_id value prefix =
    let encoded = trim_prefix value prefix in
    if encoded == value then err "invalid identifier" else validate_encoded encoded

unfoldable pub new_operation_id : Option (Result (List ℕ)) → Result OperationId
unfolding generate_id
new_operation_id reader = do
  value ← or_error (generate_id (codes "op_") reader) "generate operation ID"
  ok (record { value = value })

unfoldable pub parse_operation_id : Text → Result OperationId
unfolding validate_id
parse_operation_id value = do validate_id value (codes "op_"); ok (record { value = value })

unfoldable pub new_run_id : Option (Result (List ℕ)) → Result RunId
unfolding generate_id
new_run_id reader = do
  value ← or_error (generate_id (codes "run_") reader) "generate run ID"
  ok (record { value = value })

unfoldable pub parse_run_id : Text → Result RunId
unfolding validate_id
parse_run_id value = do validate_id value (codes "run_"); ok (record { value = value })

unfoldable pub new_sandbox_session_id : Option (Result (List ℕ)) → Result SandboxSessionId
unfolding generate_id
new_sandbox_session_id reader = do
  value ← or_error (generate_id (codes "sbx_") reader) "generate Sandbox Session ID"
  ok (record { value = value })

unfoldable pub parse_sandbox_session_id : Text → Result SandboxSessionId
unfolding validate_id
parse_sandbox_session_id value = do validate_id value (codes "sbx_"); ok (record { value = value })
