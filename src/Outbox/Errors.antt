-- ===== src/Outbox/Errors.antt =====
-- src/outbox/errors.ts: which database errors are worth a retry.
use nodejs_advanced_homework.Prelude.{
  Bool, false, ◌||◌, Option, none, some, List, [], ◌∷◌, String, str_eq, any, has_prefix, matches_ci,
}

-- A thrown value: an object with the `code` and `message` that are texts, or anything else.
pub data Thrown : Type 0 where
  object : (code message : Option String) → Thrown
  other : Thrown

abbrev transient_pg_codes : List String
transient_pg_codes = "40001" ∷ "40P01" ∷ "53300" ∷ "55P03" ∷ "57P01" ∷ "57P02" ∷ "57P03" ∷ []

abbrev transient_node_codes : List String
transient_node_codes = "ECONNREFUSED" ∷ "ECONNRESET" ∷ "EPIPE" ∷ "ETIMEDOUT" ∷ "EAI_AGAIN" ∷ []

is_transient_code : Option String → Bool
is_transient_code none = false
is_transient_code (some code) =
    has_prefix "08" code
    || any (str_eq code) transient_pg_codes
    || any (str_eq code) transient_node_codes

is_transient_message : Option String → Bool
is_transient_message none = false
is_transient_message (some message) =
    matches_ci "connection terminated" message
    || matches_ci "connection timeout" message
    || matches_ci "timeout exceeded when trying to connect" message

unfoldable pub is_transient_db_error : Thrown → Bool
unfolding is_transient_code is_transient_message
is_transient_db_error (object code message) = is_transient_code code || is_transient_message message
is_transient_db_error other = false
