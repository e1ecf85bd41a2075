-- ===== src/Tasks/Json.antt =====
-- JSON texts in the columns of the store: `_sqlite_json_text`, `_loads_json_mapping` and
-- `_json_nesting_depth` of acgps/workflow_store.py.
pub mod Nesting
mod Tests
use Prim.Native.Char.{code}
use Prim.Native.String as S
use acgps_public.Prelude.{
  ℕ, ◌+◌, ◌-◌, String, Bool, true, false, ◌||◌, [], ◌∷◌, nat_eq, ltb, if◌then◌else◌,
}
use acgps_public.Py.Result.{Py, ok, raise, ◌>>=◌, ◌>>◌}
use acgps_public.Py.Text.{fmt}
use acgps_public.Py.Value.{Value, dict, Fields}
use acgps_public.Workflow.Outcome.{Check, invalid}

-- `_raise(code, path, message)`
abbrev pub store_error {ℓ} : {A : Type ℓ} → String → String → String → Check A
store_error c p m = raise (invalid (record { code = c; path = p; message = m }))

-- `if test: _raise(code, path, message)`
abbrev pub fail_if : Bool → String → String → String → Check (Unit {0})
fail_if true code path message = store_error code path message
fail_if false code path message = ok tt

-- What the store uses of other code: a value of a TEXT column, its characters, the length of its
-- UTF-8 form or the reason why it has none, the canonical JSON of a value, the value that
-- `json.loads` reads or why it does not, and `==` of two texts.
pub record Json : Type 1 where
  pub Text : Type 0
  pub chars : Text → String
  pub utf8_size : Text → Py String ℕ
  pub dumps : Value → Text
  pub loads : Text → Py String Value
  pub same : Text → Text → Bool

-- MAX_SQLITE_JSON_BYTES and MAX_SQLITE_JSON_DEPTH
abbrev pub max_sqlite_json_bytes : ℕ
max_sqlite_json_bytes = 262144

abbrev pub max_sqlite_json_depth : ℕ
max_sqlite_json_depth = 256

-- Where the scan of a text stands: the depth, the greatest depth, and whether it is inside a
-- string or behind a backslash.
pub record Scan : Type 0 where
  pub depth : ℕ
  pub maximum : ℕ
  pub in_string : Bool
  pub escaped : Bool

abbrev is_open : ℕ → Bool
is_open c = nat_eq c b'[' || nat_eq c b'{'

abbrev is_close : ℕ → Bool
is_close c = nat_eq c b']' || nat_eq c b'}'

abbrev max : ℕ → ℕ → ℕ
max m n = if ltb m n then n else m

-- One character inside a string.
abbrev scan_string : ℕ → Scan → Scan
scan_string c s =
    if s.escaped
    then record s { escaped = false }
    else if nat_eq c 92
    then record s { escaped = true }
    else if nat_eq c 34
    then record s { in_string = false }
    else s

-- One character outside of a string.
abbrev scan_outside : ℕ → Scan → Scan
scan_outside c s =
    if nat_eq c 34
    then record s { in_string = true }
    else if is_open c
    then record s { depth = s.depth + 1; maximum = max s.maximum (s.depth + 1) }
    else if is_close c
    then record s { depth = s.depth - 1 }
    else s

-- The body of the loop.
unfoldable pub scan_char : ℕ → Scan → Scan
scan_char c s = if s.in_string then scan_string c s else scan_outside c s

unfoldable pub scan_text : String → Scan → Scan
unfolding scan_char
scan_text S.[] s = s
scan_text (S.◌∷◌ c cs) s = scan_text cs (scan_char (code c) s)

abbrev pub start_scan : Scan
start_scan = record { depth = 0; maximum = 0; in_string = false; escaped = false }

-- `_json_nesting_depth`
unfoldable pub json_nesting_depth : String → ℕ
unfolding scan_text
json_nesting_depth text = (scan_text text start_scan).maximum

module _ (json : Json) where
  unfoldable pub utf8_length : json.Text → String → String → Check ℕ
  unfolding fmt
  utf8_length text code path = elim (json.utf8_size text) [
    | ok n ↦ ok n
    | raise reason ↦ store_error code path (fmt ("record is not valid UTF-8: " ∷ reason ∷ []))
  ]

  unfoldable pub validate_sqlite_json_text : json.Text → String → String → Check (Unit {0})
  unfolding json_nesting_depth fmt utf8_length
  validate_sqlite_json_text text code path = utf8_length text code path >>= λ size.
      fail_if (ltb max_sqlite_json_bytes size) code path
        "record JSON exceeds maximum SQLite JSON size"
      >> fail_if (ltb max_sqlite_json_depth (json_nesting_depth (json.chars text))) code path
          "record JSON exceeds maximum SQLite JSON depth"

  unfoldable pub sqlite_json_text : Value → String → String → Check json.Text
  unfolding validate_sqlite_json_text
  sqlite_json_text v code path =
      validate_sqlite_json_text (json.dumps v) code path >>= λ _. ok (json.dumps v)

  -- The mapping that `json.loads` has read.
  unfoldable pub read_mapping : Py String Value → String → String → Check Fields
  unfolding fmt
  read_mapping (raise detail) code path =
      store_error code path (fmt ("malformed JSON: " ∷ detail ∷ []))
  read_mapping (ok (dict fields)) code path = ok fields
  read_mapping (ok v) code path = store_error code path "record must be a mapping"

  unfoldable pub loads_json_mapping : json.Text → String → String → Check Fields
  unfolding validate_sqlite_json_text read_mapping
  loads_json_mapping text code path =
      validate_sqlite_json_text text code path >>= λ _. read_mapping (json.loads text) code path
