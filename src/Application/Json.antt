-- ===== src/Application/Json.antt =====
-- `Command`, `Command::payload` and `validate_json` of src/application.rs. The numbers of serde_json,
-- and its reader and writer, are parameters.
use idf_remote.Base.{
  ℕ, ◌+◌, Bool, not, ◌&&◌, ◌||◌, [], ◌∷◌, Option, none, some, Bytes, length, is_empty, leb,
  eq_bytes, ◌==◌, if◌then◌else◌, Result, ok, ensure, context, ◌>>=◌, ◌>>◌,
}
use idf_remote.Base.Text.{codes}
use idf_remote.Mux.Frame.{max_payload}

-- `serde_json::Value`, over a type of numbers. Texts are their bytes.
mutual
  pub data Value (N : Type 0) : Type 0 where
    null : Value N
    boolean : Bool → Value N
    number : N → Value N
    string : Bytes → Value N
    array : Items N → Value N
    object : Fields N → Value N

  pub data Items (N : Type 0) : Type 0 where
    nil : Items N
    item : Value N → Items N → Items N

  pub data Fields (N : Type 0) : Type 0 where
    end : Fields N
    field : Bytes → Value N → Fields N → Fields N

-- What the code calls of serde_json: `n.as_f64().is_some_and(|n| n.abs() <= 9_007_199_254_740_991.0)`
-- of a number, `Number::as_u64`, `to_vec` and `from_slice`.
pub record Serde (N : Type 0) : Type 0 where
  pub is_interoperable : N → Bool
  pub as_u64 : N → Option ℕ
  pub to_vec : Value N → Option Bytes
  pub from_slice : Bytes → Option (Value N)

-- The messages of `ensure!`, `bail!` and `context` in the file.
pub data AppError : Type 0 where
  method_length method_nul nesting string_nul number_range key_nul : AppError
  serialization request_too_long session_lost ids_exhausted unsupported_protocol : AppError
  invalid_response session_ended application_error : AppError
  write_timeout write_closed write_failed disconnected response_timeout invalid_frame : AppError

pub record Command (N : Type 0) : Type 0 where
  pub method : Bytes
  pub params : Value N

-- `text.contains('\0')`
unfoldable pub contains_nul : Bytes → Bool
contains_nul [] = Bool.false
contains_nul (b ∷ bs) = b == 0 || contains_nul bs

abbrev pub max_depth : ℕ
max_depth = 16

module _ {N : Type 0} (serde : Serde N) where
  unfoldable mutual
    pub validate_json : Value N → ℕ → Result AppError (Unit {0})
    validate_json null depth = ensure (leb depth max_depth) nesting
    validate_json (boolean b) depth = ensure (leb depth max_depth) nesting
    validate_json (string text) depth =
        ensure (leb depth max_depth) nesting >> ensure (not (contains_nul text)) string_nul
    validate_json (number n) depth =
        ensure (leb depth max_depth) nesting >> ensure (serde.is_interoperable n) number_range
    validate_json (array values) depth =
        ensure (leb depth max_depth) nesting >> validate_items values (depth + 1)
    validate_json (object values) depth =
        ensure (leb depth max_depth) nesting >> validate_fields values (depth + 1)

    -- The loops over the members of an array and of an object.
    pub validate_items : Items N → ℕ → Result AppError (Unit {0})
    validate_items nil depth = ok tt
    validate_items (item value values) depth =
        validate_json value depth >> validate_items values depth

    pub validate_fields : Fields N → ℕ → Result AppError (Unit {0})
    validate_fields end depth = ok tt
    validate_fields (field key value values) depth =
        ensure (not (contains_nul key)) key_nul
        >> (validate_json value depth >> validate_fields values depth)

  -- What `#[derive(Serialize)]` writes of a command.
  abbrev pub command_value : Command N → Value N
  command_value c =
      object (field (codes "method") (string c.method) (field (codes "params") c.params end))

  unfoldable pub payload : Command N → Result AppError Bytes
  payload c = do
    ensure (not (is_empty c.method) && leb (length c.method) 64) method_length
    ensure (not (contains_nul c.method)) method_nul
    validate_json c.params 0
    bytes ← context (serde.to_vec (command_value c)) serialization
    ensure (leb (length bytes) max_payload) request_too_long
    ok bytes

-- `value.get(key)`: the member of an object, and nothing of any other value.
unfoldable pub get_field : {N : Type 0} → Bytes → Fields N → Option (Value N)
get_field key end = none
get_field key (field k value fields) = if eq_bytes k key then some value else get_field key fields

abbrev pub get : {N : Type 0} → Value N → Bytes → Option (Value N)
get (object fields) key = get_field key fields
get null key = none
get (boolean b) key = none
get (number n) key = none
get (string text) key = none
get (array values) key = none
