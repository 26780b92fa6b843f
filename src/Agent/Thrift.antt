-- ===== src/Agent/Thrift.antt =====
-- The answer of osquery: parse_query_response of agent/crates/osquery-client/src/client.rs. The
-- binary protocol is the thrift crate's, an argument: each of its reads takes bytes from a buffer.
pub mod Streams
pub mod Parsing
pub mod Client
pub mod Chunks
mod Tests
use aigis_zero.Prelude.{
  ℕ, zero, suc, ◌+◌, ℤ, pos, negsuc, String, Bool, true, false, List, [], ◌∷◌, ◌++◌, Option, none,
  some, Result, ok, err, length, str_eq, if◌then◌else◌, ◌==◌,
}

abbrev pub Bytes : Type 0
Bytes = List ℕ

-- A read from a buffer: an error, or what was read with the rest of the buffer.
abbrev pub Reader : Type 0 → Type 0
Reader A = Bytes → Result String (A × Bytes)

abbrev pub with_rest :
    {A B : Type 0} → Result String (A × Bytes) → (A → Reader B) → Result String (B × Bytes)
with_rest (ok (a, rest)) f = f a rest
with_rest (err e) f = err e

infixl 5 ◌>>=◌ ◌>>◌
abbrev pub ◌>>=◌ : {A B : Type 0} → Reader A → (A → Reader B) → Reader B
◌>>=◌ m f bytes = with_rest (m bytes) f

abbrev pub ◌>>◌ : {B : Type 0} → Reader (Unit {0}) → Reader B → Reader B
m >> k = m >>= λ u. k

abbrev pub pure : {A : Type 0} → A → Reader A
pure a bytes = ok (a, bytes)

abbrev pub fail : {A : Type 0} → String → Reader A
fail e bytes = err e

pub data TMessageType : Type 0 where
  call reply exception one_way : TMessageType

-- The types of fields: those that the code names, and the others by their code.
pub data TType : Type 0 where
  stop struct : TType
  other : ℕ → TType

-- `TFieldIdentifier`
pub record Field : Type 0 where
  pub field_type : TType
  pub id : Option ℤ

-- The reads of `TBinaryInputProtocol` that the code uses.
pub record Protocol : Type 0 where
  pub read_message_begin : Reader TMessageType
  pub read_message_end : Reader (Unit {0})
  pub read_application_error : Reader (Unit {0})
  pub read_struct_begin : Reader (Unit {0})
  pub read_struct_end : Reader (Unit {0})
  pub read_field_begin : Reader Field
  pub read_field_end : Reader (Unit {0})
  pub read_list_begin : Reader ℤ
  pub read_list_end : Reader (Unit {0})
  pub read_map_begin : Reader ℤ
  pub read_map_end : Reader (Unit {0})
  pub read_i32 : Reader ℤ
  pub read_string : Reader String
  pub skip : TType → Reader (Unit {0})

pub record QueryStatus : Type 0 where
  pub code : ℤ
  pub message : String

-- A `HashMap<String, String>` by its entries.
abbrev pub OsqueryRow : Type 0
OsqueryRow = List (String × String)

pub record QueryResponse : Type 0 where
  pub status : QueryStatus
  pub rows : List OsqueryRow

-- The variables before the first read.
abbrev pub no_response : QueryResponse
no_response = record { status = record { code = negsuc 0; message = "" }; rows = [] }

-- `HashMap::insert`
abbrev pub insert : String → String → OsqueryRow → OsqueryRow
insert k v [] = (k, v) ∷ []
insert k v ((j, w) ∷ row) = if str_eq j k then (k, v) ∷ row else (j, w) ∷ insert k v row

abbrev pub is_stop : TType → Bool
is_stop stop = true
is_stop struct = false
is_stop (other n) = false

abbrev pub is_struct : TType → Bool
is_struct stop = false
is_struct struct = true
is_struct (other n) = false

abbrev pub is_exception : TMessageType → Bool
is_exception exception = true
is_exception call = false
is_exception reply = false
is_exception one_way = false

-- `Some(n)` as a pattern for the number of a field.
abbrev pub is_id : ℕ → Option ℤ → Bool
is_id n none = false
is_id n (some (pos m)) = m == n
is_id n (some (negsuc m)) = false

-- How often `for _ in 0..size` goes round.
abbrev pub rounds : ℤ → ℕ
rounds (pos n) = n
rounds (negsuc n) = 0

-- `for _ in 0..n`, on a variable that each round changes.
unfoldable pub times : {S : Type 0} → (S → Reader S) → ℕ → S → Reader S
times step zero s = pure s
times step (suc n) s = let rest = times step n in step s >>= rest

-- What was read, without what is left.
abbrev pub response_of : Result String (QueryResponse × Bytes) → Result String QueryResponse
response_of (ok (r, rest)) = ok r
response_of (err e) = err e

module _ (p : Protocol) where
  open p use {
    read_message_begin, read_message_end, read_application_error, read_struct_begin,
    read_struct_end, read_field_begin, read_field_end, read_list_begin, read_list_end,
    read_map_begin, read_map_end, read_i32, read_string, skip,
  }

  -- The loop over the fields of a struct, up to the one that stops it. A field takes a byte at least.
  unfoldable pub fields_from : {S : Type 0} → (Field → S → Reader S) → ℕ → S → Reader S
  fields_from body zero s = fail "unreachable"
  fields_from body (suc fuel) s =
      let rest = fields_from body fuel in
      do
        f ← read_field_begin
        if is_stop f.field_type then pure s else (do s' ← body f s; read_field_end; rest s')

  -- A struct: its begin, its fields, and its end.
  abbrev pub read_struct : {S : Type 0} → (Field → S → Reader S) → S → Reader S
  read_struct body s = do
    read_struct_begin
    s' ← λ bytes. fields_from body (suc (length bytes)) s bytes
    read_struct_end
    pure s'

  -- ExtensionStatus
  unfoldable pub status_field : Field → QueryStatus → Reader QueryStatus
  status_field f status =
      if is_id 1 f.id
      then read_i32 >>= (λ code. pure (record status { code = code }))
      else if is_id 2 f.id
      then read_string >>= (λ message. pure (record status { message = message }))
      else skip f.field_type >> pure status

  unfoldable pub read_entry : OsqueryRow → Reader OsqueryRow
  read_entry row = do k ← read_string; v ← read_string; pure (insert k v row)

  unfoldable pub read_row : List OsqueryRow → Reader (List OsqueryRow)
  read_row rows = do
    size ← read_map_begin
    row ← times read_entry (rounds size) []
    read_map_end
    pure (rows ++ row ∷ [])

  unfoldable pub read_rows : List OsqueryRow → Reader (List OsqueryRow)
  read_rows rows = do
    size ← read_list_begin
    rows' ← times read_row (rounds size) rows
    read_list_end
    pure rows'

  -- ExtensionResponse
  unfoldable pub response_field : Field → QueryResponse → Reader QueryResponse
  response_field f r =
      if is_id 1 f.id
      then read_struct status_field r.status >>= (λ status. pure (record r { status = status }))
      else if is_id 2 f.id
      then read_rows r.rows >>= (λ rows. pure (record r { rows = rows }))
      else skip f.field_type >> pure r

  unfoldable pub result_field : Field → QueryResponse → Reader QueryResponse
  result_field f r =
      if is_id 0 f.id
      then (if is_struct f.field_type
          then read_struct response_field r
          else skip f.field_type >> pure r)
      else skip f.field_type >> pure r

  abbrev pub read_reply : Reader QueryResponse
  read_reply = do r ← read_struct result_field no_response; read_message_end; pure r

  unfoldable pub read_response : Reader QueryResponse
  read_response = do
    kind ← read_message_begin
    if is_exception kind
        then read_application_error >> fail "Thrift exception returned"
        else read_reply

  -- `parse_query_response`
  unfoldable pub parse_query_response : Bytes → Result String QueryResponse
  unfolding read_response
  parse_query_response bytes = response_of (read_response bytes)
