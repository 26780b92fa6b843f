-- ===== src/Agent/Thrift/Client.antt =====
-- The client of osquery's socket: agent/crates/osquery-client/src/client.rs. What the socket does is an
-- argument, and so is the writing half of the binary protocol.
use aigis_zero.Agent.Osquery.{Answer, failed, response}
use aigis_zero.Agent.Thrift.{
  Bytes, OsqueryRow, Protocol, QueryResponse, TMessageType, call, parse_query_response,
}
use aigis_zero.Prelude.{
  ℕ, ℤ, pos, String, Bool, ◌||◌, List, [], ◌∷◌, ◌++◌, Result, ok, err, ◌>>=◌, if◌then◌else◌,
  contains,
}

-- The calls of `TBinaryOutputProtocol` that a request is written by.
pub data Write : Type 0 where
  write_message_begin : String → TMessageType → ℤ → Write
  write_struct_begin : String → Write
  write_string_field_begin : String → ℤ → Write
  write_string : String → Write
  write_field_end write_field_stop write_struct_end write_message_end flush : Write

-- The request of `query`.
abbrev pub request : String → List Write
request sql =
    write_message_begin "query" call (pos 1)
    ∷ write_struct_begin "query_args"
    ∷ write_string_field_begin "sql" (pos 1)
    ∷ write_string sql
    ∷ write_field_end
    ∷ write_field_stop
    ∷ write_struct_end
    ∷ write_message_end
    ∷ flush
    ∷ []

-- What the socket does: how the connection and the writing go, and what each read gives. Where the
-- list of reads ends, the other side has closed.
pub record Socket : Type 0 where
  pub connected : Result String (Unit {0})
  pub written : Result String (Unit {0})
  pub reads : List (Result String Bytes)

-- The errors after which the client reads on.
unfoldable pub is_eof : String → Bool
is_eof e =
    contains "UnexpectedEof" e
    || contains "end of file" e
    || contains "EOF" e
    || contains "unexpected end of file" e

abbrev pub closed_error : String
closed_error = "Connection closed by remote before complete response received"

abbrev pub parsed_or :
    Result String QueryResponse → Result String QueryResponse → Result String QueryResponse
parsed_or (ok r) rest = ok r
parsed_or (err e) rest = if is_eof e then rest else err e

module _ (p : Protocol) where
  -- The loop over the reads, with what has been read so far. No bytes mean the end.
  unfoldable pub read_loop : List (Result String Bytes) → Bytes → Result String QueryResponse
  read_loop [] buf = err closed_error
  read_loop (err e ∷ reads) buf = err e
  read_loop (ok [] ∷ reads) buf = err closed_error
  read_loop (ok (b ∷ chunk) ∷ reads) buf =
      let rest = read_loop reads (buf ++ b ∷ chunk) in
      parsed_or (parse_query_response p (buf ++ b ∷ chunk)) rest

  module _ (encode : ℕ → List Write → Result String Bytes) where
    -- `OsqueryClient::query`, over a request buffer of 1024 bytes.
    unfoldable pub query : String → Socket → Result String QueryResponse
    query sql socket = do
      request_bytes ← encode 1024 (request sql)
      c ← socket.connected
      w ← socket.written
      read_loop socket.reads []

    -- `live_query`
    abbrev pub live_query : String → Socket → Result String QueryResponse
    live_query = query

-- What the task of a query makes of the answer.
abbrev pub answer_of : Result String QueryResponse → Answer OsqueryRow
answer_of (err e) = failed
answer_of (ok r) = response r.status.code r.rows
