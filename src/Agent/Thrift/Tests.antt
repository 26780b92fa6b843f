-- ===== src/Agent/Thrift/Tests.antt =====
-- A protocol of one byte a read, and answers in it.
use aigis_zero.Agent.Osquery.{response}
use aigis_zero.Agent.Thrift.{
  Bytes, Reader, pure, Field, Protocol, TMessageType, call, reply, exception, one_way, TType, stop,
  struct, other, times, fields_from, status_field, read_entry, read_row, read_rows, response_field,
  result_field, read_response, parse_query_response,
}
use aigis_zero.Agent.Thrift.Chunks.{closed, broken, reads_of, whole, query-parse}
use aigis_zero.Agent.Thrift.Client.{Socket, Write, is_eof, read_loop, query, answer_of}
use aigis_zero.Agent.Thrift.Parsing.{IsStreaming}
use aigis_zero.Agent.Thrift.Streams.{Follows, IsStream, pure-IsStream}
use aigis_zero.Prelude.{
  ℕ, zero, suc, ◌/◌, ◌%◌, ◌<◌, pos, String, List, [], ◌∷◌, ◌++◌, some, Result, ok, err, ◌≡◌, refl,
  inl, arith, length, contains, strip_prefix, to_string, decimal_from,
}
use native.Mathlib.Decide.{ℕ_discrete}

-- A read of one byte.
abbrev byte : {A : Type 0} → (ℕ → A) → Reader A
byte f [] = err "end of file"
byte f (b ∷ bytes) = ok (f b, bytes)

abbrev kind_of : ℕ → TMessageType
kind_of zero = call
kind_of (suc zero) = reply
kind_of (suc (suc zero)) = exception
kind_of n = one_way

abbrev type_of : ℕ → TType
type_of zero = stop
type_of (suc zero) = struct
type_of n = other n

-- A field is its type and its number in one byte.
abbrev field_of : ℕ → Field
field_of b = record { field_type = type_of (b / 16); id = some (pos (b % 16)) }

abbrev narrow : Protocol
narrow = record {
  read_message_begin = byte kind_of;
  read_message_end = pure tt;
  read_application_error = pure tt;
  read_struct_begin = pure tt;
  read_struct_end = pure tt;
  read_field_begin = byte field_of;
  read_field_end = pure tt;
  read_list_begin = byte pos;
  read_list_end = pure tt;
  read_map_begin = byte pos;
  read_map_end = pure tt;
  read_i32 = byte pos;
  read_string = byte to_string;
  skip = λ t. byte (λ b. tt);
}

byte_takes :
    {A : Type 0} (f : ℕ → A) (bytes : Bytes) (a : A) (rest : Bytes)
    → byte f bytes ≡ ok (a, rest)
    → length rest < length bytes
byte_takes f [] a rest h = cc
byte_takes f (b ∷ bytes) a rest h = ground arith

byte-Follows :
    {A : Type 0} (f : ℕ → A) (bytes more : Bytes)
    → Follows is_eof more (byte f bytes) (byte f (bytes ++ more))
unfolding is_eof contains strip_prefix ℕ_discrete
byte-Follows f [] more = inl refl
byte-Follows f (b ∷ bytes) more = refl

byte-IsStream : {A : Type 0} (f : ℕ → A) → IsStream is_eof (byte f)
byte-IsStream f = record {
  follows = byte-Follows f;
  shrinks = λ bytes a rest h. omega (arith, byte_takes f bytes a rest h);
}

narrow-IsStreaming : IsStreaming is_eof narrow
unfolding is_eof contains strip_prefix ℕ_discrete
narrow-IsStreaming = record {
  message_begin = byte-IsStream kind_of;
  message_end = pure-IsStream is_eof tt;
  application_error = pure-IsStream is_eof tt;
  struct_begin = pure-IsStream is_eof tt;
  struct_end = pure-IsStream is_eof tt;
  field_begin = byte-IsStream field_of;
  field_end = pure-IsStream is_eof tt;
  list_begin = byte-IsStream pos;
  list_end = pure-IsStream is_eof tt;
  map_begin = byte-IsStream pos;
  map_end = pure-IsStream is_eof tt;
  i32 = byte-IsStream pos;
  string = byte-IsStream to_string;
  skipped = λ t. byte-IsStream (λ b. tt);
  field_takes = byte_takes field_of;
  no_message = ("end of file", refl, refl);
}

program : Unit {0}
unfolding query read_loop is_eof contains strip_prefix ℕ_discrete parse_query_response read_response
    result_field response_field status_field read_rows read_row read_entry times fields_from
    to_string decimal_from
program = tt

-- A reply whose response has the status 0 "7", and one row that maps "1" to "2".
abbrev first_part : Bytes
first_part = 1 ∷ 16 ∷ 17 ∷ 33 ∷ 0 ∷ 34 ∷ 7 ∷ []

abbrev second_part : Bytes
second_part = 0 ∷ 34 ∷ 1 ∷ 1 ∷ 1 ∷ 2 ∷ 0 ∷ 0 ∷ []

abbrev encode : ℕ → List Write → Result String Bytes
encode capacity writes = ok (1 ∷ [])

abbrev two_reads : Socket
two_reads = record {
  connected = ok tt;
  written = ok tt;
  reads = reads_of (first_part ∷ second_part ∷ []) closed;
}

answered :
    answer_of (query narrow encode "select 1" two_reads) ≡ response (pos 0) ((("1", "2") ∷ []) ∷ [])
unfolding program
answered = refl

broken_off :
    query narrow encode "select 1" (record {
      connected = ok tt;
      written = ok tt;
      reads = reads_of (first_part ∷ []) (broken "reset");
    })
    ≡ err "reset"
unfolding program
broken_off = refl

-- An exception is refused as soon as it is read.
refused :
    query narrow encode "select 1"
      (record { connected = ok tt; written = ok tt; reads = reads_of ((2 ∷ []) ∷ []) closed })
    ≡ err "Thrift exception returned"
unfolding program
refused = refl

query-parse_example :
    query narrow encode "select 1" two_reads
    ≡ whole closed (parse_query_response narrow (first_part ++ second_part))
query-parse_example =
    query-parse narrow-IsStreaming encode "select 1" (1 ∷ []) (first_part ∷ second_part ∷ []) closed
      refl (omega arith)
