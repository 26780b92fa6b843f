-- ===== src/Agent/Thrift/Chunks.antt =====
-- The answer of osquery does not depend on the pieces in which the socket hands it over.
use aigis_zero.Agent.Thrift.{
  Bytes, Protocol, QueryResponse, parse_query_response, read_response, response_of,
}
use aigis_zero.Agent.Thrift.Client.{
  Write, request, is_eof, closed_error, parsed_or, read_loop, query,
}
use aigis_zero.Agent.Thrift.Parsing.{IsStreaming, read_response-IsStream}
use aigis_zero.Agent.Thrift.Streams.{Follows}
use aigis_zero.Prelude.{
  ℕ, ◌<◌, String, List, [], ◌∷◌, ◌++◌, Result, ok, err, ◌≡◌, refl, ap, sym, ◌∙◌, inl, inr, arith,
  length, concat, append-nil, append_assoc, All,
}

-- How the reads end: the other side closes, or a read fails.
pub data Ending : Type 0 where
  closed : Ending
  broken : String → Ending

abbrev pub ending_error : Ending → String
ending_error closed = closed_error
ending_error (broken e) = e

abbrev pub last_read : Ending → Result String Bytes
last_read closed = ok []
last_read (broken e) = err e

-- The reads of these chunks, and what comes after them.
abbrev pub reads_of : List Bytes → Ending → List (Result String Bytes)
reads_of [] e = last_read e ∷ []
reads_of (c ∷ chunks) e = ok c ∷ reads_of chunks e

-- What the parser says of all bytes, where a text that breaks off is the error of the ending.
abbrev pub whole : Ending → Result String QueryResponse → Result String QueryResponse
whole ending r = parsed_or r (err (ending_error ending))

abbrev pub IsChunk : Bytes → Type 0
IsChunk c = 0 < length c

-- More bytes change nothing where the parser was content, or refused.
settled :
    (more : Bytes) (x y : Result String (QueryResponse × Bytes)) (r : Result String QueryResponse)
    → Follows is_eof more x y
    → parsed_or (response_of x) (parsed_or (response_of y) r) ≡ parsed_or (response_of y) r
settled more (ok (a, rest)) y r h = rw h refl
settled more (err e) y r (inl eof) = rw eof refl
settled more (err e) y r (inr h) = rw h (ground arith)

module _ {p : Protocol} (laws : IsStreaming is_eof p) where
  read_loop-parse :
      (chunks : List Bytes) (e : Ending) (buf : Bytes)
      → All IsChunk chunks
      → parsed_or (parse_query_response p buf) (read_loop p (reads_of chunks e) buf)
        ≡ whole e (parse_query_response p (buf ++ concat chunks))
  unfolding read_loop parse_query_response
  read_loop-parse [] closed buf full = rw append-nil refl
  read_loop-parse [] (broken e) buf full = rw append-nil refl
  read_loop-parse ([] ∷ chunks) e buf full = absurd (omega arith)
  read_loop-parse ((b ∷ c) ∷ chunks) e buf full =
      let more = (b ∷ c) ++ concat chunks in
      let rest = read_loop-parse chunks e (buf ++ b ∷ c) full.1 in
      let joined = rw append_assoc at rest in
      ap (parsed_or (parse_query_response p buf)) joined
      ∙ settled more (read_response p buf) (read_response p (buf ++ more)) (err (ending_error e))
          ((read_response-IsStream is_eof laws).follows buf more)

  -- The first bytes are awaited.
  parse_nothing : (r : Result String QueryResponse) → parsed_or (parse_query_response p []) r ≡ r
  unfolding parse_query_response read_response
  parse_nothing r = let (e, nothing, eof) = laws.no_message in rw nothing (rw eof refl)

  -- A query over a socket that takes the request: however the answer's bytes come in chunks, the
  -- client gives what the parser makes of all of them together, its result or its refusal; and
  -- where they break off, the error of what ended the reads.
  pub query-parse :
      (encode : ℕ → List Write → Result String Bytes) (sql : String) (sent : Bytes)
      (chunks : List Bytes) (e : Ending)
      → encode 1024 (request sql) ≡ ok sent
      → All IsChunk chunks
      → query p encode sql
          (record { connected = ok tt; written = ok tt; reads = reads_of chunks e })
        ≡ whole e (parse_query_response p (concat chunks))
  unfolding query
  query-parse encode sql sent chunks e encoded full =
      rw encoded (sym (parse_nothing _) ∙ read_loop-parse chunks e [] full)
