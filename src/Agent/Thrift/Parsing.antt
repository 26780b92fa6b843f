-- ===== src/Agent/Thrift/Parsing.antt =====
-- The parser of osquery's answers does not look ahead, if the reads of the protocol do not.
use aigis_zero.Agent.Thrift.{
  Bytes, Reader, ◌>>=◌, pure, Field, OsqueryRow, Protocol, QueryResponse, QueryStatus, TType,
  is_exception, is_id, is_stop, is_struct, fields_from, read_struct, status_field, read_entry,
  read_row, read_rows, response_field, result_field, no_response, read_response, rounds,
}
use aigis_zero.Agent.Thrift.Streams.{
  Follows, IsStream, with_rest-Follows, >>=-Shrinks, if-Shrinks, pure-Shrinks, Shrinks,
  pure-IsStream, fail-IsStream, >>=-IsStream, if-IsStream, times-IsStream,
}
use aigis_zero.Prelude.{
  ℕ, zero, suc, ◌<◌, String, Bool, true, List, ◌++◌, [], ok, err, ◌≡◌, refl, inl, inr, arith,
  length, length-append, Bool-cases,
}

module _ (wants_more : String → Bool) where
  -- The reads of a protocol: none looks ahead, that of a field takes a byte at least, and a message
  -- does not begin without bytes.
  pub record IsStreaming (p : Protocol) : Type 0 where
    pub message_begin : IsStream wants_more p.read_message_begin
    pub message_end : IsStream wants_more p.read_message_end
    pub application_error : IsStream wants_more p.read_application_error
    pub struct_begin : IsStream wants_more p.read_struct_begin
    pub struct_end : IsStream wants_more p.read_struct_end
    pub field_begin : IsStream wants_more p.read_field_begin
    pub field_end : IsStream wants_more p.read_field_end
    pub list_begin : IsStream wants_more p.read_list_begin
    pub list_end : IsStream wants_more p.read_list_end
    pub map_begin : IsStream wants_more p.read_map_begin
    pub map_end : IsStream wants_more p.read_map_end
    pub i32 : IsStream wants_more p.read_i32
    pub string : IsStream wants_more p.read_string
    pub skipped : (t : TType) → IsStream wants_more (p.skip t)
    pub field_takes :
        (bytes : Bytes) (f : Field) (rest : Bytes)
        → p.read_field_begin bytes ≡ ok (f, rest)
        → length rest < length bytes
    pub no_message : (e : String) × (p.read_message_begin [] ≡ err e) × (wants_more e ≡ true)

  module _ {p : Protocol} (laws : IsStreaming p) where
    open p use {read_field_begin, read_field_end}

    -- The loop over the fields, on any fuel above the bytes.
    fields_from-Follows :
        {S : Type 0} {body : Field → S → Reader S}
        → ((f : Field) (s : S) → IsStream wants_more (body f s))
        → (m n : ℕ) (s : S) (bytes more : Bytes) → length bytes < m
        → length (bytes ++ more) < n
        → Follows wants_more more
            (fields_from p body m s bytes)
            (fields_from p body n s (bytes ++ more))
    unfolding fields_from
    fields_from-Follows bodies zero n s bytes more lt lt' = absurd (omega arith)
    fields_from-Follows bodies (suc m) zero s bytes more lt lt' = absurd (omega arith)
    fields_from-Follows {body} bodies (suc m) (suc n) s bytes more lt lt' =
        with_rest-Follows wants_more more _ _ (read_field_begin bytes)
          (read_field_begin (bytes ++ more)) (laws.field_begin.follows bytes more)
          (λ f rest e. elim (Bool-cases (is_stop f.field_type)) [
            | inl stops ↦ rw stops refl
            | inr goes ↦ rw goes (
                with_rest-Follows wants_more more _ _ (body f s rest) (body f s (rest ++ more))
                  ((bodies f s).follows rest more)
                  (λ s' rest' e'.
                    with_rest-Follows wants_more more _ _ (read_field_end rest')
                      (read_field_end (rest' ++ more)) (laws.field_end.follows rest' more)
                      (λ u rest'' e''.
                        let taken = laws.field_takes bytes f rest e in
                        let shrunk = (bodies f s).shrinks rest s' rest' e' in
                        let ended = laws.field_end.shrinks rest' u rest'' e'' in
                        fields_from-Follows bodies m n s' rest'' more (omega arith)
                          (omega (arith, length-append rest'' more, length-append bytes more)))))
          ])

    fields_from-Shrinks :
        {S : Type 0} {body : Field → S → Reader S}
        → ((f : Field) (s : S) → IsStream wants_more (body f s))
        → (m : ℕ) (s : S) → Shrinks (fields_from p body m s)
    unfolding fields_from
    fields_from-Shrinks bodies zero s = λ bytes t rest h. cc
    fields_from-Shrinks bodies (suc m) s = >>=-Shrinks laws.field_begin.shrinks λ f.
        if-Shrinks (is_stop f.field_type) (pure-Shrinks s) (
          >>=-Shrinks (bodies f s).shrinks
            λ s'. >>=-Shrinks laws.field_end.shrinks λ u. fields_from-Shrinks bodies m s')

    read_struct-IsStream :
        {S : Type 0} {body : Field → S → Reader S}
        → ((f : Field) (s : S) → IsStream wants_more (body f s))
        → (s : S) → IsStream wants_more (read_struct p body s)
    read_struct-IsStream {S} {body} bodies s =
        let fields : Reader S = λ bytes. fields_from p body (suc (length bytes)) s bytes in
        let streams : IsStream wants_more fields = record {
          follows = λ bytes more.
              fields_from-Follows bodies (suc (length bytes)) (suc (length (bytes ++ more))) s bytes
                more (omega arith) (omega arith);
          shrinks = λ bytes. fields_from-Shrinks bodies (suc (length bytes)) s bytes;
        } in
        >>=-IsStream wants_more laws.struct_begin λ u.
          >>=-IsStream wants_more streams
            λ s'. >>=-IsStream wants_more laws.struct_end λ u'. pure-IsStream wants_more s'

    -- A field that is skipped, and one whose read gives a part of the result.
    skip-IsStream :
        {A : Type 0} (t : TType) (a : A) → IsStream wants_more (p.skip t >>= λ u. pure a)
    skip-IsStream t a = >>=-IsStream wants_more (laws.skipped t) λ u. pure-IsStream wants_more a

    part-IsStream :
        {A B : Type 0} {r : Reader A}
        → IsStream wants_more r
        → (f : A → B) → IsStream wants_more (r >>= λ a. pure (f a))
    part-IsStream streams f = >>=-IsStream wants_more streams λ a. pure-IsStream wants_more (f a)

    status_field-IsStream :
        (f : Field) (status : QueryStatus) → IsStream wants_more (status_field p f status)
    unfolding status_field
    status_field-IsStream f status =
        if-IsStream wants_more (is_id 1 f.id) (part-IsStream laws.i32 _) (
          if-IsStream wants_more (is_id 2 f.id) (part-IsStream laws.string _)
            (skip-IsStream f.field_type status))

    read_entry-IsStream : (row : OsqueryRow) → IsStream wants_more (read_entry p row)
    unfolding read_entry
    read_entry-IsStream row = >>=-IsStream wants_more laws.string λ k. part-IsStream laws.string _

    read_row-IsStream : (rows : List OsqueryRow) → IsStream wants_more (read_row p rows)
    unfolding read_row
    read_row-IsStream rows = >>=-IsStream wants_more laws.map_begin λ size.
        >>=-IsStream wants_more (times-IsStream wants_more read_entry-IsStream (rounds size) [])
          λ row. part-IsStream laws.map_end _

    read_rows-IsStream : (rows : List OsqueryRow) → IsStream wants_more (read_rows p rows)
    unfolding read_rows
    read_rows-IsStream rows = >>=-IsStream wants_more laws.list_begin λ size.
        >>=-IsStream wants_more (times-IsStream wants_more read_row-IsStream (rounds size) rows)
          λ rows'. part-IsStream laws.list_end _

    response_field-IsStream :
        (f : Field) (r : QueryResponse) → IsStream wants_more (response_field p f r)
    unfolding response_field
    response_field-IsStream f r =
        if-IsStream wants_more (is_id 1 f.id)
          (part-IsStream (read_struct-IsStream status_field-IsStream r.status) _)
          (if-IsStream wants_more (is_id 2 f.id) (part-IsStream (read_rows-IsStream r.rows) _)
            (skip-IsStream f.field_type r))

    result_field-IsStream :
        (f : Field) (r : QueryResponse) → IsStream wants_more (result_field p f r)
    unfolding result_field
    result_field-IsStream f r =
        if-IsStream wants_more (is_id 0 f.id)
          (if-IsStream wants_more (is_struct f.field_type)
            (read_struct-IsStream response_field-IsStream r) (skip-IsStream f.field_type r))
          (skip-IsStream f.field_type r)

    pub read_response-IsStream : IsStream wants_more (read_response p)
    unfolding read_response
    read_response-IsStream = >>=-IsStream wants_more laws.message_begin λ kind.
        if-IsStream wants_more (is_exception kind)
          (>>=-IsStream wants_more laws.application_error λ u. fail-IsStream wants_more _)
          (>>=-IsStream wants_more (read_struct-IsStream result_field-IsStream no_response)
            λ r. part-IsStream laws.message_end _)
