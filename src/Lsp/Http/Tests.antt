-- ===== src/Lsp/Http/Tests.antt =====
-- Runs of the message reader, and its theorems at concrete streams.
use no.Prelude.{
  ℕ, Bool, ltb, Bytes, ◌++◌, ◌∷◌, [], ◌≡◌, ◌≢◌, refl, codes, length, arith, some, none, false, pos,
  decimal,
}
use no.Prelude.Dict.{bytes_key, lookup, insert}
use no.Prelude.Decimal.{leading_digits}
use no.Lsp.Http.{
  Stream, HttpMessage, parsed, raised, out_of_fuel, parse_http_message, parse_headers,
  parse_http_header, getline, split_line, drop_return, header_line, split_colon,
  http_header_strip_whitespace, erase_front, erase_back, read_content, read, from_chars, frame,
  content_length, content_type, default_content_type,
}
use no.Lsp.Http.Framing.{parse_http_message-frame}
use no.Lsp.Http.Headers.{stated_length, parse_http_message_content, parse_http_message_terminates}

-- Memory for strings of less than a thousand bytes.
abbrev small_lengths : ℕ → Bool
small_lengths n = ltb n 1000

abbrev stream : Bytes → Stream
stream unread = record { unread = unread; eofbit = false; failbit = false }

parse_http_message-frame_example :
    parse_http_message small_lengths (stream (frame (codes "{}") ++ codes "Content")) ≡ (
      parsed (record {
        headers = (content_length, decimal 2) ∷ (content_type, default_content_type) ∷ [];
        content = codes "{}";
      }),
      stream (codes "Content"),
    )
parse_http_message-frame_example =
    parse_http_message-frame small_lengths (codes "{}") (codes "Content") (ground arith)

abbrev wire : Bytes
wire = codes "Content-Length:  2 \r\nContent-Type: t\r\n\r\n{}"

abbrev message : HttpMessage
message = record {
  headers = (content_length, codes "2") ∷ (content_type, codes "t") ∷ [];
  content = codes "{}";
}

wire_parsed : (parse_http_message small_lengths (stream wire)).0 ≡ parsed message
unfolding parse_http_message parse_headers parse_http_header getline split_line drop_return
    header_line split_colon http_header_strip_whitespace erase_front erase_back read_content read
    from_chars leading_digits lookup insert
wire_parsed = refl

parse_http_message_content_example :
    (stated_length message.headers ≡ some (pos (length message.content)))
    × (lookup content_type message.headers ≢ none)
parse_http_message_content_example =
    parse_http_message_content small_lengths (stream wire) message wire_parsed

parse_http_message_terminates_example :
    (parse_http_message small_lengths (stream wire)).0 ≢ out_of_fuel
parse_http_message_terminates_example = parse_http_message_terminates small_lengths (stream wire)

-- A negative size ends the program.
negative_length :
    (parse_http_message small_lengths (stream (codes "Content-Length: -1\r\n\r\n"))).0 ≡ raised
unfolding parse_http_message parse_headers parse_http_header getline split_line drop_return
    header_line split_colon http_header_strip_whitespace erase_front erase_back read_content read
    from_chars leading_digits lookup insert
negative_length = refl

-- So does one that memory does not hold.
large_length :
    (parse_http_message small_lengths (stream (codes "Content-Length: 5000\r\n\r\n"))).0 ≡ raised
unfolding parse_http_message parse_headers parse_http_header getline split_line drop_return
    header_line split_colon http_header_strip_whitespace erase_front erase_back read_content read
    from_chars leading_digits lookup insert
large_length = refl

-- What stands behind the digits is not looked at.
trailing_text : from_chars (codes "12abc") ≡ some (pos 12)
unfolding from_chars leading_digits
trailing_text = refl
