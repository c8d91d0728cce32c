-- ===== src/Lsp/Http/Framing.antt =====
-- A message that the server wrote is a message that it reads.
use no.Prelude.{
  Bool, ℕ, suc, ◌^◌, ◌<◌, ◌≡◌, refl, ap, ◌∙◌, sym, false, true, [], ◌∷◌, ◌++◌, Bytes, codes, arith,
  leb, length, length-append, append_assoc, decimal, IsDigit, decimal_nonempty, decimal-IsDigit,
  All, take, drop, ◌==◌, eq→==, List,
}
use no.Prelude.Dict.{bytes_key, lookup, insert}
use no.Lsp.Http.{
  Stream, split_line, drop_return, erase_front, erase_back, http_header_strip_whitespace, header,
  header_line, end_of_headers, parse_http_header, getline, split_colon, parse_headers, read_content,
  read, parse_http_message, frame, parsed, content_length, Headers, content_type,
  default_content_type,
}
use no.Lsp.Http.Decimal.{from_chars-decimal}

-- No line feed.
abbrev IsInLine : ℕ → Type 0
IsInLine c = (c == b'\n') ≡ false

split_line-append :
    (line rest : Bytes) → All IsInLine line → split_line (line ++ b'\n' ∷ rest) ≡ (line, rest, true)
unfolding split_line
split_line-append [] rest h = refl
split_line-append (c ∷ line) rest h = rw (split_line-append line rest h.1, h.0) refl

drop_return-append : (line : Bytes) → drop_return (line ++ b'\r' ∷ []) ≡ line
unfolding drop_return
drop_return-append [] = refl
drop_return-append (c ∷ []) = refl
drop_return-append (c ∷ d ∷ line) = ap (λ l. c ∷ l) (drop_return-append (d ∷ line))

IsDigit-IsInLine : (ds : Bytes) → All IsDigit ds → All IsInLine (ds ++ b'\r' ∷ [])
IsDigit-IsInLine [] h = (refl, tt)
IsDigit-IsInLine (d ∷ ds) h = (ground arith, IsDigit-IsInLine ds h.1)

erase_back-digits : (ds : Bytes) → All IsDigit ds → erase_back ds ≡ ds
unfolding erase_back
erase_back-digits [] h = refl
erase_back-digits (d ∷ ds) h = ground (arith, erase_back-digits ds h.1)

-- A size behind one space.
strip-digits :
    (ds : Bytes) → All IsDigit ds → 0 < length ds → http_header_strip_whitespace (b' ' ∷ ds) ≡ ds
unfolding http_header_strip_whitespace erase_front
strip-digits [] h some_digit = absurd (omega arith)
strip-digits (d ∷ ds) h some_digit = ground (arith, erase_back-digits (d ∷ ds) h)

-- One line that ends in a carriage return and a line feed.
parse_http_header_lem :
    (line rest : Bytes)
    → All IsInLine (line ++ b'\r' ∷ [])
    → parse_http_header
        (record { unread = (line ++ b'\r' ∷ []) ++ b'\n' ∷ rest; eofbit = false; failbit = false })
      ≡ (header_line line, record { unread = rest; eofbit = false; failbit = false })
unfolding parse_http_header getline
parse_http_header_lem line rest h =
    rw (split_line-append (line ++ b'\r' ∷ []) rest h, drop_return-append line) refl

take-append : (xs ys : Bytes) → take (length xs) (xs ++ ys) ≡ xs
take-append [] ys = refl
take-append (x ∷ xs) ys = ap (λ l. x ∷ l) (take-append xs ys)

drop-append : (xs ys : Bytes) → drop (length xs) (xs ++ ys) ≡ ys
drop-append [] ys = refl
drop-append (x ∷ xs) ys = drop-append xs ys

read-append :
    (xs ys : Bytes)
    → read (length xs) (record { unread = xs ++ ys; eofbit = false; failbit = false })
      ≡ (xs, record { unread = ys; eofbit = false; failbit = false })
unfolding read
read-append xs ys =
    let enough : leb (length xs) (length (xs ++ ys)) ≡ true = ground (arith, length-append xs ys) in
    rw (enough, take-append xs ys, drop-append xs ys) refl

return_append : (xs rest : Bytes) → (xs ++ b'\r' ∷ []) ++ b'\n' ∷ rest ≡ xs ++ b'\r' ∷ b'\n' ∷ rest
return_append [] rest = refl
return_append (x ∷ xs) rest = ap (λ l. x ∷ l) (return_append xs rest)

abbrev size_label : Bytes
size_label = codes "Content-Length: "

key_stripped : http_header_strip_whitespace content_length ≡ content_length
unfolding http_header_strip_whitespace erase_front erase_back
key_stripped = refl

length_line :
    (n : ℕ) (rest : Bytes)
    → parse_http_header (record {
      unread = codes "Content-Length: " ++ (decimal n ++ (b'\r' ∷ b'\n' ∷ rest));
      eofbit = false;
      failbit = false;
    })
      ≡ (
        header content_length (decimal n),
        record { unread = rest; eofbit = false; failbit = false },
      )
unfolding header_line split_colon
length_line n rest =
    let in_line = IsDigit-IsInLine (decimal n) (decimal-IsDigit n) in
    let read_line =
      parse_http_header_lem (size_label ++ decimal n) rest (ground (arith, in_line)) in
    let stripped = strip-digits (decimal n) (decimal-IsDigit n) (decimal_nonempty n) in
    let key_text : http_header_strip_whitespace content_length ≡ content_length = key_stripped in
    rw (sym (return_append (decimal n) rest)) (read_line ∙ (rw (stripped, key_text) refl))

-- The other two lines hold no variable part.
type_line :
    (rest : Bytes)
    → parse_http_header (record {
      unread = codes "Content-Type: application/vscode-jsonrpc; charset=utf-8\r\n" ++ rest;
      eofbit = false;
      failbit = false;
    })
      ≡ (
        header content_type default_content_type,
        record { unread = rest; eofbit = false; failbit = false },
      )
unfolding parse_http_header getline split_line drop_return header_line split_colon
    http_header_strip_whitespace erase_front erase_back
type_line rest = refl

blank_line :
    (rest : Bytes)
    → parse_http_header (record { unread = b'\r' ∷ b'\n' ∷ rest; eofbit = false; failbit = false })
      ≡ (end_of_headers, record { unread = rest; eofbit = false; failbit = false })
unfolding parse_http_header getline split_line drop_return header_line
blank_line rest = refl

abbrev read_headers : ℕ → List (Bytes × Bytes)
read_headers n = (content_length, decimal n) ∷ (content_type, default_content_type) ∷ []

read_content-append :
    (resizes : ℕ → Bool) (content more : Bytes)
    → length content < 2 ^ 63
    → read_content resizes
        (read_headers (length content))
        (record { unread = content ++ more; eofbit = false; failbit = false })
      ≡ (
        parsed (record { headers = read_headers (length content); content = content }),
        record { unread = more; eofbit = false; failbit = false },
      )
unfolding read_content lookup
read_content-append resizes content more small =
    rw
      (
        from_chars-decimal (length content) small,
        read-append content more,
        eq→== (length content) (length content) refl,
        read_content,
      )
      refl

module _ (fuel : ℕ) (key val : Bytes) (in_stream in_stream' : Stream) (headers : Headers) where
  parse_headers-header :
      parse_http_header in_stream ≡ (header key val, in_stream')
      → parse_headers (suc fuel) in_stream headers
        ≡ parse_headers fuel in_stream' (insert key val headers)
  unfolding parse_headers
  parse_headers-header read_line =
      rw (ap (λ p. p.0) read_line, parse_headers) (rw (ap (λ p. p.1) read_line) refl)

  parse_headers-end :
      parse_http_header in_stream ≡ (end_of_headers, in_stream')
      → parse_headers (suc fuel) in_stream headers ≡ (parsed headers, in_stream')
  unfolding parse_headers
  parse_headers-end read_line =
      rw (ap (λ p. p.0) read_line, parse_headers) (rw (ap (λ p. p.1) read_line) refl)

abbrev type_text : Bytes
type_text = codes "Content-Type: application/vscode-jsonrpc; charset=utf-8\r\n"

-- What stands behind the size.
abbrev wire_tail : Bytes → Bytes
wire_tail content =
    codes "\r\nContent-Type: application/vscode-jsonrpc; charset=utf-8\r\n\r\n" ++ content

abbrev whole : Bytes → Stream
whole unread = record { unread = unread; eofbit = false; failbit = false }

parse_http_message_lem :
    (resizes : ℕ → Bool) (in_stream in_stream' : Stream) (headers : Headers)
    → parse_headers (suc (length in_stream.unread)) in_stream [] ≡ (parsed headers, in_stream')
    → parse_http_message resizes in_stream ≡ read_content resizes headers in_stream'
unfolding parse_http_message
parse_http_message_lem resizes in_stream in_stream' headers e =
    rw (ap (λ p. p.0) e, parse_http_message) (rw (ap (λ p. p.1) e) refl)

frame_headers :
    (n : ℕ) (rest : Bytes)
    → let wire : Bytes =
        size_label ++ (decimal n ++ (b'\r' ∷ b'\n' ∷ (type_text ++ (b'\r' ∷ b'\n' ∷ rest)))) in
      parse_headers (suc (length wire)) (whole wire) [] ≡ (parsed (read_headers n), whole rest)
unfolding insert
frame_headers n rest =
    parse_headers-header _ _ _ _ _ [] (length_line n (type_text ++ (b'\r' ∷ b'\n' ∷ rest)))
    ∙ (parse_headers-header _ _ _ _ _ _ (type_line (b'\r' ∷ b'\n' ∷ rest))
        ∙ parse_headers-end _ [] [] _ _ _ (blank_line rest))

-- What `SendMessage` writes for a text of fewer than 2^63 bytes, `ParseHttpMessage` reads back: the
-- text whole, whatever it holds and whatever follows it, with both headers; the stream then stands
-- at what follows.
pub parse_http_message-frame :
    (resizes : ℕ → Bool) (content more : Bytes)
    → length content < 2 ^ 63
    → parse_http_message resizes
        (record { unread = frame content ++ more; eofbit = false; failbit = false })
      ≡ (
        parsed (record { headers = read_headers (length content); content = content }),
        record { unread = more; eofbit = false; failbit = false },
      )
unfolding frame
parse_http_message-frame resizes content more small =
    let n = length content in
    let rest : Bytes = b'\r' ∷ b'\n' ∷ (content ++ more) in
    ap (λ u. parse_http_message resizes (whole (size_label ++ u)))
      (append_assoc (decimal n) (wire_tail content) more)
    ∙ (parse_http_message_lem resizes
          (whole (size_label ++ (decimal n ++ (b'\r' ∷ b'\n' ∷ (type_text ++ rest)))))
          (whole (content ++ more)) (read_headers n) (frame_headers n (content ++ more))
        ∙ read_content-append resizes content more small)
