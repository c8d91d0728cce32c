-- ===== src/Lsp/Http.antt =====
-- Messages on the wire: the HTTP part of lib/src/lsp/server/ReadMessage.cc, and what
-- `Context::SendMessage` (lib/src/lsp/server/Context.cc) writes. The input stream is the bytes not yet
-- read and its two flags; a file that has ended gives no more bytes.
pub mod Decimal
pub mod Framing
pub mod Headers
pub mod Tests
use no.Prelude.{
  ℕ, zero, suc, ◌+◌, ◌-◌, ◌*◌, ◌/◌, ◌%◌, ◌^◌, Bool, true, false, not, ◌&&◌, ◌||◌, Option, none,
  some, List, [], ◌∷◌, ◌++◌, Bytes, codes, ltb, leb, ◌==◌, if◌then◌else◌, length, take, drop, all,
  ℤ, pos, negsuc, leading_digits, is_digit, starts_digit, decimal,
}
use no.Prelude.Dict.{bytes_key, lookup, insert}

-- A `std::istream`.
pub record Stream : Type 0 where
  pub unread : Bytes
  pub eofbit : Bool
  pub failbit : Bool

abbrev pub good : Stream → Bool
good in_stream = not in_stream.eofbit && not in_stream.failbit

-- The bytes up to a line feed, what stands behind it, and whether there was one.
unfoldable pub split_line : Bytes → Bytes × Bytes × Bool
split_line [] = ([], [], false)
split_line (c ∷ cs) =
    let (line, rest, found) = split_line cs in
    if c == b'\n' then ([], cs, true) else (c ∷ line, rest, found)

-- `std::getline`: it fails where it takes nothing, and a line that the end cuts off is a line.
unfoldable pub getline : Stream → Bytes × Stream
getline in_stream =
    let (line, rest, found) = split_line in_stream.unread in
    if good in_stream
    then (if found then (line, record in_stream { unread = rest }) else (
      line,
      record { unread = []; eofbit = true; failbit = leb (length in_stream.unread) 0 },
    ))
    else ([], record in_stream { failbit = true })

-- `in.read(data, n)`: the bytes and the stream; the flags tell of too few bytes.
unfoldable pub read : ℕ → Stream → Bytes × Stream
read n in_stream =
    if good in_stream
    then (if leb n (length in_stream.unread)
        then (take n in_stream.unread, record in_stream { unread = drop n in_stream.unread })
        else (in_stream.unread, record { unread = []; eofbit = true; failbit = true }))
    else ([], record in_stream { failbit = true })

abbrev pub is_blank : ℕ → Bool
is_blank c = c == b' ' || c == b'\t'

-- `value.erase(0, value.find_first_not_of(" \t"))`
unfoldable pub erase_front : Bytes → Bytes
erase_front [] = []
erase_front (c ∷ cs) = if is_blank c then erase_front cs else c ∷ cs

-- `value.erase(value.find_last_not_of(" \t") + 1)`
unfoldable pub erase_back : Bytes → Bytes
erase_back [] = []
erase_back (c ∷ cs) = if all is_blank (c ∷ cs) then [] else c ∷ erase_back cs

-- Both searches give `npos` on a value of blanks only, which is then left as it is.
unfoldable pub http_header_strip_whitespace : Bytes → Bytes
http_header_strip_whitespace value =
    if all is_blank value then value else erase_back (erase_front value)

-- `if (line.ends_with("\r")) line = line.substr(0, line.size() - 1)`
unfoldable pub drop_return : Bytes → Bytes
drop_return [] = []
drop_return (c ∷ []) = if c == b'\r' then [] else c ∷ []
drop_return (c ∷ d ∷ cs) = c ∷ drop_return (d ∷ cs)

-- The text before the first colon and behind it.
unfoldable pub split_colon : Bytes → Option (Bytes × Bytes)
split_colon [] = none
split_colon (c ∷ cs) =
    if c == b':'
    then some ([], cs)
    else elim (split_colon cs) [ none ↦ none | some (key, val) ↦ some (c ∷ key, val) ]

-- What `ParseHttpHeader` returns, with the flag `end_of_headers`.
pub data HeaderLine : Type 0 where
  failed : HeaderLine
  end_of_headers : HeaderLine
  header : Bytes → Bytes → HeaderLine

-- The line as `ParseHttpHeader` takes it apart.
unfoldable pub header_line : Bytes → HeaderLine
header_line [] = end_of_headers
header_line (c ∷ cs) = elim (split_colon (c ∷ cs)) [
  | none ↦ failed
  | some (key, val) ↦ header (http_header_strip_whitespace key) (http_header_strip_whitespace val)
]

unfoldable pub parse_http_header : Stream → HeaderLine × Stream
parse_http_header in_stream =
    let (line, in_stream') = getline in_stream in
    if in_stream'.failbit
    then (failed, in_stream')
    else (header_line (drop_return line), in_stream')

abbrev pub Headers : Type 0
Headers = List (Bytes × Bytes)

-- What reading a message comes to: a value; `nullopt`; an exception out of `content.resize`, which
-- nothing in the server catches; or, in this model alone, too little fuel.
pub data Parsed {ℓ} (A : Type ℓ) : Type ℓ where
  parsed : A → Parsed A
  refused : Parsed A
  raised : Parsed A
  out_of_fuel : Parsed A

-- The `while (true)` over the header lines.
unfoldable pub parse_headers : ℕ → Stream → Headers → Parsed Headers × Stream
parse_headers zero in_stream headers = (out_of_fuel, in_stream)
parse_headers (suc fuel) in_stream headers =
    let (line, in_stream') = parse_http_header in_stream in
    elim line [
      | end_of_headers ↦ (parsed headers, in_stream')
      | failed ↦ (refused, in_stream')
      | header key val ↦ parse_headers fuel in_stream' (insert key val headers)
    ]

pub record HttpMessage : Type 0 where
  pub headers : Headers
  pub content : Bytes

abbrev pub content_length : Bytes
content_length = codes "Content-Length"

abbrev pub content_type : Bytes
content_type = codes "Content-Type"

abbrev pub default_content_type : Bytes
default_content_type = codes "application/vscode-jsonrpc; charset=utf-8"

-- `std::from_chars` into a 64-bit signed number: an optional minus sign, then digits; what stands
-- behind them is not looked at. None stands for an error code.
unfoldable pub from_chars : Bytes → Option ℤ
from_chars [] = none
from_chars (c ∷ cs) =
    if c == b'-'
    then (let n = leading_digits 0 cs in
        if starts_digit cs && leb n (2 ^ 63)
        then some (if n == 0 then pos 0 else negsuc (n - 1))
        else none)
    else (let n = leading_digits 0 (c ∷ cs) in
        if is_digit c && ltb n (2 ^ 63) then some (pos n) else none)

-- The rest of `ParseHttpMessage`, once the header lines are read. `resizes` says for which lengths
-- `content.resize` does not throw; as much as the stream holds fits into memory.
unfoldable pub read_content : (resizes : ℕ → Bool) → Headers → Stream → Parsed HttpMessage × Stream
read_content resizes [] in_stream = (refused, in_stream)
read_content resizes (h ∷ hs) in_stream = elim (lookup content_length (h ∷ hs)) [
  | none ↦ (refused, in_stream)
  | some text ↦
      let headers : Headers = elim (lookup content_type (h ∷ hs)) [
        | none ↦ insert content_type default_content_type (h ∷ hs)
        | some _ ↦ h ∷ hs
      ] in
      elim (from_chars text) [
        | none ↦ (refused, in_stream)
        | some (negsuc _) ↦ (raised, in_stream)
        | some (pos n) ↦
            let (content, in_stream') = read n in_stream in
            if in_stream'.failbit
            then (if resizes n then (refused, in_stream') else (raised, in_stream))
            else if length content == n
            then (parsed (record { headers = headers; content = content }), in_stream')
            else (refused, in_stream')
      ]
]

unfoldable pub parse_http_message : (resizes : ℕ → Bool) → Stream → Parsed HttpMessage × Stream
parse_http_message resizes in_stream =
    let (result, in_stream') = parse_headers (suc (length in_stream.unread)) in_stream [] in
    elim result [
      | parsed headers ↦ read_content resizes headers in_stream'
      | refused ↦ (refused, in_stream')
      | raised ↦ (raised, in_stream')
      | out_of_fuel ↦ (out_of_fuel, in_stream')
    ]

-- What `Context::SendMessage` writes for the text of a message.
unfoldable pub frame : Bytes → Bytes
frame json_response =
    codes "Content-Length: "
    ++ (decimal (length json_response)
        ++ (codes "\r\nContent-Type: application/vscode-jsonrpc; charset=utf-8\r\n\r\n"
            ++ json_response))
