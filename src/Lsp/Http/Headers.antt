-- ===== src/Lsp/Http/Headers.antt =====
-- The loop over the header lines ends, and what a message that was read always has.
use no.Prelude.{
  Bool, ℕ, zero, suc, ◌≤◌, ◌<◌, ◌≡◌, ◌≢◌, refl, false, true, some, none, Option, [], ◌∷◌, Bytes,
  arith, length, pos, ℤ, inl, inr, ◌⊎◌,
}
use no.Prelude.Dict.{bytes_key, lookup, insert, lookup-insert}
use no.Lsp.Http.{
  Stream, split_line, getline, parse_http_header, HeaderLine, header, failed, end_of_headers,
  parse_headers, read_content, from_chars, parse_http_message, HttpMessage, parsed, out_of_fuel,
  content_length, content_type, default_content_type, Headers,
}

length-split_line :
    (cs : Bytes)
    → (length (split_line cs).1 ≤ length cs)
      × ((split_line cs).2 ≡ true → length (split_line cs).1 < length cs)
unfolding split_line
length-split_line [] = ground arith
length-split_line (c ∷ cs) = ground (arith, length-split_line cs)

-- A line that was read leaves fewer bytes.
length-getline :
    (s : Stream) → (getline s).1.failbit ≡ false → length (getline s).1.unread < length s.unread
unfolding getline
length-getline s ok = ground (arith, length-split_line s.unread)

length-parse_http_header :
    (s : Stream)
    → ((parse_http_header s).0 ≡ failed) ⊎ (length (parse_http_header s).1.unread < length s.unread)
unfolding parse_http_header
length-parse_http_header s = ground (arith, length-getline s)

HeaderLine-cases :
    (l : HeaderLine)
    → (l ≡ failed) ⊎ ((l ≡ end_of_headers) ⊎ ((key val : Bytes) × (l ≡ header key val)))
HeaderLine-cases failed = inl refl
HeaderLine-cases end_of_headers = inr (inl refl)
HeaderLine-cases (header key val) = inr (inr (key, val, refl))

parse_headers_fuel :
    (fuel : ℕ) (s : Stream) (hs : Headers)
    → length s.unread < fuel
    → (parse_headers fuel s hs).0 ≢ out_of_fuel
unfolding parse_headers
parse_headers_fuel zero s hs h = absurd (omega arith)
parse_headers_fuel (suc fuel) s hs h = elim (HeaderLine-cases (parse_http_header s).0) [
  | inl e ↦ ground (arith, e)
  | inr (inl e) ↦ ground (arith, e)
  | inr (inr (key, val, e)) ↦ ground (
    arith,
    e,
    length-parse_http_header s,
    parse_headers_fuel fuel (parse_http_header s).1 (insert key val hs),
  )
]

read_content_fuel :
    (resizes : ℕ → Bool) (hs : Headers) (s : Stream) → (read_content resizes hs s).0 ≢ out_of_fuel
unfolding read_content
read_content_fuel resizes hs s = ground arith

-- Reading a message ends on every stream: the loop over the header lines never runs out of its fuel,
-- one more than the number of bytes.
pub parse_http_message_terminates :
    (resizes : ℕ → Bool) (s : Stream) → (parse_http_message resizes s).0 ≢ out_of_fuel
unfolding parse_http_message
parse_http_message_terminates resizes s = grind (
  arith,
  parse_headers_fuel (suc (length s.unread)) s [],
  λ (hs : Headers). read_content_fuel resizes hs (parse_headers (suc (length s.unread)) s []).1,
)

-- The number in the header of the size.
abbrev pub stated_length : Headers → Option ℤ
stated_length hs = elim (lookup content_length hs) [ none ↦ none | some text ↦ from_chars text ]

read_content_lem :
    (resizes : ℕ → Bool) (hs : Headers) (s : Stream) (m : HttpMessage)
    → (read_content resizes hs s).0 ≡ parsed m
    → (stated_length m.headers ≡ some (pos (length m.content)))
      × (lookup content_type m.headers ≢ none)
unfolding read_content
read_content_lem resizes [] s m e = ground (arith, e)
read_content_lem resizes (h ∷ hs) s m e = ground (
  arith,
  e,
  lookup-insert content_type content_length default_content_type (h ∷ hs),
  lookup-insert content_type content_type default_content_type (h ∷ hs),
)

-- A message that was read has both headers, and as many bytes of content as the first of them says.
pub parse_http_message_content :
    (resizes : ℕ → Bool) (s : Stream) (m : HttpMessage)
    → (parse_http_message resizes s).0 ≡ parsed m
    → (stated_length m.headers ≡ some (pos (length m.content)))
      × (lookup content_type m.headers ≢ none)
unfolding parse_http_message
parse_http_message_content resizes s m e = grind (
  arith,
  e,
  λ (hs : Headers). read_content_lem resizes hs (parse_headers (suc (length s.unread)) s []).1 m,
)
