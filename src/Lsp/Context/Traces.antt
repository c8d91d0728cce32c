-- ===== src/Lsp/Context/Traces.antt =====
-- The log subscriber of a session: `StripANSI` and the function that the constructor subscribes in
-- lib/src/lsp/server/Context.cc, with the notification of lib/src/lsp/protocol/LogTrace.hh. What the
-- formatter of the log makes of a message is an argument.
use no.Prelude.{
  ℕ, zero, suc, Bool, true, false, ◌&&◌, ◌||◌, Option, none, some, List, [], ◌∷◌, ◌++◌, Bytes,
  codes, ◌≡◌, ◌≢◌, ◌==◌, leb, if◌then◌else◌, refl, sym, ap, ◌∙◌, arith, All, map, Bool-cases, inl,
  inr,
}
use no.Prelude.Lists.{append-nil, append_assoc}
use no.Json.{Json}
use no.Lsp.Http.{frame}
use no.Lsp.Context.{Context, TraceValue, off, messages, verbose}

abbrev is_letter : ℕ → Bool
is_letter c = (leb b'A' c && leb c b'Z') || (leb b'a' c && leb c b'z')

abbrev is_parameter : ℕ → Bool
is_parameter c = (leb b'0' c && leb c b'9') || c == b';'

-- The length of a row of parameters with a letter behind it.
abbrev parameters_length : Bytes → Option ℕ
parameters_length [] = none
parameters_length (c ∷ text) =
    let rest = parameters_length text in
    if is_letter c
    then some 1
    else if is_parameter c
    then elim rest [ none ↦ none | some n ↦ some (suc n) ]
    else none

-- The length of the escape sequence that the text starts with, without its first byte.
unfoldable pub sequence_length : Bytes → Option ℕ
sequence_length [] = none
sequence_length (_ ∷ []) = none
sequence_length (c ∷ d ∷ text) =
    if c == 27 && d == b'['
    then elim (parameters_length text) [ none ↦ none | some n ↦ some (suc n) ]
    else none

-- The text without its escape sequences, where some bytes of one are still to be left out.
unfoldable pub strip_from : ℕ → Bytes → Bytes
strip_from n [] = []
strip_from (suc n) (c ∷ text) = strip_from n text
strip_from zero (c ∷ text) = elim (sequence_length (c ∷ text)) [
  | none ↦ c ∷ strip_from zero text
  | some n ↦ strip_from n text
]

abbrev pub strip_ansi : Bytes → Bytes
strip_ansi text = strip_from 0 text

-- A message of the log: its formatted text, and whether its severity is above `Trace`.
pub record LogMessage : Type 0 where
  pub formatted : Bytes
  pub above_trace : Bool

-- Whether a session sends a message on.
unfoldable pub passes : Context → LogMessage → Bool
passes c log =
    c.can_send_trace && elim (c.trace) [ off ↦ false | messages ↦ log.above_trace | verbose ↦ true ]

-- The messages above the level `Trace`.
abbrev pub only_above : List LogMessage → List LogMessage
only_above [] = []
only_above (log ∷ logs) = let rest = only_above logs in if log.above_trace then log ∷ rest else rest

-- The messages that the settings of a session select.
unfoldable pub selected : Bool → TraceValue → List LogMessage → List LogMessage
selected false trace logs = []
selected true off logs = []
selected true messages logs = only_above logs
selected true verbose logs = logs

abbrev pub texts : List LogMessage → List Bytes
texts = map (λ log. strip_ansi log.formatted)

abbrev passes_with : Bool → TraceValue → LogMessage → Bool
passes_with can_send_trace trace log =
    can_send_trace && elim trace [ off ↦ false | messages ↦ log.above_trace | verbose ↦ true ]

selected_none : (can : Bool) (trace : TraceValue) → selected can trace [] ≡ []
unfolding selected
selected_none false trace = refl
selected_none true off = refl
selected_none true messages = refl
selected_none true verbose = refl

selected_more :
    (can : Bool) (trace : TraceValue) (log : LogMessage) (logs : List LogMessage)
    → passes_with can trace log ≡ true
    → selected can trace (log ∷ logs) ≡ log ∷ selected can trace logs
unfolding selected
selected_more false trace log logs h = absurd (cc)
selected_more true off log logs h = absurd (cc)
selected_more true messages log logs h = rw h refl
selected_more true verbose log logs h = refl

selected_less :
    (can : Bool) (trace : TraceValue) (log : LogMessage) (logs : List LogMessage)
    → passes_with can trace log ≡ false
    → selected can trace (log ∷ logs) ≡ selected can trace logs
unfolding selected
selected_less false trace log logs h = refl
selected_less true off log logs h = refl
selected_less true messages log logs h = rw h refl
selected_less true verbose log logs h = absurd (cc)

module _ {V : Type 0} (json : Json V) where
  open json use {object, string, to_string}

  -- `Finalize` of a notification whose parameters are an object.
  abbrev finalize_notification : Bytes → V → V
  finalize_notification method params = object (
      (codes "params", params)
      ∷ (codes "method", string method)
      ∷ (codes "jsonrpc", string (codes "2.0"))
      ∷ [])

  abbrev pub log_trace_notification : Bytes → V
  log_trace_notification message =
      finalize_notification (codes "$/logTrace") (object ((codes "message", string message) ∷ []))

  unfoldable pub send_trace : LogMessage → Context → Context
  send_trace log c =
      if passes c log
      then record c {
        written =
            c.written ++ frame (to_string (log_trace_notification (strip_ansi log.formatted)));
      }
      else c

  unfoldable pub send_traces : List LogMessage → Context → Context
  send_traces [] c = c
  send_traces (log ∷ logs) c = send_traces logs (send_trace log c)

  -- One frame for each text, in order.
  unfoldable pub log_frames : List Bytes → Bytes
  log_frames [] = []
  log_frames (text ∷ texts) = frame (to_string (log_trace_notification text)) ++ log_frames texts

  pub log_frames-append :
      (xs ys : List Bytes) → log_frames xs ++ log_frames ys ≡ log_frames (xs ++ ys)
  unfolding log_frames
  log_frames-append [] ys = refl
  log_frames-append (x ∷ xs) ys =
      append_assoc (frame (to_string (log_trace_notification x))) (log_frames xs) (log_frames ys)
      ∙ ap (λ w. frame (to_string (log_trace_notification x)) ++ w) (log_frames-append xs ys)

  pub send_traces-selected :
      (logs : List LogMessage) (c : Context)
      → send_traces logs c ≡ record c {
        written = c.written ++ log_frames (texts (selected c.can_send_trace c.trace logs));
      }
  unfolding send_traces log_frames send_trace passes
  send_traces-selected [] c =
      rw (selected_none c.can_send_trace c.trace)
        (ap (λ w. record c { written = w }) (sym (append-nil c.written)))
  send_traces-selected (log ∷ logs) c = elim (Bool-cases (passes c log)) [
    | inl passed ↦
        let text = frame (to_string (log_trace_notification (strip_ansi log.formatted))) in
        let w = c.written ++ text in
        rw
          (
            passed,
            send_traces-selected logs (record c { written = w }),
            selected_more c.can_send_trace c.trace log logs passed,
            append_assoc c.written text
                (log_frames (texts (selected c.can_send_trace c.trace logs))),
          )
          refl
    | inr kept ↦
        rw (kept, send_traces-selected logs c, selected_less c.can_send_trace c.trace log logs kept)
          refl
  ]

  -- The session is as it was, but for frames of traces behind its output.
  pub send_traces_texts :
      (logs : List LogMessage) (c : Context)
      → (sent : List Bytes) × (send_traces logs c
          ≡ record c { written = c.written ++ log_frames sent })
  send_traces_texts logs c = (_, send_traces-selected logs c)

  -- Frames of traces one behind the other.
  pub behind :
      (w : Bytes) (xs ys : List Bytes)
      → (w ++ log_frames xs) ++ log_frames ys ≡ w ++ log_frames (xs ++ ys)
  behind w xs ys =
      append_assoc w (log_frames xs) (log_frames ys) ∙ ap (λ v. w ++ v) (log_frames-append xs ys)

  pub around :
      (w : Bytes) (xs ys zs : List Bytes) (response : Bytes)
      → (((w ++ log_frames xs) ++ log_frames ys) ++ response) ++ log_frames zs
        ≡ (w ++ log_frames (xs ++ ys)) ++ (response ++ log_frames zs)
  around w xs ys zs response =
      rw (behind w xs ys) (append_assoc (w ++ log_frames (xs ++ ys)) response (log_frames zs))

-- A text without the escape byte is sent as it is.
strip_ansi_plain : (text : Bytes) → All (λ c. c ≢ 27) text → strip_ansi text ≡ text
unfolding strip_from sequence_length
strip_ansi_plain [] h = refl
strip_ansi_plain (c ∷ []) h = refl
strip_ansi_plain (c ∷ d ∷ text) h = ground (arith, strip_ansi_plain (d ∷ text) h.1, h.0)
