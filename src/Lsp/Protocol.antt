-- ===== src/Lsp/Protocol.antt =====
-- Messages and their way from and to JSON: lib/src/lsp/protocol/Message.hh, Request.hh, Response.hh,
-- Notification.hh and StatusCode.hh, and the JSON part of lib/src/lsp/server/ReadMessage.cc.
pub mod Unreachable
pub mod Tests
use no.Prelude.{
  ℕ, Bool, true, false, ◌&&◌, ◌||◌, Option, none, some, List, [], ◌∷◌, Bytes, codes, ℤ, negsuc,
  if◌then◌else◌, ◌>>=◌,
}
use no.Prelude.Dict.{bytes_eq}
use no.Json.{Json}
use no.Lsp.Http.{Stream, parsed, refused, raised, out_of_fuel, parse_http_message}

-- The codes that are errors; the marks of ranges have no use.
pub data StatusCode : Type 0 where
  parse_error : StatusCode
  invalid_request : StatusCode
  method_not_found : StatusCode
  invalid_params : StatusCode
  internal_error : StatusCode
  server_not_initialized : StatusCode
  unknown_error_code : StatusCode
  request_failed : StatusCode
  server_cancelled : StatusCode
  content_modified : StatusCode
  request_cancelled : StatusCode

abbrev pub number : StatusCode → ℤ
number parse_error = negsuc 32699
number invalid_request = negsuc 32599
number method_not_found = negsuc 32600
number invalid_params = negsuc 32601
number internal_error = negsuc 32602
number server_not_initialized = negsuc 32001
number unknown_error_code = negsuc 32000
number request_failed = negsuc 32802
number server_cancelled = negsuc 32801
number content_modified = negsuc 32800
number request_cancelled = negsuc 32799

pub data MessageSequenceId : Type 0 where
  number_id : ℤ → MessageSequenceId
  text_id : Bytes → MessageSequenceId

-- The messages that are read.
pub data Message (V : Type 0) : Type 0 where
  request : (method : Bytes) → (request_id : MessageSequenceId) → (params : V) → Message V
  notification : (method : Bytes) → (params : V) → Message V

pub record ResponseMessage (V : Type 0) : Type 0 where
  pub request_id : MessageSequenceId
  pub status_code : Option StatusCode
  pub body : V

abbrev pub get_method : {V : Type 0} → Message V → Bytes
get_method (request method request_id params) = method
get_method (notification method params) = method

-- What `ReadRequest` comes to: a message, `nullopt`, or an end of the program.
pub data Received (V : Type 0) : Type 0 where
  received : Message V → Received V
  nothing : Received V
  stopped : Received V

module _ {V : Type 0} ⦃json : Json V⦄ where
  open json use {
    is_string, is_number_integer, find, get_string, get_int64, object, string, integer, null, set,
    parse,
  }

  -- `GetResponseObject`
  abbrev pub response_object : MessageSequenceId → ResponseMessage V
  response_object request_id = record { request_id = request_id; status_code = none; body = null }

  abbrev id_json : MessageSequenceId → V
  id_json (number_id n) = integer n
  id_json (text_id s) = string s

  -- `ResponseMessage::Finalize`
  unfoldable pub finalize : ResponseMessage V → V
  finalize response =
      let tail : List (Bytes × V) =
        (codes "jsonrpc", string (codes "2.0")) ∷ (codes "id", id_json response.request_id) ∷ [] in
      elim response.status_code [
        | none ↦ object ((codes "result", response.body) ∷ tail)
        | some code ↦
            object
              ((codes "error", set (codes "code") (integer (number code)) response.body) ∷ tail)
      ]

  unfoldable pub quick_json_rpc_message_check : V → Bool
  quick_json_rpc_message_check json_rpc =
      elim (find (codes "jsonrpc") json_rpc) [
        | none ↦ false
        | some v ↦
            is_string v && elim (get_string v) [ none ↦ false | some s ↦ bytes_eq s (codes "2.0") ]
      ]
      && (elim (find (codes "method") json_rpc) [ none ↦ false | some v ↦ is_string v ]
          && elim (find (codes "id") json_rpc) [
            | none ↦ true
            | some v ↦ is_string v || is_number_integer v
          ])

  -- None stands for an exception and for the panic at the end.
  unfoldable pub convert_rpc_message_to_lsp_message : V → Option (Message V)
  convert_rpc_message_to_lsp_message json_rpc = do
    method_json ← find (codes "method") json_rpc
    method ← get_string method_json
    let params : V = elim (find (codes "params") json_rpc) [ none ↦ null | some v ↦ v ]
    elim (find (codes "id") json_rpc) [
      | none ↦ some (notification method params)
      | some id ↦
          if is_number_integer id
          then (do n ← get_int64 id; some (request method (number_id n) params))
          else if is_string id
          then (do s ← get_string id; some (request method (text_id s) params))
          else none
    ]

  -- `Server::ReadRequest`
  unfoldable pub read_request : (resizes : ℕ → Bool) → Stream → Received V × Stream
  read_request resizes in_stream =
      let (http_message, in_stream') = parse_http_message resizes in_stream in
      if in_stream.eofbit || in_stream.failbit then (nothing, in_stream) else elim http_message [
        | refused ↦ (nothing, in_stream')
        | raised ↦ (stopped, in_stream')
        | out_of_fuel ↦ (stopped, in_stream')
        | parsed message ↦ elim (parse message.content) [
          | none ↦ (nothing, in_stream')
          | some json_rpc ↦
              if quick_json_rpc_message_check json_rpc
              then elim (convert_rpc_message_to_lsp_message json_rpc) [
                | none ↦ (stopped, in_stream')
                | some message ↦ (received message, in_stream')
              ]
              else (nothing, in_stream')
        ]
      ]
