-- ===== src/Lsp/Protocol/Tests.antt =====
-- A request with a number as its identifier.
use no.Prelude.{codes, ◌≡◌, ◌≢◌, refl, some, none, true, pos}
use no.Json.Sample.{
  Value, text, number, entry, empty_object, nothing, sample_json, sample_json-JsonLaws,
}
use no.Lsp.Protocol.{
  quick_json_rpc_message_check, convert_rpc_message_to_lsp_message, request, number_id,
}
use no.Lsp.Protocol.Unreachable.{convert_rpc_message_to_lsp_message_total}

abbrev shutdown_request : Value
shutdown_request = entry (codes "jsonrpc") (text (codes "2.0")) (
    entry (codes "id") (number (pos 4))
      (entry (codes "method") (text (codes "shutdown")) empty_object))

shutdown_checked : quick_json_rpc_message_check shutdown_request ≡ true
unfolding quick_json_rpc_message_check
shutdown_checked = refl

shutdown_converted :
    convert_rpc_message_to_lsp_message shutdown_request
    ≡ some (request (codes "shutdown") (number_id (pos 4)) nothing)
unfolding convert_rpc_message_to_lsp_message
shutdown_converted = refl

convert_rpc_message_to_lsp_message_total_example :
    convert_rpc_message_to_lsp_message shutdown_request ≢ none
convert_rpc_message_to_lsp_message_total_example =
    convert_rpc_message_to_lsp_message_total sample_json-JsonLaws shutdown_request shutdown_checked
