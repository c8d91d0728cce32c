-- ===== src/Lsp/Protocol/Unreachable.antt =====
-- The panic behind the conversion of a message is not reached.
use no.Prelude.{true, none, codes, ◌≡◌, ◌≢◌, arith, Option-cases, inl, inr}
use no.Json.{Json, JsonLaws}
use no.Lsp.Protocol.{quick_json_rpc_message_check, convert_rpc_message_to_lsp_message}

-- A value that passes `QuickJsonRPCMessageCheck` is converted to a message: no exception is thrown
-- and the panic at the end of the conversion is not reached.
pub convert_rpc_message_to_lsp_message_total :
    {V : Type 0} ⦃json : Json V⦄ (laws : JsonLaws json) (json_rpc : V)
    → quick_json_rpc_message_check json_rpc ≡ true
    → convert_rpc_message_to_lsp_message json_rpc ≢ none
unfolding quick_json_rpc_message_check convert_rpc_message_to_lsp_message
convert_rpc_message_to_lsp_message_total ⦃json = json⦄ laws json_rpc checked =
    elim (Option-cases (json.find (codes "method") json_rpc)) [
      | inl missing ↦ ground (arith, checked, missing)
      | inr (method, has_method) ↦ elim (Option-cases (json.find (codes "id") json_rpc)) [
        | inl without ↦ ground (arith, checked, has_method, without, laws.string_get method)
        | inr (id, with_id) ↦ ground (
          arith,
          checked,
          has_method,
          with_id,
          laws.string_get method,
          laws.string_get id,
          laws.integer_get id,
        )
      ]
    ]
