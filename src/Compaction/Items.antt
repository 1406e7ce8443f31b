-- ===== src/Compaction/Items.antt =====
-- `RESPONSE_ITEM_FIELDS` of src/application/compaction.ts.
use pi_codex_adaptor.Prelude.{String, List, [], ◌∷◌}

-- The fields that an item of each type may have.
abbrev pub response_item_fields : List (String × List String)
response_item_fields =
    ("additional_tools", "type" ∷ "id" ∷ "role" ∷ "tools" ∷ [])
    ∷ (
      "message",
      "type" ∷ "id" ∷ "role" ∷ "content" ∷ "phase" ∷ "internal_chat_message_metadata_passthrough"
          ∷ [],
    )
    ∷ (
      "agent_message",
      "type" ∷ "id" ∷ "author" ∷ "recipient" ∷ "content"
          ∷ "internal_chat_message_metadata_passthrough" ∷ [],
    )
    ∷ (
      "reasoning",
      "type" ∷ "id" ∷ "summary" ∷ "content" ∷ "encrypted_content"
          ∷ "internal_chat_message_metadata_passthrough" ∷ [],
    )
    ∷ (
      "local_shell_call",
      "type" ∷ "id" ∷ "call_id" ∷ "status" ∷ "action" ∷ "internal_chat_message_metadata_passthrough"
          ∷ [],
    )
    ∷ (
      "function_call",
      "type" ∷ "id" ∷ "name" ∷ "namespace" ∷ "arguments" ∷ "call_id"
          ∷ "internal_chat_message_metadata_passthrough" ∷ [],
    )
    ∷ (
      "tool_search_call",
      "type" ∷ "id" ∷ "call_id" ∷ "status" ∷ "execution" ∷ "arguments"
          ∷ "internal_chat_message_metadata_passthrough" ∷ [],
    )
    ∷ (
      "function_call_output",
      "type" ∷ "id" ∷ "call_id" ∷ "output" ∷ "internal_chat_message_metadata_passthrough" ∷ [],
    )
    ∷ (
      "custom_tool_call",
      "type" ∷ "id" ∷ "status" ∷ "call_id" ∷ "name" ∷ "namespace" ∷ "input"
          ∷ "internal_chat_message_metadata_passthrough" ∷ [],
    )
    ∷ (
      "custom_tool_call_output",
      "type" ∷ "id" ∷ "call_id" ∷ "name" ∷ "output" ∷ "internal_chat_message_metadata_passthrough"
          ∷ [],
    )
    ∷ (
      "tool_search_output",
      "type" ∷ "id" ∷ "call_id" ∷ "status" ∷ "execution" ∷ "tools"
          ∷ "internal_chat_message_metadata_passthrough" ∷ [],
    )
    ∷ (
      "web_search_call",
      "type" ∷ "id" ∷ "status" ∷ "action" ∷ "internal_chat_message_metadata_passthrough" ∷ [],
    )
    ∷ (
      "image_generation_call",
      "type" ∷ "id" ∷ "status" ∷ "revised_prompt" ∷ "result"
          ∷ "internal_chat_message_metadata_passthrough" ∷ [],
    )
    ∷ (
      "compaction",
      "type" ∷ "id" ∷ "encrypted_content" ∷ "internal_chat_message_metadata_passthrough" ∷ [],
    )
    ∷ (
      "context_compaction",
      "type" ∷ "id" ∷ "encrypted_content" ∷ "internal_chat_message_metadata_passthrough" ∷ [],
    )
    ∷ []
