-- ===== src/Requests/Policy/Accepts.antt =====
-- Which bodies policy.py accepts, said field by field.
use gemma_4_31b_mtp_v_llm_se.Prelude.{◌≡◌, ◌↔◌, refl, Bool, true, false, arith, if◌then◌else◌}
use gemma_4_31b_mtp_v_llm_se.Json.{IfThere, is_str_iff, Fields, get, get_or_null}
use gemma_4_31b_mtp_v_llm_se.Requests.Policy.{
  accepted, openai_field, anthropic_field, openai_reject_fields, anthropic_reject_fields, has_type,
  is_openai_noop, is_anthropic_noop, validate_openai_request, validate_anthropic_request,
}
use gemma_4_31b_mtp_v_llm_se.Requests.Policy.Parts.{
  IsEmptyList, IsUnset, IsNone, HasType, IsIdle, IsOpenaiPlain, IsAnthropicPlain, reject_loop_iff,
  missing_format_iff, is_empty_list_iff, is_null_iff, has_type_iff, where_there_iff,
}

noop_iff : {P : Type 0} (b : Bool) → (b ≡ true) ↔ P → ((if b then true else false) ≡ true) ↔ P
noop_iff true each = each
noop_iff false each = each

module _ (p : Fields) where
  openai_tools_iff : IsIdle is_openai_noop p "tools" ↔ IfThere IsEmptyList (get "tools" p)
  unfolding is_openai_noop
  openai_tools_iff =
      where_there_iff _ IsEmptyList (λ v. ground (arith, is_empty_list_iff v)) (get "tools" p)

  openai_tool_choice_iff :
      IsIdle is_openai_noop p "tool_choice" ↔ IfThere IsNone (get "tool_choice" p)
  unfolding is_openai_noop
  openai_tool_choice_iff =
      where_there_iff _ IsNone (λ v. ground (arith, is_null_iff v, is_str_iff "none" v))
        (get "tool_choice" p)

  function_call_iff :
      IsIdle is_openai_noop p "function_call" ↔ IfThere IsNone (get "function_call" p)
  unfolding is_openai_noop
  function_call_iff =
      where_there_iff _ IsNone (λ v. ground (arith, is_null_iff v, is_str_iff "none" v))
        (get "function_call" p)

  functions_iff : IsIdle is_openai_noop p "functions" ↔ IfThere IsEmptyList (get "functions" p)
  unfolding is_openai_noop
  functions_iff =
      where_there_iff _ IsEmptyList (λ v. ground (arith, is_empty_list_iff v)) (get "functions" p)

  stop_iff : IsIdle is_openai_noop p "stop" ↔ IfThere IsUnset (get "stop" p)
  unfolding is_openai_noop
  stop_iff = where_there_iff _ IsUnset (λ v. ground (arith, is_null_iff v)) (get "stop" p)

  anthropic_tools_iff : IsIdle is_anthropic_noop p "tools" ↔ IfThere IsEmptyList (get "tools" p)
  unfolding is_anthropic_noop
  anthropic_tools_iff =
      where_there_iff _ IsEmptyList (λ v. ground (arith, is_empty_list_iff v)) (get "tools" p)

  anthropic_tool_choice_iff :
      IsIdle is_anthropic_noop p "tool_choice" ↔ IfThere (HasType "none") (get "tool_choice" p)
  unfolding is_anthropic_noop
  anthropic_tool_choice_iff =
      where_there_iff _ (HasType "none") (λ v. noop_iff (has_type "none" v) (has_type_iff "none" v))
        (get "tool_choice" p)

  thinking_iff :
      IsIdle is_anthropic_noop p "thinking" ↔ IfThere (HasType "disabled") (get "thinking" p)
  unfolding is_anthropic_noop
  thinking_iff =
      where_there_iff _ (HasType "disabled")
        (λ v. noop_iff (has_type "disabled" v) (has_type_iff "disabled" v)) (get "thinking" p)

  mcp_iff : IsIdle is_anthropic_noop p "mcp" ↔ IfThere IsEmptyList (get "mcp" p)
  unfolding is_anthropic_noop
  mcp_iff = where_there_iff _ IsEmptyList (λ v. ground (arith, is_empty_list_iff v)) (get "mcp" p)

  files_iff : IsIdle is_anthropic_noop p "files" ↔ IfThere IsEmptyList (get "files" p)
  unfolding is_anthropic_noop
  files_iff =
      where_there_iff _ IsEmptyList (λ v. ground (arith, is_empty_list_iff v)) (get "files" p)

  stop_sequences_iff :
      IsIdle is_anthropic_noop p "stop_sequences" ↔ IfThere IsEmptyList (get "stop_sequences" p)
  unfolding is_anthropic_noop
  stop_sequences_iff =
      where_there_iff _ IsEmptyList (λ v. ground (arith, is_empty_list_iff v))
        (get "stop_sequences" p)

-- An OpenAI body is accepted exactly when each of tools, tool_choice, function_call, functions and
-- stop is not there or asks for nothing, and the type of an object response_format is missing,
-- counts as false or is "text", or MTP is off.
pub openai_request_iff :
    (p : Fields) (mtp_enabled : Bool)
    → (validate_openai_request p mtp_enabled ≡ accepted) ↔ IsOpenaiPlain p mtp_enabled
unfolding validate_openai_request get_or_null
openai_request_iff p mtp_enabled =
    let (split, join) = reject_loop_iff is_openai_noop openai_field openai_reject_fields p _ in
    let (format, format') = missing_format_iff (get "response_format" p) mtp_enabled in
    (
      λ h.
          let ((tools, (choice, (call, (functions, (stop, _))))), next) = split h in
          record {
            tools = (openai_tools_iff p).0 tools;
            tool_choice = (openai_tool_choice_iff p).0 choice;
            function_call = (function_call_iff p).0 call;
            functions = (functions_iff p).0 functions;
            stop = (stop_iff p).0 stop;
            response_format = format next;
          },
      λ r. join (
        (
          (openai_tools_iff p).1 r.tools,
          (
            (openai_tool_choice_iff p).1 r.tool_choice,
            (
              (function_call_iff p).1 r.function_call,
              ((functions_iff p).1 r.functions, ((stop_iff p).1 r.stop, tt)),
            ),
          ),
        ),
        format' r.response_format,
      ),
    )

-- An Anthropic body is accepted exactly when each of tools, mcp, files and stop_sequences is not
-- there or an empty list, tool_choice is not there or of type "none", and thinking is not there or
-- of type "disabled".
pub anthropic_request_iff :
    (p : Fields) → (validate_anthropic_request p ≡ accepted) ↔ IsAnthropicPlain p
unfolding validate_anthropic_request
anthropic_request_iff p =
    let (split, join) =
      reject_loop_iff is_anthropic_noop anthropic_field anthropic_reject_fields p accepted in
    (
      λ h.
          let ((tools, (choice, (thinking, (mcp, (files, (stop, _)))))), _) = split h in
          record {
            tools = (anthropic_tools_iff p).0 tools;
            tool_choice = (anthropic_tool_choice_iff p).0 choice;
            thinking = (thinking_iff p).0 thinking;
            mcp = (mcp_iff p).0 mcp;
            files = (files_iff p).0 files;
            stop_sequences = (stop_sequences_iff p).0 stop;
          },
      λ r. join (
        (
          (anthropic_tools_iff p).1 r.tools,
          (
            (anthropic_tool_choice_iff p).1 r.tool_choice,
            (
              (thinking_iff p).1 r.thinking,
              (
                (mcp_iff p).1 r.mcp,
                ((files_iff p).1 r.files, ((stop_sequences_iff p).1 r.stop_sequences, tt)),
              ),
            ),
          ),
        ),
        refl,
      ),
    )
