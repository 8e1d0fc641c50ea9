-- ===== src/Tests/Protocol.antt =====
-- The theorems on requests, model content and addresses at concrete inputs.
use ai_security_gateway.Base.{
  ends_with, starts_with, ◌≤◌, ◌≡◌, refl, ◌⊎◌, false, true, none, some, is_set, length, codes,
  contains,
}
use ai_security_gateway.Base.Dict
use ai_security_gateway.Base.Result.{ok}
use ai_security_gateway.Broker.Store.Snapshot.{Snapshot}
use ai_security_gateway.Inspection.Json.{Json, str, obj, arr, nil, cons, Fields, end, field, member}
use ai_security_gateway.Inspection.Contracts.{inline}
use ai_security_gateway.Inspection.Session.{Session}
use ai_security_gateway.Inspection.Protocol.Headers.{
  nullable, decode_mcp_header, is_padded, ends_blank, check_parameters, header_parameters,
}
use ai_security_gateway.Inspection.Protocol.Semantics.{
  semantics, tool_rule, mcp_envelope, mcp_call, mcp_params, mcp_method, check_version, agrees,
  check_name, check_name_header, tool_of, found_rule, check_mapped, resource_value, resource_of,
  fields_of, text_of,
}
use ai_security_gateway.Inspection.Protocol.Semantics.Agreement.{Call, semantics-Call}
use ai_security_gateway.Inspection.Llm.{
  validate_llm, check_envelope, walk, walk_items, walk_fields, check_node, check_type, any_filled,
  is_filled, is_void,
}
use ai_security_gateway.Inspection.Llm.Content.{
  here, in_dict, in_list, value, first, IsPlain, validate_llm-IsPlain,
}
use ai_security_gateway.Inspection.Engine.{inspect_request}
use ai_security_gateway.Inspection.Engine.Release.{passes, started}
use ai_security_gateway.Inspection.Wiring.{parts}
use ai_security_gateway.Inspection.Wiring.Released.{Meant, inspect_request-Meant}
use ai_security_gateway.Tests.BrokerData.{env, broker}
use ai_security_gateway.Tests.InspectionData.{
  crypto, verifier, session, config, message, route_rule,
}
use ai_security_gateway.Tests.ProtocolData.{readings, mcp_route, mcp_message, body, externals}

meaning :
    semantics readings (λ t. none) mcp_message mcp_route (obj body) ≡ ok ("send", "write", "inbox")
unfolding semantics tool_rule mcp_envelope mcp_call mcp_params mcp_method check_version agrees
    check_name check_name_header tool_of found_rule check_mapped resource_value resource_of
    fields_of text_of nullable decode_mcp_header is_padded ends_blank ends_with check_parameters
    header_parameters starts_with contains member Dict.get
meaning = refl

semantics-Call_example :
    (c : Call readings (λ t. none) mcp_message mcp_route body "send") × (c.rule.action ≡ "write")
    × (is_set "inbox" ≡ true)
    × (length (codes "inbox") ≤ 2048)
unfolding member
semantics-Call_example =
    semantics-Call readings (λ t. none) mcp_message mcp_route body "send" "write" "inbox" meaning
      refl refl

abbrev prompt : Json
prompt = obj (field "input" (arr (cons (obj (field "type" (str "text") end)) nil)) end)

abbrev part : Fields
part = field "type" (str "text") end

accepted : validate_llm prompt route_rule true ≡ ok tt
unfolding validate_llm check_envelope walk walk_items walk_fields check_node check_type any_filled
    is_filled is_void contains member
accepted = refl

validate_llm-IsPlain_example : IsPlain part
validate_llm-IsPlain_example =
    validate_llm-IsPlain prompt route_rule true part accepted
      (in_dict (value (in_list (first here))))

abbrev linked : Json
linked = obj (field "url" (str "https://api.example/x") end)

inspect_request-Meant_example :
    (t : Session Snapshot) × (inspect_request env
        (parts externals config)
        config
        crypto
        verifier
        (some broker)
        inline
        message
        session
      ≡ (ok tt, t))
    × ((passes t.verdict.action ≡ false)
        ⊎ Meant env externals config crypto verifier (some broker) message (started session) t)
inspect_request-Meant_example =
    inspect_request-Meant env externals config crypto verifier (some broker) message session
