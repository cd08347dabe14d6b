-- ===== src/Compile/Bodies.antt =====
-- The requests and the bodies of the plugin nodes of inflow/node_builders.go.
use morph_api.Prelude.{String, true, false, ◌==◌, if◌then◌else◌}
use morph_api.Json.{str, obj, rows, Fields, end, field, lookup, insert, merge}
use morph_api.Patch.Values.{to_rows}
use morph_api.Preferences.{is_filled}
use morph_api.Compile.Read.{Floats, get_str, get_map}
use morph_api.Compile.Settings.{put_present, mcp_connection, llm_settings_body, http_settings_body}
use morph_api.Compile.Questions.{bound_functions}

abbrev pub or_default : String → String → String
or_default s default = if s == "" then default else s

unfoldable pub plugin_unique_id : Fields → String → String
plugin_unique_id fields node_id = or_default (get_str fields "pluginId") node_id

unfoldable pub mcp_request : Fields → String
mcp_request fields =
    or_default (get_str fields "request")
      (if get_str fields "mcpMode" == "llm" then "run" else "call_tool")

-- The body of a call of the LLM, and of the MCP client.
module _ (floats : Floats) where
  unfoldable pub llm_body : Fields → Fields
  llm_body fields =
      merge
        (field "settings" (obj (llm_settings_body floats (get_map fields "settings")))
          (field "functions" (rows (to_rows (bound_functions fields true))) end))
        (get_map fields "body")

  unfoldable pub mcp_body : String → Fields → Fields
  mcp_body request fields =
      if request == "run"
      then merge
          (field "settings" (obj (llm_settings_body floats (get_map fields "settings"))) (
            field "connection" (obj (mcp_connection fields))
              (field "functions" (rows (to_rows (bound_functions fields false))) end)))
          (get_map fields "body")
      else field "connection" (obj (mcp_connection fields)) (
          field "tool" (str (get_str fields "tool"))
            (field "arguments" (obj (get_map fields "arguments")) end))

  unfoldable pub http_body : Fields → Fields
  http_body fields =
      merge (field "settings" (obj (http_settings_body floats (get_map fields "settings"))) end)
        (get_map fields "body")

unfoldable pub cast_body : Fields → Fields
cast_body fields =
    put_present (put_present (get_map fields "body") "mappings" (lookup "mappings" fields))
      "storeId" (lookup "storeId" fields)

unfoldable pub action_body : Fields → Fields
action_body fields =
    if is_filled (get_map fields "settings")
    then insert "settings" (obj (get_map fields "settings")) (get_map fields "body")
    else get_map fields "body"

unfoldable pub action_request : Fields → String
action_request fields = or_default (get_str fields "action") (get_str fields "request")
