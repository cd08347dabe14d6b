-- ===== src/Compile/Settings.antt =====
-- The settings that inflow/node_builders.go projects from a profile onto the body of a plugin.
pub mod Laws
use morph_api.Prelude.{String, Option, none, some}
use morph_api.Json.{Value, bool, num, str, Fields, end, field, lookup, insert}
use morph_api.Compile.Read.{Floats, get_str, get_bool, get_float, put_optional_int}

abbrev pub put_present : Fields → String → Option Value → Fields
put_present out key none = out
put_present out key (some v) = insert key v out

unfoldable pub mcp_connection : Fields → Fields
mcp_connection fields = field "url" (str (get_str fields "url")) (
    field "transport" (str (get_str fields "transport"))
      (field "auth" (str (get_str fields "auth")) end))

module _ (floats : Floats) where
  abbrev pub int_field : Fields → String → Value
  int_field profile key = num (floats.truncate (get_float floats profile key))

  abbrev pub llm_fields : Fields → Fields
  llm_fields profile = field "provider" (str (get_str profile "provider")) (
      field "url" (str (get_str profile "url")) (
        field "model" (str (get_str profile "model")) (
          field "access_token" (str (get_str profile "access_token")) (
            field "temperature" (num (get_float floats profile "temperature"))
              (field "max_tokens" (int_field profile "max_tokens") end)))))

  unfoldable pub llm_settings_body : Fields → Fields
  llm_settings_body profile =
      put_optional_int floats
        (put_optional_int floats (llm_fields profile) profile "request_timeout_s") profile
        "max_retries"

  abbrev pub http_fields : Fields → Fields
  http_fields profile = field "base_url" (str (get_str profile "base_url")) (
      field "auth_type" (str (get_str profile "auth_type")) (
        field "username" (str (get_str profile "username")) (
          field "password" (str (get_str profile "password")) (
            field "token" (str (get_str profile "token")) (
              field "header_name" (str (get_str profile "header_name")) (
                field "timeout_seconds" (int_field profile "timeout_seconds") (
                  field "insecure_skip_verify" (bool (get_bool profile "insecure_skip_verify"))
                    end)))))))

  unfoldable pub http_settings_body : Fields → Fields
  http_settings_body profile =
      put_present (put_optional_int floats (http_fields profile) profile "max_retries") "headers"
        (lookup "headers" profile)

  abbrev pub decision_fields : Fields → Fields
  decision_fields profile = field "provider" (str (get_str profile "provider")) (
      field "access_token" (str (get_str profile "access_token")) (
        field "model" (str (get_str profile "model")) (
          field "url" (str (get_str profile "url"))
            (field "timeout_seconds" (int_field profile "timeout_seconds") end))))

  unfoldable pub decision_settings_body : Fields → Fields
  decision_settings_body profile =
      put_optional_int floats (decision_fields profile) profile "max_retries"
