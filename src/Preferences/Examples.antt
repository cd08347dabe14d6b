-- ===== src/Preferences/Examples.antt =====
-- The theorems on preferences, at an entry that names the default target.
use morph_api.Prelude.{some, false, Option}
use morph_api.Json.{end, field, str}
use morph_api.Preferences.{EntryForm, FlowPreferences}

abbrev padded : EntryForm
padded = record {
  title = " Order ";
  description = "";
  schema = field "amount" (str "1") end;
  target = " $._entry ";
  prefill = "sometimes";
  required = false;
}

abbrev given : Option FlowPreferences
given = some (record { entry = some padded })
