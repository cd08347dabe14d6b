-- ===== src/Diagnostics/Examples.antt =====
-- The theorems on inflow/validate.go at concrete diagnoses.
use morph_api.Prelude.{true, [], ◌∷◌, String}
use morph_api.Diagnostics.{Issue, Diagnostics, error, warning, depend_self, node_build_failed, add}

abbrev late : Issue
late = record {
  code = depend_self;
  severity = warning;
  node_id = "n1";
  message = "m";
  suggestion = "";
}

abbrev broken : Issue
broken = record {
  code = node_build_failed;
  severity = error;
  node_id = "n2";
  message = "m";
  suggestion = "";
}

abbrev clean : Diagnostics
clean = record { ok = true; start_node_id = "s"; issues = []; error_count = 0; warning_count = 0 }

abbrev found : Diagnostics
found = add clean (late ∷ broken ∷ [])

abbrev text_of : Issue → String
text_of i = i.message
