-- ===== src/Plugins/Groups.antt =====
-- The order of the list of plugins.
use morph_api.Prelude.{true, false, ◌≡◌, arith, eq_iff}
use morph_api.Prelude.Text.{join}
use morph_api.Prelude.Sort.{text_less-asym, sort_by-in_order, in_order}
use morph_api.Graph.{Flow}
use morph_api.Plugins.{FlowPlugin, listed_before, collect_flow_plugins}

listed_before-asym : (a b : FlowPlugin) → listed_before a b ≡ true → listed_before b a ≡ false
unfolding listed_before
listed_before-asym a b h = ground (
  arith,
  eq_iff a.type b.type,
  eq_iff b.type a.type,
  eq_iff a.plugin_id b.plugin_id,
  eq_iff b.plugin_id a.plugin_id,
  text_less-asym a.type b.type,
  text_less-asym a.plugin_id b.plugin_id,
  text_less-asym (join "," a.actions) (join "," b.actions),
)

-- The list is in its order: no plugin stands behind one that it comes before, by builtin, type, plugin
-- id and actions.
pub collect-in_order : (flow : Flow) → in_order listed_before (collect_flow_plugins flow) ≡ true
unfolding collect_flow_plugins
collect-in_order flow = sort_by-in_order listed_before listed_before-asym _
