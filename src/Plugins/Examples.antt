-- ===== src/Plugins/Examples.antt =====
-- A graph with two plugins and a node that no edge joins.
use morph_api.Prelude.{◌≡◌, refl, inl, inr, String, List, [], ◌∷◌, true}
use morph_api.Prelude.Membership.{mem}
use morph_api.Prelude.Text.{trim_space, trim, trim_left, trim_right, is_space}
use morph_api.Prelude.Sort.{sort_by, insert_by, text_less}
use morph_api.Json.{str, obj, Fields, end, field, lookup}
use morph_api.Patch.Values.{get, as_str}
use morph_api.Graph.{at, Node, Edge, Flow}
use morph_api.Prelude.Any.{Any}
use morph_api.Plugins.Listed.{Lists, collect-Lists}
use morph_api.Plugins.{
  builtin, extension, FlowPlugin, plugin_backed_node_type, is_connected, before_dot,
  plugin_namespace, group_key, put_node, served_as, group_nodes, finish_all, listed_before,
  collect_flow_plugins,
}

abbrev placed : String → String → Fields → Node
placed id kind m = record {
  id = id;
  kind = kind;
  payload = obj m;
  position = record { x = at 0; y = at 0 };
  computed = record { x = at 0; y = at 0 };
  width = at 0;
  height = at 0;
  initialized = true;
}

abbrev wired : String → String → Edge
wired a b = record { id = ""; source = a; target = b; source_handle = ""; tags = [] }

abbrev drawn : Flow
drawn = record {
  nodes =
      placed "a" "plugin" (field "action" (str "jira.add") end)
      ∷ placed "b" "llm" end
      ∷ placed "c" "plugin" (field "action" (str "jira.move") end)
      ∷ placed "d" "http" end
      ∷ [];
  edges = wired "a" "b" ∷ wired "b" "c" ∷ [];
  zoom = at 1;
}

abbrev used : List FlowPlugin
used =
    record { kind = builtin; type = "llm"; plugin_id = ""; actions = []; node_count = 1 }
    ∷ record {
      kind = extension;
      type = "plugin";
      plugin_id = "";
      actions = "jira.add" ∷ "jira.move" ∷ [];
      node_count = 2;
    }
    ∷ []

collects : collect_flow_plugins drawn ≡ used
unfolding collect_flow_plugins finish_all group_nodes served_as put_node group_key plugin_namespace
    before_dot is_connected plugin_backed_node_type listed_before sort_by insert_by text_less mem
    get lookup as_str trim_space trim trim_left trim_right is_space
collects = refl

abbrev called : Flow
called = record {
  nodes =
      placed "a" "plugin" (field "pluginId" (str "jira") (field "action" (str "jira.add") end))
      ∷ placed "b" "plugin" (field "pluginId" (str "jira") (field "action" (str "jira.move") end))
      ∷ [];
  edges = wired "a" "b" ∷ [];
  zoom = at 1;
}

collect-Lists_example : Any (Lists "jira" "jira.move") (collect_flow_plugins called)
unfolding get lookup as_str trim_space trim trim_left trim_right is_space
collect-Lists_example =
    collect-Lists "jira" "jira.move" refl refl called
      (inr (inl (refl, refl, refl, refl, inl (inr refl))))
