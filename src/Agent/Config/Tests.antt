-- ===== src/Agent/Config/Tests.antt =====
-- Saving an id into small configurations.
use native.Mathlib.Decide.{ℕ_discrete}
use aigis_zero.Agent.Config.{raw_lines, strip_return, join, scan, edit, save_node_id_to_config}
use aigis_zero.Agent.Config.Editing.{has_agent, Places, edit-Places}
use aigis_zero.Prelude.{
  String, true, false, List, [], ◌∷◌, none, some, ok, ◌≡◌, ◌⊎◌, refl, strip_prefix, trim,
  trim_start_by, trim_end_by,
}

program : Unit {0}
unfolding raw_lines strip_return join scan edit save_node_id_to_config has_agent strip_prefix trim
    trim_start_by trim_end_by ℕ_discrete
program = tt

-- The id goes into the section of the agent.
placed :
    (save_node_id_to_config "7" (ok "[agent]\nname = \"a\"\n[fleet]\n") none).0
    ≡ some "[agent]\nname = \"a\"\nnode_id = \"7\"\n[fleet]"
unfolding program
placed = refl

-- An indented key is not seen, and a second one is written.
doubled :
    edit "7" ("[agent]" ∷ "  node_id = \"3\"" ∷ [])
    ≡ "[agent]" ∷ "  node_id = \"3\"" ∷ "node_id = \"7\"" ∷ []
unfolding program
doubled = refl

abbrev config : List String
config = "[agent]" ∷ "node_id = \"3\"" ∷ "[fleet]" ∷ []

edit-Places_example :
    (((has_agent config ≡ false) × (edit "7" config ≡ config))
      ⊎ ((has_agent config ≡ true) × Places "7" false config (edit "7" config)))
    × (edit "7" (edit "7" config) ≡ edit "7" config)
edit-Places_example = edit-Places "7" config
