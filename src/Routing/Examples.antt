-- ===== src/Routing/Examples.antt =====
-- The theorems on ids and the directory at concrete inputs.
use sbx_swarm_node.Prelude.{[], Text, codes, text_eq}
use sbx_swarm_node.Routing.{Table, new_table, upsert}

abbrev directory : Table
directory = upsert (codes "n2") (codes "10.0.0.2") (codes "key2") (new_table (codes "n1"))

abbrev no_key : Text
no_key = []
