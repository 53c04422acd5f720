-- ===== src/Tui/Command/Tests.antt =====
-- Runs of src/tui/command.cpp at small inputs.
use fmesh_cli.Common.{ℕ, ◌≡◌, refl, List, [], ◌∷◌, ◌++◌, Option, none, some, Bytes, codes, true}
use fmesh_cli.Mesh.NodeDb.{NodeDb, Node, fresh_node}
use fmesh_cli.Tui.Signal.{Platform, Service}
use fmesh_cli.Tui.WindowManager.{WindowManager, fresh, current_target}
use fmesh_cli.Tui.Command.Windows.{cmd_close}
use fmesh_cli.Tui.Command.{status, send_text, split, error, cmd_query, cmd_msg}

abbrev platform : Platform
platform = record {
  local_date = λ ts. record { year = 2024; month = 5; day = 1 };
  local_time = λ ts. record { hour = 10; min = 20; sec = 30 };
  one_decimal = λ bits. codes "1.0";
}

abbrev named : ℕ → Bytes → Node
named num name = record (fresh_node num) {
  node_id = codes "!" ++ name;
  short_name = name;
  long_name = name;
}

abbrev two_nodes : NodeDb
two_nodes = record {
  nodes = (5, named 5 (codes "bob")) ∷ (6, named 6 (codes "eve")) ∷ [];
  channels = [];
  my_node_num = 1;
}

-- One device, which knows two nodes.
abbrev service : Service
service = record {
  device_ids = codes "a" ∷ [];
  display_name_for = λ device. device;
  find_node = λ node. none;
  db_for = λ device. some two_nodes;
  recent_messages = λ key limit. [];
}

splits : split (codes " msg  bob hi ") ≡ codes "msg" ∷ codes "bob" ∷ codes "hi" ∷ []
unfolding split
splits = refl

-- Messages to both nodes make a window for each.
abbrev two_chats : WindowManager
two_chats =
    (cmd_msg platform service 7 [] (codes "eve" ∷ codes "hi" ∷ [])
      (cmd_msg platform service 7 [] (codes "bob" ∷ codes "hi" ∷ []) fresh).0).0

-- The window of node 5 is there already; the command shows that of node 6.
query_shows_another :
    current_target (cmd_query platform service [] (codes "bob" ∷ []) two_chats).0
    ≡ some (record { device = codes "a"; kind = codes "dm"; target = 6 })
unfolding cmd_query cmd_msg fmesh_cli.Common.lookup_key fmesh_cli.Common.◌=?◌
    fmesh_cli.App.Config.Atoi.print current_target fmesh_cli.Mesh.NodeId.parse_node_id fresh
    fresh_node
query_shows_another = refl

sends :
    (cmd_msg platform service 7 [] (codes "eve" ∷ codes "hi" ∷ codes "you" ∷ []) fresh).1
    ≡ send_text (codes "a") 6 0 (codes "hi you") true ∷ []
unfolding cmd_msg fmesh_cli.Common.◌=?◌ fmesh_cli.Mesh.NodeId.parse_node_id fresh_node
sends = refl

-- The status window is not closed.
status_stays :
    cmd_close [] fresh ≡ (fresh, status (codes "Cannot close the status window") error ∷ [])
unfolding cmd_close fresh
status_stays = refl
