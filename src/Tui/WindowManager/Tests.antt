-- ===== src/Tui/WindowManager/Tests.antt =====
-- Runs of src/tui/window_manager.cpp at small inputs.
use fmesh_cli.Common.{
  ℕ, ◌≡◌, refl, Bool, true, false, List, [], ◌∷◌, Option, none, some, Bytes, codes, length,
}
use fmesh_cli.App.Config.Atoi.{pos}
use fmesh_cli.Tui.Window.{Window, mark_read, scroll_to_bottom, new}
use fmesh_cli.Tui.Signal.{Platform, Service}
use fmesh_cli.Tui.WindowManager.{fresh, select, current_window}
use fmesh_cli.Tui.WindowManager.Messages.{Received}
use fmesh_cli.Tui.WindowManager.Consistent.{Consistent}
use fmesh_cli.Tui.WindowManager.Operations.{
  Op, channel, direct, received, switch, run_all, run_all-Consistent,
}
use fmesh_cli.Tui.WindowManager.Selection.{select-current_window}

-- Every day is the same, and no number has a decimal place.
abbrev platform : Platform
platform = record {
  local_date = λ ts. record { year = 2024; month = 5; day = 1 };
  local_time = λ ts. record { hour = 10; min = 20; sec = 30 };
  one_decimal = λ bits. codes "1.0";
}

-- A service that knows nothing.
abbrev service : Service
service = record {
  device_ids = [];
  display_name_for = λ device. [];
  find_node = λ node. none;
  db_for = λ device. none;
  recent_messages = λ key limit. [];
}

abbrev message : Received
message = record {
  device = codes "a";
  from_node = 17;
  to_node = 1;
  channel_idx = 0;
  broadcast = false;
  text = codes "hi";
  ts = 7;
  reception = record { snr = 0; rssi = pos 0; start = 3; limit = 1; relay = 18 };
}

abbrev ops : List (Service × Op)
ops =
    (service, channel (codes "a") 0 (codes "main"))
    ∷ (service, direct (codes "a") 5 (codes "bob"))
    ∷ (service, received 9 none message)
    ∷ (service, switch 3)
    ∷ (service, channel (codes "b") 0 [])
    ∷ (service, switch 4)
    ∷ []

run_all-Consistent_example : Consistent (run_all platform ops fresh)
run_all-Consistent_example = run_all-Consistent platform ops

-- The empty direct chat with node 5 is closed when the window behind it is selected.
runs : length (run_all platform ops fresh).windows ≡ 3
unfolding run_all fmesh_cli.Common.lookup_key fmesh_cli.Common.◌=?◌ fmesh_cli.App.Config.Atoi.print
runs = refl

abbrev two_chats : List (Service × Op)
two_chats =
    (service, direct (codes "a") 5 (codes "bob"))
    ∷ (service, direct (codes "a") 6 (codes "eve"))
    ∷ (service, switch 2)
    ∷ []

abbrev second_chat : Window
second_chat = new (record { device = codes "a"; kind = codes "dm"; target = 6 }) (codes "eve")

-- The first chat, which is empty, is closed, and the second one gets its number.
select-current_window_example :
    current_window (select 3 (run_all platform two_chats fresh))
    ≡ some (mark_read (scroll_to_bottom second_chat))
unfolding run_all fmesh_cli.Common.lookup_key fmesh_cli.Common.◌=?◌ fmesh_cli.App.Config.Atoi.print
select-current_window_example =
    select-current_window 3 (run_all platform two_chats fresh) second_chat
      (run_all-Consistent platform two_chats) refl

moves_down : (select 3 (run_all platform two_chats fresh)).current ≡ 2
unfolding run_all fmesh_cli.Common.lookup_key fmesh_cli.Common.◌=?◌ fmesh_cli.App.Config.Atoi.print
moves_down = refl
