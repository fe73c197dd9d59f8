-- ===== src/Resources/Cameras.antt =====
-- `PipState`, the cameras of the players: BasisRustServer/crates/basis-server-resources/src/lib.rs.
-- A float is its bit pattern.
use basis_rust_server.Common.{
  ℕ, Bool, true, false, List, [], ◌∷◌, Option, none, some, if◌then◌else◌,
}
use basis_rust_server.Common.Maps.{Map, lookup, insert, remove, nat_key}
pub use basis_rust_server.Protocol.Messages.Cameras.{
  CameraPipStateMessage, ClientCameraPipStateMessage, CameraPipPositionMessage,
  ClientCameraPipPositionMessage,
}

pub record PipCameraState : Type 0 where
  pub state : CameraPipStateMessage
  pub has_new_data : Bool
  pub last_sent_times : Map ℕ ℕ

pub record PipState : Type 0 where
  pub states : Map ℕ PipCameraState

change_known : ℕ → Option PipCameraState → PipState → PipState
change_known player_id none pip = pip
change_known player_id (some known) pip = record {
  states =
      insert player_id
        (record {
          state = record known.state { is_active = false };
          has_new_data = false;
          last_sent_times = [];
        })
        pip.states;
}

unfoldable pub state_change :
    ℕ → ClientCameraPipStateMessage → PipState → CameraPipStateMessage × PipState
unfolding change_known
state_change player_id m pip =
    let state : CameraPipStateMessage = record {
      player_id = player_id;
      is_active = m.is_active;
      position_x = m.position_x;
      position_y = m.position_y;
      position_z = m.position_z;
      rotation_x = m.rotation_x;
      rotation_y = m.rotation_y;
      rotation_z = m.rotation_z;
      rotation_w = m.rotation_w;
    } in
    let fresh : PipState = record {
      states =
          insert player_id (record { state = state; has_new_data = true; last_sent_times = [] })
            pip.states;
    } in
    (state, if m.is_active then fresh else change_known player_id (lookup player_id pip.states) pip)

move : CameraPipStateMessage → ClientCameraPipPositionMessage → CameraPipStateMessage
move state m = record state {
  position_x = m.position_x;
  position_y = m.position_y;
  position_z = m.position_z;
  rotation_x = m.rotation_x;
  rotation_y = m.rotation_y;
  rotation_z = m.rotation_z;
  rotation_w = m.rotation_w;
}

position_of : ℕ → ClientCameraPipPositionMessage → CameraPipPositionMessage
position_of player_id m = record {
  player_id = player_id;
  position_x = m.position_x;
  position_y = m.position_y;
  position_z = m.position_z;
  rotation_x = m.rotation_x;
  rotation_y = m.rotation_y;
  rotation_z = m.rotation_z;
  rotation_w = m.rotation_w;
}

unfoldable pub position_update :
    ℕ → ClientCameraPipPositionMessage → PipState → Option CameraPipPositionMessage × PipState
unfolding move position_of
position_update player_id m pip = elim (lookup player_id pip.states) [
  | none ↦ (none, pip)
  | some known ↦
      let moved = record known { state = move known.state m; has_new_data = true } in
      if known.state.is_active
      then (some (position_of player_id m), record { states = insert player_id moved pip.states })
      else (none, pip)
]

farewell : Option PipCameraState → Option CameraPipStateMessage
farewell none = none
farewell (some known) =
    if known.state.is_active then some (record known.state { is_active = false }) else none

-- `PipState::remove_player`.
unfoldable pub remove_camera : ℕ → PipState → Option CameraPipStateMessage × PipState
unfolding farewell
remove_camera player_id pip =
    (farewell (lookup player_id pip.states), record { states = remove player_id pip.states })

unfoldable pub all_active : PipState → List CameraPipStateMessage
all_active pip = active pip.states
  where
    active : Map ℕ PipCameraState → List CameraPipStateMessage
    active [] = []
    active ((id, known) ∷ rest) =
        if known.state.is_active then known.state ∷ active rest else active rest

unfoldable pub reset : PipState → PipState
reset pip = record { states = [] }
