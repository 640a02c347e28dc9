-- ===== src/Game/State.antt =====
-- The state that the handlers of client_src/init.js share with the other scripts.
use snow_brawl_game.Base.{ℕ, List, Bool, Option, none, some}
use snow_brawl_game.Base.Text.{Text}
use snow_brawl_game.Engine.{Vec3}
use snow_brawl_game.Player.{Player}
use snow_brawl_game.World.{World, update_object}
use snow_brawl_game.Connection.{Connection}

-- The camera, the page's elements, and what the page asked the browser for.
pub record Controls (N : Type 0) : Type 0 where
  pub camera_pitch : N
  pub third_person : Bool
  pub ui_hidden : Bool
  -- Also `document.pointerLockElement`, as of the last pointerlockchange.
  pub is_pointer_locked : Bool
  -- The last call for the pointer: to lock it or to let it go.
  pub lock_asked : Option Bool
  pub login_shown : Bool
  pub chat_focused : Bool
  pub chat_value : Text
  pub name_display : Text
  pub saved_name : Option Text
  pub camera_position : Vec3 N
  pub camera_target : Vec3 N
  pub gain : N
  -- The heights of the snow flakes.
  pub snow : Option (List N)

pub record Game (N : Type 0) : Type 0 where
  pub net : Connection N
  pub world : World N
  pub controls : Controls N

module _ {N : Type 0} where
  abbrev pub on_controls : (Controls N → Controls N) → Game N → Game N
  on_controls f g = record g { controls = f g.controls }

  -- Change the object of the local player, if there is one.
  unfoldable pub on_local : (Player N → Player N) → World N → World N
  on_local f w = elim w.registry.local_player [
    | none ↦ w
    | some r ↦ record w { registry = update_object r f w.registry }
  ]

  -- Change the object behind a reference.
  unfoldable pub on_object : ℕ → (Player N → Player N) → Game N → Game N
  on_object r f g = record g {
    world = record (g.world) { registry = update_object r f g.world.registry };
  }
