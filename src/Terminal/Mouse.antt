-- ===== src/Terminal/Mouse.antt =====
-- Mouse events (crates/nmux-core/src/terminal.rs).
use nmux.Base.{ℕ, Option}
use nmux.Protocol.{MouseFormat}

pub data MouseAction : Type 0 where
  press release motion : MouseAction

pub data MouseButton : Type 0 where
  none left middle right wheel_up wheel_down : MouseButton

pub record MouseTerminalInput : Type 0 where
  pub row : ℕ
  pub col : ℕ
  pub pixel_x : Option ℕ
  pub pixel_y : Option ℕ
  pub button : MouseButton
  pub action : MouseAction
  pub modifiers : ℕ
  pub mouse_format : MouseFormat
  pub cols : ℕ
  pub rows : ℕ
