-- ===== src/Input/Mouse.antt =====
-- The buttons of the mouse: src/rdp/channels/input/mouse.rs. Instants are nanoseconds, a call that reads the
-- clock takes its value. An array over the buttons is a function.
pub mod Clicks
use cheirizo.Prelude.{
  ℕ, ◌-◌, Bool, true, false, ◌&&◌, ltb, ◌==◌, if◌then◌else◌, Option, none, some, List, [], ◌∷◌,
}

pub data MouseButton : Type 0 where
  left right middle extra1 extra2 : MouseButton

unfoldable pub to_linux_button : MouseButton → ℕ
to_linux_button left = 0x110
to_linux_button right = 0x111
to_linux_button middle = 0x112
to_linux_button extra1 = 0x113
to_linux_button extra2 = 0x114

unfoldable pub from_rdp_button : ℕ → Option MouseButton
from_rdp_button button =
    if button == 0x1000
    then some left
    else if button == 0x2000
    then some right
    else if button == 0x4000
    then some middle
    else if button == 0x0080
    then some extra1
    else if button == 0x0100
    then some extra2
    else none

abbrev pub button_to_index : MouseButton → ℕ
button_to_index left = 0
button_to_index right = 1
button_to_index middle = 2
button_to_index extra1 = 3
button_to_index extra2 = 4

-- What the buttons are about in `MouseHandler`, by their index.
pub record MouseHandler : Type 0 where
  pub button_states : ℕ → Bool
  pub last_button_release : ℕ → Option ℕ

unfoldable pub new_mouse : MouseHandler
new_mouse = record { button_states = λ i. false; last_button_release = λ i. none }

abbrev pub set_at {ℓ} : {A : Type ℓ} → (ℕ → A) → ℕ → A → ℕ → A
set_at f i a j = if j == i then a else f j

-- 8 milliseconds.
abbrev pub duplicate_path_window : ℕ
duplicate_path_window = 8000000

abbrev pub same : Bool → Bool → Bool
same true b = b
same false true = false
same false false = true

-- A release less than the window ago.
abbrev pub is_recent : Option ℕ → ℕ → Bool
is_recent none now = false
is_recent (some released) now = ltb (now - released) duplicate_path_window

unfoldable pub accept_button_transition :
    MouseHandler → MouseButton → Bool → ℕ → MouseHandler × Bool
accept_button_transition m button pressed now =
    let i = button_to_index button in
    if same (m.button_states i) pressed
    then (m, false)
    else if pressed && is_recent (m.last_button_release i) now
    then (m, false)
    else (
      record {
        button_states = set_at m.button_states i pressed;
        last_button_release =
            if pressed then m.last_button_release else set_at m.last_button_release i (some now);
      },
      true,
    )

unfoldable pub is_button_pressed : MouseHandler → MouseButton → Bool
is_button_pressed m button = m.button_states (button_to_index button)

abbrev pub filter_pressed : MouseHandler → List MouseButton → List MouseButton
filter_pressed m [] = []
filter_pressed m (b ∷ bs) =
    let rest = filter_pressed m bs in if m.button_states (button_to_index b) then b ∷ rest else rest

unfoldable pub pressed_buttons : MouseHandler → List MouseButton
pressed_buttons m = filter_pressed m (left ∷ right ∷ middle ∷ extra1 ∷ extra2 ∷ [])

unfoldable pub reset_mouse : MouseHandler → MouseHandler
reset_mouse m = record { button_states = λ i. false; last_button_release = λ i. none }
