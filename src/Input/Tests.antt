-- ===== src/Input/Tests.antt =====
-- The input channel at concrete calls.
use cheirizo.Prelude.{ℕ, ◌≡◌, refl, true, false, some, List, [], ◌∷◌, text_eq}
use cheirizo.Prelude.Strings.{codes}
use cheirizo.Prelude.Maps.{lookup}
use cheirizo.Input.Mapper.{ok, new_mapper, translate_scancode, set_layout}
use cheirizo.Input.Keyboard.{new_keyboard}
use cheirizo.Input.Keyboard.Runs.{Call, goes_down, goes_up, run, IsTracked, run-IsTracked}
use cheirizo.Input.Keyboard.Protocol.{receive_all, run-receive_all}
use cheirizo.Input.Mouse.{left, right, new_mouse, button_to_index, is_button_pressed}
use cheirizo.Input.Mouse.Clicks.{Transition, pass, Alternate, of_button, pass-Alternate}

-- Shift and A go down, A comes once more at once, both go up.
abbrev typing : List Call
typing =
    goes_down 0x2a false false 0
    ∷ goes_down 0x1e false false 1000000
    ∷ goes_down 0x1e false false 2000000
    ∷ goes_up 0x1e false false 3000000
    ∷ goes_up 0x2a false false 4000000
    ∷ []

run-IsTracked_example : IsTracked (run new_keyboard typing).0
run-IsTracked_example = run-IsTracked typing

run-receive_all_example :
    receive_all 30 false (run new_keyboard typing).1
    ≡ some ((run new_keyboard typing).0.pressed_keys 30)
unfolding new_keyboard
run-receive_all_example = run-receive_all new_keyboard typing 30 refl

-- On the German layout, the code of Z has one scancode.
abbrev place_of_z : ℕ
place_of_z = 0x15

-- On the UK layout, two scancodes have the code 86.
shared_code :
    (translate_scancode (set_layout new_mapper (codes "uk")) 0x2b false false ≡ ok 86)
    × (translate_scancode (set_layout new_mapper (codes "uk")) 0x56 false false ≡ ok 86)
unfolding translate_scancode set_layout new_mapper lookup text_eq
shared_code = (refl, refl)

-- A click comes twice, over two paths.
abbrev clicks : List Transition
clicks =
    (left, true, 0)
    ∷ (left, false, 1000000)
    ∷ (left, true, 2000000)
    ∷ (left, false, 3000000)
    ∷ (right, true, 4000000)
    ∷ []

one_click :
    (pass new_mouse clicks).1
    ≡ (left, true, 0) ∷ (left, false, 1000000) ∷ (right, true, 4000000) ∷ []
unfolding pass new_mouse
one_click = refl

pass-Alternate_example :
    Alternate
      (is_button_pressed new_mouse left)
      (new_mouse.last_button_release (button_to_index left))
      (of_button (button_to_index left) (pass new_mouse clicks).1)
      (is_button_pressed (pass new_mouse clicks).0 left)
pass-Alternate_example = pass-Alternate new_mouse clicks left
