-- ===== src/Input/Mouse/Clicks.antt =====
-- The button transitions that pass over a run of them.
use cheirizo.Prelude.{
  ℕ, ◌≡◌, refl, sym, arith, Bool, true, false, ◌&&◌, ◌==◌, if◌then◌else◌, Option, some, List, [],
  ◌∷◌, Bool-cases, inl, inr, subst,
}
use cheirizo.Input.Mouse.{
  MouseButton, MouseHandler, button_to_index, accept_button_transition, same, is_recent, set_at,
  is_button_pressed,
}

-- A button, whether it goes down, and when.
abbrev pub Transition : Type 0
Transition = MouseButton × Bool × ℕ

-- The transitions that pass, in their order.
unfoldable pub pass : MouseHandler → List Transition → MouseHandler × List Transition
unfolding accept_button_transition
pass m [] = (m, [])
pass m ((button, pressed, now) ∷ ts) =
    let first = accept_button_transition m button pressed now in
    let rest = pass first.0 ts in
    (rest.0, if first.1 then (button, pressed, now) ∷ rest.1 else rest.1)

-- Those of one button: whether it goes down, and when.
abbrev pub of_button : ℕ → List Transition → List (Bool × ℕ)
of_button i [] = []
of_button i ((button, pressed, now) ∷ ts) =
    if button_to_index button == i then (pressed, now) ∷ of_button i ts else of_button i ts

-- From a state and the last release to another state: each one changes the state, and each press comes a
-- window after the last release.
abbrev pub Alternate : Bool → Option ℕ → List (Bool × ℕ) → Bool → Type 0
Alternate state released [] end = state ≡ end
Alternate state released ((pressed, now) ∷ ts) end =
    (same state pressed ≡ false)
    × ((pressed && is_recent released now) ≡ false)
    × Alternate pressed (if pressed then released else some now) ts end

abbrev released_after : MouseHandler → ℕ → Bool → ℕ → ℕ → Option ℕ
released_after m index pressed now =
    if pressed then m.last_button_release else set_at m.last_button_release index (some now)

-- A transition that passes, before those that alternate after it.
accepted :
    (m : MouseHandler) (i : ℕ) (button : MouseButton) (pressed : Bool) (now : ℕ)
    (ts : List Transition) (end : Bool)
    → same (m.button_states (button_to_index button)) pressed ≡ false
    → (pressed && is_recent (m.last_button_release (button_to_index button)) now) ≡ false
    → Alternate
        (set_at m.button_states (button_to_index button) pressed i)
        (released_after m (button_to_index button) pressed now i)
        (of_button i ts)
        end
    → Alternate
        (m.button_states i)
        (m.last_button_release i)
        (of_button i ((button, pressed, now) ∷ ts))
        end
accepted m i button pressed now ts end changes late =
    elim (Bool-cases (button_to_index button == i)) [
      | inl own ↦
          let e : button_to_index button ≡ i = ground arith in
          let back : (i == button_to_index button) ≡ true = ground arith in
          let at : (if pressed then m.last_button_release i else some now)
              ≡ released_after m (button_to_index button) pressed now i =
            ground (arith, back) in
          rw (own, back)
            (λ h. (
              subst (λ (j : ℕ). same (m.button_states j) pressed ≡ false) e changes,
              subst (λ (j : ℕ). (pressed && is_recent (m.last_button_release j) now) ≡ false) e
                  late,
              subst (λ (r : Option ℕ). Alternate pressed r (of_button i ts) end) (sym at) h,
            ))
      | inr other ↦
          let back : (i == button_to_index button) ≡ false = ground arith in
          let at : released_after m (button_to_index button) pressed now i
              ≡ m.last_button_release i =
            ground (arith, back) in
          rw (other, back, at) (λ h. h)
    ]

first_passes :
    (m : MouseHandler) (i : ℕ) (button : MouseButton) (pressed : Bool) (now : ℕ)
    (ts : List Transition) (end : Bool)
    → let first = accept_button_transition m button pressed now in
      Alternate (first.0.button_states i) (first.0.last_button_release i) (of_button i ts) end
      → Alternate
          (m.button_states i)
          (m.last_button_release i)
          (of_button i (if first.1 then (button, pressed, now) ∷ ts else ts))
          end
unfolding accept_button_transition
first_passes m i button pressed now ts end =
    elim (Bool-cases (same (m.button_states (button_to_index button)) pressed)) [
      | inl redundant ↦ rw redundant (λ h. h)
      | inr changes ↦
          elim (Bool-cases
            (pressed && is_recent (m.last_button_release (button_to_index button)) now)) [
              | inl early ↦ rw (changes, early) (λ h. h)
              | inr late ↦ rw (changes, late) (accepted m i button pressed now ts end changes late)
            ]
    ]

-- Of the transitions that pass, those of each button alternate between down and up, starting from its state
-- and ending in the state that is kept, and no press comes less than 8 ms after the release before it.
pub pass-Alternate :
    (m : MouseHandler) (ts : List Transition) (button : MouseButton)
    → Alternate
        (is_button_pressed m button)
        (m.last_button_release (button_to_index button))
        (of_button (button_to_index button) (pass m ts).1)
        (is_button_pressed (pass m ts).0 button)
unfolding pass is_button_pressed
pass-Alternate m [] button = refl
pass-Alternate m ((other, pressed, now) ∷ ts) button =
    first_passes m (button_to_index button) other pressed now
      (pass (accept_button_transition m other pressed now).0 ts).1 _
      (pass-Alternate (accept_button_transition m other pressed now).0 ts button)
