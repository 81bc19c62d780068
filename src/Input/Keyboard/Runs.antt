-- ===== src/Input/Keyboard/Runs.antt =====
-- Runs of the keyboard's calls, what holds of the keyboard between them and what they forward.
use cheirizo.Prelude.{
  ℕ, ◌≡◌, ◌≢◌, arith, Bool, true, false, ◌||◌, ltb, none, List, [], ◌∷◌, ◌++◌, Text, Bool-cases,
  inl, inr,
}
use cheirizo.Input.Mapper.{Result, ok, err, translate_scancode}
use cheirizo.Input.Keyboard.{
  KeyboardEvent, KeyboardHandler, new_keyboard, update_modifiers, accept_down, with_repeating, down,
  up, handle_key_down, handle_key_up, synchronize_locks, set_keyboard_layout, set_repeat_delay,
  set_repeat_rate, reset_keyboard, Handled, translated, elapsed_ms,
}

-- The calls that change the keyboard; those of a key with scancode, extension, prefix and time.
pub data Call : Type 0 where
  goes_down goes_up : ℕ → Bool → Bool → ℕ → Call
  locks : Bool → Bool → Bool → Call
  lays_out : Text → Call
  delays rates : ℕ → Call
  resets : Call

-- What a call forwards.
abbrev pub forwarded : Result KeyboardEvent → List KeyboardEvent
forwarded (err e) = []
forwarded (ok e) = e ∷ []

abbrev pub outcome : Handled → KeyboardHandler × List KeyboardEvent
outcome (h, r) = (h, forwarded r)

unfoldable pub call : KeyboardHandler → Call → KeyboardHandler × List KeyboardEvent
unfolding handle_key_down handle_key_up synchronize_locks set_keyboard_layout set_repeat_delay
    set_repeat_rate reset_keyboard
call h (goes_down scancode extended e1_prefix now) =
    outcome (handle_key_down h scancode extended e1_prefix now)
call h (goes_up scancode extended e1_prefix now) =
    outcome (handle_key_up h scancode extended e1_prefix now)
call h (locks caps num scroll) = ((synchronize_locks h caps num scroll).0, [])
call h (lays_out layout) = (set_keyboard_layout h layout, [])
call h (delays ms) = (set_repeat_delay h ms, [])
call h (rates ms) = (set_repeat_rate h ms, [])
call h resets = (reset_keyboard h, [])

unfoldable pub run : KeyboardHandler → List Call → KeyboardHandler × List KeyboardEvent
unfolding call
run h [] = (h, [])
run h (c ∷ cs) = let first = call h c in let rest = run first.0 cs in (rest.0, first.1 ++ rest.1)

-- What holds of the keyboard between calls.
pub record IsTracked (h : KeyboardHandler) : Type 0 where
  pub shift : h.modifiers.shift ≡ (h.pressed_keys 42 || h.pressed_keys 54)
  pub ctrl : h.modifiers.ctrl ≡ (h.pressed_keys 29 || h.pressed_keys 97)
  pub alt : h.modifiers.alt ≡ (h.pressed_keys 56 || h.pressed_keys 100)
  pub meta : h.modifiers.meta ≡ (h.pressed_keys 125 || h.pressed_keys 126)
  pub repeating : (k : ℕ) → h.repeating_keys k ≡ true → h.pressed_keys k ≡ true
  pub timed : (k : ℕ) → h.pressed_keys k ≡ true → h.last_key_times k ≢ none
  pub untimed : (k : ℕ) → h.pressed_keys k ≡ false → h.last_key_times k ≡ none

accept_down-IsTracked :
    (h : KeyboardHandler) (k now : ℕ) → IsTracked h → IsTracked (accept_down h k now)
unfolding accept_down update_modifiers
accept_down-IsTracked h k now v = record {
  shift = ground (arith, v.shift);
  ctrl = ground (arith, v.ctrl);
  alt = ground (arith, v.alt);
  meta = ground (arith, v.meta);
  repeating = λ j. ground (arith, v.repeating j);
  timed = λ j. ground (arith, v.timed j);
  untimed = λ j. ground (arith, v.untimed j);
}

with_repeating-IsTracked :
    (h : KeyboardHandler) (k : ℕ)
    → h.pressed_keys k ≡ true
    → IsTracked h
    → IsTracked (with_repeating h k)
with_repeating-IsTracked h k pressed v = record {
  shift = v.shift;
  ctrl = v.ctrl;
  alt = v.alt;
  meta = v.meta;
  repeating = λ j. ground (arith, v.repeating j);
  timed = v.timed;
  untimed = v.untimed;
}

down-IsTracked :
    (h : KeyboardHandler) (k scancode now : ℕ) → IsTracked h → IsTracked (down h k scancode now).0
unfolding down
down-IsTracked h k scancode now v = elim (Bool-cases (h.pressed_keys k)) [
  | inr released ↦ rw released (accept_down-IsTracked h k now v)
  | inl pressed ↦ elim (Bool-cases (h.repeating_keys k)) [
    | inl repeating ↦ elim (Bool-cases (ltb (elapsed_ms h k now) h.repeat_rate_ms)) [
      | inl early ↦ rw (pressed, repeating, early) v
      | inr due ↦ rw (pressed, repeating, due) (accept_down-IsTracked h k now v)
    ]
    | inr first ↦ elim (Bool-cases (ltb (elapsed_ms h k now) h.repeat_delay_ms)) [
      | inl early ↦ rw (pressed, first, early) v
      | inr due ↦
          rw (pressed, first, due)
            (accept_down-IsTracked (with_repeating h k) k now
              (with_repeating-IsTracked h k pressed v))
    ]
  ]
]

up-IsTracked :
    (h : KeyboardHandler) (k scancode now : ℕ) → IsTracked h → IsTracked (up h k scancode now).0
unfolding up update_modifiers
up-IsTracked h k scancode now v = elim (Bool-cases (h.pressed_keys k)) [
  | inr released ↦ rw released v
  | inl pressed ↦ rw pressed (record {
    shift = ground (arith, v.shift);
    ctrl = ground (arith, v.ctrl);
    alt = ground (arith, v.alt);
    meta = ground (arith, v.meta);
    repeating = λ j. ground (arith, v.repeating j);
    timed = λ j. ground (arith, v.timed j);
    untimed = λ j. ground (arith, v.untimed j);
  })
]

translated-IsTracked :
    (r : Result ℕ) (h : KeyboardHandler) (handle : ℕ → KeyboardHandler × KeyboardEvent)
    → IsTracked h
    → ((k : ℕ) → IsTracked (handle k).0)
    → IsTracked (translated r h handle).0
translated-IsTracked (err e) h handle v w = v
translated-IsTracked (ok k) h handle v w = w k

call-IsTracked : (h : KeyboardHandler) (c : Call) → IsTracked h → IsTracked (call h c).0
unfolding call handle_key_down handle_key_up
call-IsTracked h (goes_down scancode extended e1_prefix now) v =
    translated-IsTracked (translate_scancode h.mapper scancode extended e1_prefix) h
      (λ k. down h k scancode now) v (λ k. down-IsTracked h k scancode now v)
call-IsTracked h (goes_up scancode extended e1_prefix now) v =
    translated-IsTracked (translate_scancode h.mapper scancode extended e1_prefix) h
      (λ k. up h k scancode now) v (λ k. up-IsTracked h k scancode now v)
call-IsTracked h (locks caps num scroll) v = ground (arith, v)
call-IsTracked h (lays_out layout) v = ground (arith, v)
call-IsTracked h (delays ms) v = ground (arith, v)
call-IsTracked h (rates ms) v = ground (arith, v)
call-IsTracked h resets v = ground arith

run_keeps : (h : KeyboardHandler) (cs : List Call) → IsTracked h → IsTracked (run h cs).0
unfolding run
run_keeps h [] v = v
run_keeps h (c ∷ cs) v = run_keeps (call h c).0 cs (call-IsTracked h c v)

new_keyboard-IsTracked : IsTracked new_keyboard
unfolding new_keyboard
new_keyboard-IsTracked = ground arith

-- Whatever calls a new keyboard takes, each modifier is on exactly while one of its two keys is held, only
-- held keys repeat, and exactly the held keys have a time on record.
pub run-IsTracked : (cs : List Call) → IsTracked (run new_keyboard cs).0
run-IsTracked cs = run_keeps new_keyboard cs new_keyboard-IsTracked
