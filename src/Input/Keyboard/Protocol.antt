-- ===== src/Input/Keyboard/Protocol.antt =====
-- What the receiver of the forwarded key events knows of the keys.
use cheirizo.Prelude.{
  ℕ, ◌≡◌, ◌∙◌, refl, ap, arith, Bool, true, false, ◌==◌, ltb, if◌then◌else◌, Option, none, some,
  List, [], ◌∷◌, ◌++◌, Bool-cases, inl, inr, all,
}
use cheirizo.Input.Mapper.{Result, ok, err, translate_scancode}
use cheirizo.Input.Keyboard.{
  KeyboardEvent, ignored, key_down, key_up, key_repeat, KeyboardHandler, accept_down, down, up,
  handle_key_down, handle_key_up, translated, elapsed_ms, synchronize_locks, set_keyboard_layout,
  set_repeat_delay, set_repeat_rate,
}
use cheirizo.Input.Keyboard.Runs.{
  Call, goes_down, goes_up, locks, lays_out, delays, rates, resets, call, run, outcome,
}

-- A receiver that watches one key: whether the key is held after an event, and `none` if a held key goes
-- down, or one that is not held goes up or repeats.
unfoldable pub receive : ℕ → Bool → KeyboardEvent → Option Bool
receive k held (ignored j) = some held
receive k held (key_down j scancode m now) =
    if j == k then (if held then none else some true) else some held
receive k held (key_up j scancode m now) =
    if j == k then (if held then some false else none) else some held
receive k held (key_repeat j scancode m now) =
    if j == k then (if held then some true else none) else some held

abbrev pub and_then : Option Bool → (Bool → Option Bool) → Option Bool
and_then none f = none
and_then (some held) f = f held

unfoldable pub receive_all : ℕ → Bool → List KeyboardEvent → Option Bool
unfolding receive
receive_all k held [] = some held
receive_all k held (e ∷ es) = and_then (receive k held e) (λ held'. receive_all k held' es)

and_then_same :
    (r : Option Bool) (f g : Bool → Option Bool) (held : Bool) (after : Option Bool)
    → ((b : Bool) → f b ≡ some held → g b ≡ after)
    → and_then r f ≡ some held
    → and_then r g ≡ after
and_then_same none f g held after w h = absurd (cc)
and_then_same (some b) f g held after w h = w b h

receive_all-append :
    (k : ℕ) (held held' : Bool) (es fs : List KeyboardEvent)
    → receive_all k held es ≡ some held'
    → receive_all k held (es ++ fs) ≡ receive_all k held' fs
unfolding receive_all
receive_all-append k held held' [] fs h = ground arith
receive_all-append k held held' (e ∷ es) fs h =
    and_then_same (receive k held e) (λ b. receive_all k b es) (λ b. receive_all k b (es ++ fs))
      held' (receive_all k held' fs) (λ b. receive_all-append k b held' es fs) h

down-receive :
    (h : KeyboardHandler) (j k scancode now : ℕ)
    → receive k (h.pressed_keys k) (down h j scancode now).1
      ≡ some ((down h j scancode now).0.pressed_keys k)
unfolding down receive accept_down
down-receive h j k scancode now = elim (Bool-cases (h.pressed_keys j)) [
  | inr released ↦ rw released (ground arith)
  | inl pressed ↦ elim (Bool-cases (h.repeating_keys j)) [
    | inl repeating ↦ elim (Bool-cases (ltb (elapsed_ms h j now) h.repeat_rate_ms)) [
      | inl early ↦ rw (pressed, repeating, early) refl
      | inr due ↦ rw (pressed, repeating, due) (ground arith)
    ]
    | inr first ↦ elim (Bool-cases (ltb (elapsed_ms h j now) h.repeat_delay_ms)) [
      | inl early ↦ rw (pressed, first, early) refl
      | inr due ↦ rw (pressed, first, due) (ground arith)
    ]
  ]
]

up-receive :
    (h : KeyboardHandler) (j k scancode now : ℕ)
    → receive k (h.pressed_keys k) (up h j scancode now).1
      ≡ some ((up h j scancode now).0.pressed_keys k)
unfolding up receive
up-receive h j k scancode now = elim (Bool-cases (h.pressed_keys j)) [
  | inr released ↦ rw released refl
  | inl pressed ↦ rw pressed (ground arith)
]

abbrev not_reset : Call → Bool
not_reset resets = false
not_reset c = true

receive-single :
    (k : ℕ) (held held' : Bool) (e : KeyboardEvent)
    → receive k held e ≡ some held'
    → receive_all k held (e ∷ []) ≡ some held'
unfolding receive_all
receive-single k held held' e h = ap (λ (r : Option Bool). and_then r (λ b. some b)) h

translated-receive :
    (r : Result ℕ) (h : KeyboardHandler) (handle : ℕ → KeyboardHandler × KeyboardEvent) (k : ℕ)
    → ((j : ℕ) → receive k (h.pressed_keys k) (handle j).1 ≡ some ((handle j).0.pressed_keys k))
    → receive_all k (h.pressed_keys k) (outcome (translated r h handle)).1
      ≡ some ((outcome (translated r h handle)).0.pressed_keys k)
unfolding receive_all
translated-receive (err e) h handle k w = refl
translated-receive (ok j) h handle k w = receive-single k _ _ (handle j).1 (w j)

call-receive :
    (h : KeyboardHandler) (c : Call) (k : ℕ)
    → not_reset c ≡ true
    → receive_all k (h.pressed_keys k) (call h c).1 ≡ some ((call h c).0.pressed_keys k)
unfolding call handle_key_down handle_key_up receive_all
call-receive h (goes_down scancode extended e1_prefix now) k keeps =
    translated-receive (translate_scancode h.mapper scancode extended e1_prefix) h
      (λ j. down h j scancode now) k (λ j. down-receive h j k scancode now)
call-receive h (goes_up scancode extended e1_prefix now) k keeps =
    translated-receive (translate_scancode h.mapper scancode extended e1_prefix) h
      (λ j. up h j scancode now) k (λ j. up-receive h j k scancode now)
call-receive h (locks caps num scroll) k keeps = unfold synchronize_locks in refl
call-receive h (lays_out layout) k keeps = unfold set_keyboard_layout in refl
call-receive h (delays ms) k keeps = unfold set_repeat_delay in refl
call-receive h (rates ms) k keeps = unfold set_repeat_rate in refl
call-receive h resets k keeps = absurd (cc)

-- A receiver that watches a key through the forwarded events alone, over calls without a reset, never sees
-- a held key go down or a free one go up or repeat, and knows at the end whether the key is held.
pub run-receive_all :
    (h : KeyboardHandler) (cs : List Call) (k : ℕ)
    → all not_reset cs ≡ true
    → receive_all k (h.pressed_keys k) (run h cs).1 ≡ some ((run h cs).0.pressed_keys k)
unfolding run
run-receive_all h [] k keeps = unfold receive_all in refl
run-receive_all h (c ∷ cs) k keeps =
    receive_all-append k (h.pressed_keys k) _ (call h c).1 (run (call h c).0 cs).1
      (call-receive h c k (ground arith))
    ∙ run-receive_all (call h c).0 cs k (ground arith)
