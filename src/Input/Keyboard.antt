-- ===== src/Input/Keyboard.antt =====
-- The keyboard of the input channel: src/rdp/channels/input/keyboard.rs. Instants are nanoseconds, a call
-- that reads the clock takes its value. A set of keys is its test, a map a function.
pub mod Runs
pub mod Protocol
use cheirizo.Prelude.{
  ℕ, ◌+◌, ◌-◌, ◌/◌, Bool, true, false, not, ◌&&◌, ◌||◌, ltb, ◌==◌, if◌then◌else◌, Option, none,
  some, List, [], ◌∷◌, Text,
}
use cheirizo.Input.Mapper.{
  ScancodeMapper, Result, ok, err, new_mapper, translate_scancode, set_layout,
}

pub record KeyModifiers : Type 0 where
  pub shift : Bool
  pub ctrl : Bool
  pub alt : Bool
  pub meta : Bool
  pub caps_lock : Bool
  pub num_lock : Bool
  pub scroll_lock : Bool

abbrev pub no_modifiers : KeyModifiers
no_modifiers = record {
  shift = false;
  ctrl = false;
  alt = false;
  meta = false;
  caps_lock = false;
  num_lock = false;
  scroll_lock = false;
}

-- With the key code, and where a key is forwarded its scancode, the modifiers and the time.
pub data KeyboardEvent : Type 0 where
  ignored : ℕ → KeyboardEvent
  key_down key_up key_repeat : ℕ → ℕ → KeyModifiers → ℕ → KeyboardEvent

pub record KeyboardHandler : Type 0 where
  pub mapper : ScancodeMapper
  pub pressed_keys : ℕ → Bool
  pub modifiers : KeyModifiers
  pub last_key_times : ℕ → Option ℕ
  pub repeating_keys : ℕ → Bool
  pub repeat_delay_ms : ℕ
  pub repeat_rate_ms : ℕ

unfoldable pub new_keyboard : KeyboardHandler
new_keyboard = record {
  mapper = new_mapper;
  pressed_keys = λ k. false;
  modifiers = no_modifiers;
  last_key_times = λ k. none;
  repeating_keys = λ k. false;
  repeat_delay_ms = 500;
  repeat_rate_ms = 33;
}

abbrev pub with_key : (ℕ → Bool) → ℕ → ℕ → Bool
with_key keys k j = (j == k) || keys j

abbrev pub without_key : (ℕ → Bool) → ℕ → ℕ → Bool
without_key keys k j = not (j == k) && keys j

abbrev pub with_time : (ℕ → Option ℕ) → ℕ → Option ℕ → ℕ → Option ℕ
with_time times k t j = if j == k then t else times j

-- A modifier after the key of its pair went down or up: `left` or `right` is held then.
abbrev pub held : Bool → (ℕ → Bool) → ℕ → ℕ → Bool
held pressed keys left right = pressed || (keys left || keys right)

-- A lock after its key went down or up.
abbrev pub toggled : Bool → Bool → Bool
toggled pressed lock = if pressed then not lock else lock

-- `update_modifiers`, over the keys that are pressed then.
unfoldable pub update_modifiers : (ℕ → Bool) → KeyModifiers → ℕ → Bool → KeyModifiers
update_modifiers keys m k pressed =
    if k == 42 || k == 54
    then record m { shift = held pressed keys 42 54 }
    else if k == 29 || k == 97
    then record m { ctrl = held pressed keys 29 97 }
    else if k == 56 || k == 100
    then record m { alt = held pressed keys 56 100 }
    else if k == 125 || k == 126
    then record m { meta = held pressed keys 125 126 }
    else if k == 58
    then record m { caps_lock = toggled pressed m.caps_lock }
    else if k == 69
    then record m { num_lock = toggled pressed m.num_lock }
    else if k == 70
    then record m { scroll_lock = toggled pressed m.scroll_lock }
    else m

-- The part of `handle_key_down` for a key that passes.
unfoldable pub accept_down : KeyboardHandler → ℕ → ℕ → KeyboardHandler
unfolding update_modifiers
accept_down h k now =
    let keys = with_key h.pressed_keys k in
    record h {
      pressed_keys = keys;
      last_key_times = with_time h.last_key_times k (some now);
      modifiers = update_modifiers keys h.modifiers k true;
    }

abbrev pub or_now : Option ℕ → ℕ → ℕ
or_now none now = now
or_now (some t) now = t

-- The milliseconds since the key was last accepted.
abbrev pub elapsed_ms : KeyboardHandler → ℕ → ℕ → ℕ
elapsed_ms h k now = (now - or_now (h.last_key_times k) now) / 1000000

abbrev pub with_repeating : KeyboardHandler → ℕ → KeyboardHandler
with_repeating h k = record h { repeating_keys = with_key h.repeating_keys k }

abbrev pub repeated : KeyboardHandler → ℕ → ℕ → ℕ → KeyboardHandler × KeyboardEvent
repeated h k scancode now = (h, key_repeat k scancode h.modifiers now)

-- `handle_key_down` behind the translation.
unfoldable pub down : KeyboardHandler → ℕ → ℕ → ℕ → KeyboardHandler × KeyboardEvent
unfolding accept_down
down h k scancode now =
    if h.pressed_keys k
    then if not (h.repeating_keys k)
      then if ltb (elapsed_ms h k now) h.repeat_delay_ms
        then (h, ignored k)
        else repeated (accept_down (with_repeating h k) k now) k scancode now
      else if ltb (elapsed_ms h k now) h.repeat_rate_ms
      then (h, ignored k)
      else repeated (accept_down h k now) k scancode now
    else let h' = accept_down h k now in (h', key_down k scancode h'.modifiers now)

-- `handle_key_up` behind the translation.
unfoldable pub up : KeyboardHandler → ℕ → ℕ → ℕ → KeyboardHandler × KeyboardEvent
unfolding update_modifiers
up h k scancode now =
    if not (h.pressed_keys k)
    then (h, ignored k)
    else let keys = without_key h.pressed_keys k in
      let m = update_modifiers keys h.modifiers k false in
      (
        record h {
          pressed_keys = keys;
          last_key_times = with_time h.last_key_times k none;
          repeating_keys = without_key h.repeating_keys k;
          modifiers = m;
        },
        key_up k scancode m now,
      )

abbrev pub Handled : Type 0
Handled = KeyboardHandler × Result KeyboardEvent

-- An unknown scancode is an error, and changes nothing.
abbrev pub translated : Result ℕ → KeyboardHandler → (ℕ → KeyboardHandler × KeyboardEvent) → Handled
translated (err e) h handle = (h, err e)
translated (ok keycode) h handle = ((handle keycode).0, ok (handle keycode).1)

unfoldable pub handle_key_down : KeyboardHandler → ℕ → Bool → Bool → ℕ → Handled
unfolding down
handle_key_down h scancode extended e1_prefix now =
    translated (translate_scancode h.mapper scancode extended e1_prefix) h
      (λ keycode. down h keycode scancode now)

unfoldable pub handle_key_up : KeyboardHandler → ℕ → Bool → Bool → ℕ → Handled
unfolding up
handle_key_up h scancode extended e1_prefix now =
    translated (translate_scancode h.mapper scancode extended e1_prefix) h
      (λ keycode. up h keycode scancode now)

-- The key of a lock, if the lock is not as it should be.
abbrev pub toggle_if : Bool → Bool → ℕ → List ℕ → List ℕ
toggle_if true true k rest = rest
toggle_if false false k rest = rest
toggle_if true false k rest = k ∷ rest
toggle_if false true k rest = k ∷ rest

unfoldable pub synchronize_locks : KeyboardHandler → Bool → Bool → Bool → KeyboardHandler × List ℕ
synchronize_locks h caps num scroll = (
  record h {
    modifiers = record h.modifiers { caps_lock = caps; num_lock = num; scroll_lock = scroll };
  },
  toggle_if h.modifiers.caps_lock caps 58
      (toggle_if h.modifiers.num_lock num 69 (toggle_if h.modifiers.scroll_lock scroll 70 [])),
)

unfoldable pub set_keyboard_layout : KeyboardHandler → Text → KeyboardHandler
unfolding set_layout
set_keyboard_layout h layout = record h { mapper = set_layout h.mapper layout }

unfoldable pub set_repeat_delay : KeyboardHandler → ℕ → KeyboardHandler
set_repeat_delay h delay_ms = record h { repeat_delay_ms = delay_ms }

unfoldable pub set_repeat_rate : KeyboardHandler → ℕ → KeyboardHandler
set_repeat_rate h rate_ms = record h { repeat_rate_ms = rate_ms }

unfoldable pub reset_keyboard : KeyboardHandler → KeyboardHandler
reset_keyboard h = record h {
  pressed_keys = λ k. false;
  last_key_times = λ k. none;
  repeating_keys = λ k. false;
  modifiers = no_modifiers;
}
