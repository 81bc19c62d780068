-- ===== src/Input/Mapper.antt =====
-- Scancodes to key codes: src/rdp/channels/input/mapper.rs. A map is a list of pairs, a set layout one of
-- its texts; no table has a scancode twice.
pub mod Tables
pub mod Layouts
use cheirizo.Prelude.{
  ℕ, ◌+◌, ◌%◌, Bool, true, false, ◌==◌, if◌then◌else◌, Option, none, some, List, [], ◌∷◌, Text,
  text_eq,
}
use cheirizo.Prelude.Maps.{lookup}
use cheirizo.Prelude.Strings.{codes}
use cheirizo.Input.Mapper.Tables.{Table, primary_table, extended_table, e1_table, layout_tables}

pub data InputError : Type 0 where
  unknown_scancode : ℕ → InputError

pub data Result {ℓ} (A : Type ℓ) : Type ℓ where
  ok : A → Result A
  err : InputError → Result A

pub record ScancodeMapper : Type 0 where
  pub primary_map : Table
  pub extended_map : Table
  pub e1_map : Table
  pub layout_overrides : List (Text × Table)
  pub current_layout : Text

unfoldable pub new_mapper : ScancodeMapper
new_mapper = record {
  primary_map = primary_table;
  extended_map = extended_table;
  e1_map = e1_table;
  layout_overrides = layout_tables;
  current_layout = codes "us";
}

unfoldable pub get : ℕ → Table → Option ℕ
get k [] = none
get k ((j, v) ∷ t) = if j == k then some v else get k t

-- `copied().ok_or(..)`.
abbrev pub ok_or : Option ℕ → ℕ → Result ℕ
ok_or none scancode = err (unknown_scancode scancode)
ok_or (some keycode) scancode = ok keycode

abbrev pub or_else : Option ℕ → Option ℕ → Option ℕ
or_else none other = other
or_else (some keycode) other = some keycode

-- The override of the current layout, if there is one.
unfoldable pub override : ScancodeMapper → ℕ → Option ℕ
unfolding get
override m scancode = elim (lookup m.current_layout m.layout_overrides) [
  | none ↦ none
  | some overrides ↦ get scancode overrides
]

-- The scancode is a u32: `as u16` keeps its lower half. The two bytes of an extended scancode have no bits
-- in common, so that their bitwise or is their sum.
unfoldable pub translate_scancode : ScancodeMapper → ℕ → Bool → Bool → Result ℕ
unfolding get override
translate_scancode m scancode extended e1_prefix =
    let short = scancode % 65536 in
    let extended_scan = 0xe000 + scancode % 256 in
    if e1_prefix
    then ok_or (get scancode m.e1_map) short
    else if extended
    then ok_or (or_else (get extended_scan m.extended_map) (get short m.primary_map)) extended_scan
    else ok_or (or_else (override m short) (get short m.primary_map)) short

unfoldable pub set_layout : ScancodeMapper → Text → ScancodeMapper
set_layout m layout = record m { current_layout = layout }
