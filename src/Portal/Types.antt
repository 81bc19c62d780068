-- ===== src/Portal/Types.antt =====
-- src/desktop/portal/xdg_desktop/types.rs and error.rs: what a session selects, and the errors that
-- its operations return. Of an error its data is kept, not the displayed text.
use Prim.Native.Nat.{bit_and, bit_or}
use cheirizo.Prelude.{
  ℕ, Bool, true, false, not, ◌||◌, ◌==◌, if◌then◌else◌, Option, List, Text, ◌≡◌, refl,
}
use cheirizo.Prelude.Int.{ℤ}

pub data SourceType : Type 0 where
  monitor window virtual : SourceType

unfoldable pub source_to_bits : SourceType → ℕ
source_to_bits monitor = 1
source_to_bits window = 2
source_to_bits virtual = 4

pub record DeviceTypes : Type 0 where
  pub keyboard : Bool
  pub pointer : Bool
  pub touchscreen : Bool

unfoldable pub from_bits : ℕ → DeviceTypes
from_bits bits = record {
  keyboard = not (bit_and bits 1 == 0);
  pointer = not (bit_and bits 2 == 0);
  touchscreen = not (bit_and bits 4 == 0);
}

unfoldable pub to_bits : DeviceTypes → ℕ
to_bits d =
    let bits : ℕ = if d.keyboard then 1 else 0 in
    let bits' : ℕ = if d.pointer then bit_or bits 2 else bits in
    if d.touchscreen then bit_or bits' 4 else bits'

unfoldable pub any_device : DeviceTypes → Bool
any_device d = d.keyboard || d.pointer || d.touchscreen

pub record SourceInfo : Type 0 where
  pub id : ℕ
  pub name : Text
  pub description : Text
  pub width : ℕ
  pub height : ℕ
  pub refresh_rate : ℕ
  pub source_type : SourceType

pub record StreamInfo : Type 0 where
  pub node_id : ℕ
  pub source_id : ℕ
  pub position : ℤ × ℤ
  pub size : ℕ × ℕ
  pub source_type : SourceType
  pub mapping_id : Option Text
  pub properties : List (Text × Text)

pub data SessionState : Type 0 where
  init started closed : SessionState

pub data PortalError : Type 0 where
  invalid_session : Text → PortalError
  session_not_found : Text → PortalError
  invalid_state : SessionState → PortalError
  session_limit_exceeded : Text → ℕ → PortalError
  permission_denied : Text → Text → PortalError

pub data Result {ℓ} (A : Type ℓ) : Type ℓ where
  ok : A → Result A
  err : PortalError → Result A

from_bits-to_bits : (d : DeviceTypes) → from_bits (to_bits d) ≡ d
unfolding from_bits to_bits
from_bits-to_bits d = let g = bits_table d.keyboard d.pointer d.touchscreen in g
  where
    bits_table :
        (k p t : Bool)
        → from_bits (to_bits (record { keyboard = k; pointer = p; touchscreen = t }))
          ≡ record { keyboard = k; pointer = p; touchscreen = t }
    bits_table true true true = refl
    bits_table true true false = refl
    bits_table true false true = refl
    bits_table true false false = refl
    bits_table false true true = refl
    bits_table false true false = refl
    bits_table false false true = refl
    bits_table false false false = refl
