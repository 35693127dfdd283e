-- ===== src/Types/Names.antt =====
-- The string forms of the enumerations of types.h.
use tyche_engine.Common.{◌≡◌, refl, bytes_discrete}
use tyche_engine.Types.{
  MessageType, InterfacePattern, message_type_to_str, message_type_from_str,
  interface_pattern_to_str, interface_pattern_from_str,
}

message_type_lem : (t : MessageType) → message_type_from_str (message_type_to_str t) ≡ t
unfolding message_type_from_str message_type_to_str bytes_discrete
message_type_lem MessageType.command = refl
message_type_lem _ = refl

interface_pattern_lem :
    (p : InterfacePattern) → interface_pattern_from_str (interface_pattern_to_str p) ≡ p
unfolding interface_pattern_from_str interface_pattern_to_str bytes_discrete
interface_pattern_lem InterfacePattern.on = refl
interface_pattern_lem _ = refl

-- The string of each message type and of each interface pattern is read back as that type and that
-- pattern.
pub from_str-to_str :
    ((t : MessageType) → message_type_from_str (message_type_to_str t) ≡ t)
    × ((p : InterfacePattern) → interface_pattern_from_str (interface_pattern_to_str p) ≡ p)
from_str-to_str = (message_type_lem, interface_pattern_lem)
