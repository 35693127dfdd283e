-- ===== src/Registration/Handshake.antt =====
-- A module and an engine that exchange a registration and its acknowledgement.
use tyche_engine.Common.{List, [], ◌∷◌}
use tyche_engine.Common.Words.{pos}
use tyche_engine.Types.{Interface}
use tyche_engine.Wire.Unpack
use tyche_engine.TycheModule.{TycheModule}
use tyche_engine.Registration.{ParsedInterface, durability_code, named_event}

-- How the engine sees an interface.
abbrev pub seen : Interface → ParsedInterface
seen i = named_event (record {
  name = i.name;
  pattern = i.pattern;
  event_type = i.event_type;
  durability = pos (durability_code i.durability);
})

abbrev pub all_seen : List Interface → List ParsedInterface
all_seen [] = []
all_seen (i ∷ is) = seen i ∷ all_seen is
