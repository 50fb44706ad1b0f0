-- ===== src/PushHandler/Runs.antt =====
-- Frames of output states, of zones and of troubles in a fresh cache.
use satel_integra.Common.{get_elem?, All, length, ◌<◌, arith, ℕ, ◌≡◌, List, [], ◌∷◌, refl}
use satel_integra.Config.{default_config}
use satel_integra.State.{Zone, SatelState, new_state}
use satel_integra.Event.{SatelEvent}
use satel_integra.Encryption.{repeat}
use satel_integra.Parsers.Bits.{flag_at}
use satel_integra.Cache.Items.{Slot}
use satel_integra.PushHandler.Cached.{zone_frames, handle_mask_frame-cached}
use mathlib.Core.Option
use mathlib.Core.Option.{Option, none, some}
use satel_integra.Parsers.Clock.{DateTime}
use satel_integra.PushHandler.Frames.{handle_frames, handle_auto_frame, is_trouble_frame}
use satel_integra.PushHandler.Streams.{Answers, handle_frames-Answers}
use satel_integra.PushHandler.{handle_mask_frame}
use satel_integra.PushHandler.Again.{handle_auto_frame-again}

abbrev no_date : DateTime → Option ℕ
no_date d = none

abbrev outputs : List ℕ
outputs = 5 ∷ repeat 15 0

handle_auto_frame-again_example :
    (once : SatelState × List SatelEvent) × (handle_auto_frame no_date default_config
        (0x17 ∷ outputs)
        3
        (new_state 1)
      ≡ some once)
    × (handle_auto_frame no_date default_config (0x17 ∷ outputs) 8 once.0 ≡ some (once.0, []))
unfolding is_trouble_frame
handle_auto_frame-again_example =
    handle_auto_frame-again no_date default_config 0x17 outputs 3 8 (new_state 1) refl refl refl
      refl refl refl

abbrev zone_bytes : List ℕ
zone_bytes = 0 ∷ 0x80 ∷ repeat 14 0

known : 15 < length (new_state 1).zones
unfolding new_state
known = omega arith

handle_mask_frame-cached_example :
    All
      (λ (row : ℕ × Slot Zone × List ℕ).
        Option.map
          (λ z. (row.1.cell z).state)
          (get_elem?
            (handle_mask_frame default_config (row.0 ∷ zone_bytes) 3 (new_state 1)).0.zones
            15)
        ≡ flag_at row.2 zone_bytes 15)
      (zone_frames default_config)
handle_mask_frame-cached_example =
    handle_mask_frame-cached default_config zone_bytes 3 (new_state 1) 15 (omega arith)
      (omega arith) (omega arith) known

-- A frame about troubles that is too short, one that is whole, and one without any byte.
abbrev pushed : List (ℕ × List ℕ)
pushed = (3, 0x1B ∷ repeat 20 1) ∷ (4, 0x1B ∷ repeat 47 1) ∷ (5, []) ∷ []

handle_frames-Answers_example :
    Answers (new_state 1) (handle_frames no_date default_config pushed (new_state 1))
handle_frames-Answers_example = handle_frames-Answers no_date default_config pushed (new_state 1)
