-- ===== src/PushHandler/Streams.antt =====
-- Runs of frames: no frame makes `handle_auto_frame` panic, and a subscriber follows the troubles.
use satel_integra.Common.{
  ℕ, ◌≡◌, refl, sym, ap, ◌∙◌, inl, inr, Bool, true, false, Bool-cases, Option, some, none, List, [],
  ◌∷◌, ◌++◌, ◌==◌,
}
use satel_integra.Error.{Result, ok, err}
use satel_integra.Command.{SatelCommand, from_byte}
use satel_integra.Config.{Config}
use satel_integra.State.{SatelState, SystemStatus}
use satel_integra.Event.{SatelEvent}
use satel_integra.Parsers.Clock.{DateTime}
use satel_integra.Cache.Status.{store_status, update_system_status_internal}
use satel_integra.Cache.Troubles.Replay.{view, tell, replay, replay-append}
use satel_integra.Cache.Troubles.News.{update_troubles_internal-told}
use satel_integra.PushHandler.{handle_mask_frame}
use satel_integra.PushHandler.Followed.{Agrees, handle_mask_frame-Follows}
use satel_integra.PushHandler.Frames.{
  status_arm, troubles_answer, troubles_arm, is_trouble_frame, handle_auto_frame, handle_frames,
}

-- A handler answers, and a subscriber who knew what the cache knew follows it.
pub record Answers (before : SatelState) (step : Option (SatelState × List SatelEvent))
    : Type 0 where
  pub after : SatelState × List SatelEvent
  pub returns : step ≡ some after
  pub agrees : Agrees before after

answer :
    (s : SatelState) (after : SatelState × List SatelEvent)
    → Agrees s after
    → Answers s (some after)
answer s after h = record { after = after; returns = refl; agrees = h }

store_status-Agrees :
    (b : Bool) (status : SystemStatus) (s : SatelState) → Agrees s (store_status b status s)
unfolding store_status replay view tell
store_status-Agrees true status s = refl
store_status-Agrees false status s = refl

status_arm-Agrees :
    (config : Config) (s : SatelState) (parsed : Result SystemStatus)
    → Agrees s (status_arm config s parsed)
unfolding status_arm replay view
status_arm-Agrees config s (err e) = refl
status_arm-Agrees config s (ok status) =
    unfold update_system_status_internal in store_status-Agrees _ status s

troubles_answer-Agrees :
    (s : SatelState) (result : Result (SatelState × List SatelEvent))
    → ((s' : SatelState) (sent : List SatelEvent)
        → result ≡ ok (s', sent)
        → view s' ≡ replay sent (view s))
    → Agrees s (troubles_answer s result)
unfolding troubles_answer replay
troubles_answer-Agrees s (err e) h = refl
troubles_answer-Agrees s (ok (s', sent)) h = h s' sent refl

troubles_arm-Answers :
    (config : Config) (bytes : List ℕ) (s : SatelState) (cmd : Option SatelCommand)
    → Answers s (troubles_arm config bytes s cmd)
unfolding troubles_arm
troubles_arm-Answers config bytes s none = answer s (s, []) (unfold replay in refl)
troubles_arm-Answers config bytes s (some cmd) =
    let (result, e, told) = update_troubles_internal-told config cmd bytes s in
    rw e (answer s (troubles_answer s result) (troubles_answer-Agrees s result told))

module _ (single : DateTime → Option ℕ) (config : Config) where
  -- No frame makes `handle_auto_frame` panic, and a subscriber who knew what the cache knew of the
  -- troubles, and hears the events that it sends, knows what the cache knows afterwards.
  handle_auto_frame-Answers :
      (frame : List ℕ) (now : ℕ) (s : SatelState)
      → Answers s (handle_auto_frame single config frame now s)
  unfolding handle_auto_frame
  handle_auto_frame-Answers [] now s = answer s (s, []) (unfold replay in refl)
  handle_auto_frame-Answers (first ∷ rest) now s = elim (Bool-cases (first == 0x1A)) [
    | inl a ↦ rw a (answer s _ (status_arm-Agrees config s _))
    | inr a ↦ elim (Bool-cases (is_trouble_frame first)) [
      | inl b ↦ rw (a, b) (troubles_arm-Answers config rest s (from_byte first))
      | inr b ↦
          rw (a, b)
            (answer s (handle_mask_frame config (first ∷ rest) now s)
              ((handle_mask_frame-Follows config first rest).holds now s))
    ]
  ]

  -- Whatever frames the panel pushes, of any bytes and lengths, the handler does not panic, and a
  -- subscriber who knew what the cache knew of the troubles, and hears the events that the frames
  -- send, in their order, knows at the end what the cache knows.
  pub handle_frames-Answers :
      (frames : List (ℕ × List ℕ)) (s : SatelState)
      → Answers s (handle_frames single config frames s)
  unfolding handle_frames
  handle_frames-Answers [] s = answer s (s, []) (unfold replay in refl)
  handle_frames-Answers ((now, frame) ∷ frames) s =
      let first = handle_auto_frame-Answers frame now s in
      let rest = handle_frames-Answers frames first.after.0 in
      rw (first.returns, rest.returns)
        (answer s (rest.after.0, first.after.1 ++ rest.after.1)
          (rest.agrees
            ∙ ap (replay rest.after.1) first.agrees
            ∙ sym (replay-append first.after.1 rest.after.1 (view s))))
