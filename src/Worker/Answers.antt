-- ===== src/Worker/Answers.antt =====
-- src/worker.rs: the answer of an exchange and the push frames that come before it.
use satel_integra.Common.{append_assoc}
use satel_integra.Common.{ap}
use satel_integra.Common.{append-nil}
use satel_integra.Common.{
  ℕ, Bool, true, false, not, ◌&&◌, ◌==◌, if◌then◌else◌, List, [], ◌∷◌, ◌≡◌, ◌++◌, arith, refl, ◌∙◌,
  map, All,
}
use satel_integra.Error.{ok}
use satel_integra.Worker.{Worker, StateWorkerMessage, notify_state_worker, reset_missed_pings}
use satel_integra.Worker.Exchange.{
  ExchangeIo, Read, received, written, exchange, receive, observe, sent, is_answer, says_accepted,
}

-- Not the answer to the command, nor a result code.
abbrev pub IsPush : ℕ → List ℕ → Type 0
IsPush cmd [] = Unit {0}
IsPush cmd (first ∷ rest) = is_answer cmd first ≡ false

-- The messages about the frames that are not empty.
abbrev pub told : List (List ℕ) → List StateWorkerMessage
told [] = []
told ([] ∷ frames) = told frames
told ((first ∷ rest) ∷ frames) = StateWorkerMessage.frame (first ∷ rest) ∷ told frames

-- The message about the answer: only a refusal is passed on, and not where a name was asked for.
abbrev pub told_answer : ℕ → ℕ → List ℕ → List StateWorkerMessage
told_answer cmd first rest =
    if (first == 0xEF) && (not (says_accepted rest) && not (cmd == 0xEE))
    then StateWorkerMessage.frame (first ∷ rest) ∷ []
    else []

observe-push :
    (cmd : ℕ) (ping : Bool) (first : ℕ) (rest : List ℕ) (w : Worker)
    → is_answer cmd first ≡ false
    → (observe cmd ping first rest w).notified
      ≡ w.notified ++ (StateWorkerMessage.frame (first ∷ rest) ∷ [])
unfolding observe notify_state_worker reset_missed_pings
observe-push cmd ping first rest w e = ground arith

observe-answer :
    (cmd : ℕ) (ping : Bool) (first : ℕ) (rest : List ℕ) (w : Worker)
    → is_answer cmd first ≡ true
    → (observe cmd ping first rest w).notified ≡ w.notified ++ told_answer cmd first rest
unfolding observe notify_state_worker reset_missed_pings
observe-answer cmd ping first rest w e = let n = append-nil w.notified in ground arith

if-true : {A : Type 0} (b : Bool) (x y : A) → b ≡ true → (if b then x else y) ≡ x
if-true true x y e = refl
if-true false x y e = absurd (cc)

if-false : {A : Type 0} (b : Bool) (x y : A) → b ≡ false → (if b then x else y) ≡ y
if-false true x y e = absurd (cc)
if-false false x y e = refl

receive-pushes :
    (cmd : ℕ) (ping : Bool) (now : ℕ) (pushes : List (List ℕ)) (first : ℕ) (rest : List ℕ)
    (more : List Read) (w : Worker)
    → All (IsPush cmd) pushes
    → is_answer cmd first ≡ true
    → let out = receive cmd ping now (map received pushes ++ (received (first ∷ rest) ∷ more)) w in
      (out.1 ≡ ok (first ∷ rest))
      × (out.0.notified ≡ w.notified ++ (told pushes ++ told_answer cmd first rest))
unfolding receive
receive-pushes cmd ping now [] first rest more w h e =
    let o = observe-answer cmd ping first rest w e in
    let w' = observe cmd ping first rest w in
    let q =
      if-true (is_answer cmd first) (w', ok (first ∷ rest)) (receive cmd ping now more w') e in
    (ap (λ out. out.1) q, ap (λ out. out.0.notified) q ∙ o)
receive-pushes cmd ping now ([] ∷ pushes) first rest more w h e =
    receive-pushes cmd ping now pushes first rest more w h.1 e
receive-pushes cmd ping now ((b ∷ bs) ∷ pushes) first rest more w h e =
    let w' = observe cmd ping b bs w in
    let o = observe-push cmd ping b bs w h.0 in
    let ih = receive-pushes cmd ping now pushes first rest more w' h.1 e in
    let n =
      ih.1
      ∙ (ap (λ ms. ms ++ (told pushes ++ told_answer cmd first rest)) o
          ∙ append_assoc w.notified (StateWorkerMessage.frame (b ∷ bs) ∷ [])
              (told pushes ++ told_answer cmd first rest)) in
    let q =
      if-false (is_answer cmd b) (w', ok (b ∷ bs))
        (receive cmd ping now (map received pushes ++ (received (first ∷ rest) ∷ more)) w') h.0 in
    (ap (λ out. out.1) q ∙ ih.0, ap (λ out. out.0.notified) q ∙ n)

-- On a worker with a stream, when the request is written and the panel sends frames that are no
-- answer to it and then an answer, an exchange returns the answer, and the state worker was sent the
-- other frames in their order, less the empty ones, and then the answer if it is a result code that
-- refuses a command other than 0xEE.
pub exchange-answer :
    (now : ℕ) (request : List ℕ) (cmd : ℕ) (pushes : List (List ℕ)) (first : ℕ) (rest : List ℕ)
    (more : List Read) (ping : Bool) (w : Worker)
    → w.stream ≡ true
    → All (IsPush cmd) pushes
    → is_answer cmd first ≡ true
    → let io : ExchangeIo = record {
      write = written;
      reads = map received pushes ++ (received (first ∷ rest) ∷ more);
    } in
      let out = exchange now request cmd io ping w in
      (out.1 ≡ ok (first ∷ rest))
      × (out.0.notified ≡ w.notified ++ (told pushes ++ told_answer cmd first rest))
unfolding exchange sent
exchange-answer now request cmd pushes first rest more ping w s h e =
    let r = receive-pushes cmd ping now pushes first rest more (sent request ping now w) h e in
    ground arith
