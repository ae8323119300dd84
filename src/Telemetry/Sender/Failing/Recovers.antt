-- ===== src/Telemetry/Sender/Failing/Recovers.antt =====
-- That the sender of src/edge/telemetry/sender.py recovers from whatever raised.
use Prim.Native.Nat.{ℕ, suc, ◌≤◌}
use mathlib.Core.Path.{◌≡◌, refl, sym, ap, ◌∙◌, subst}
use mathlib.Core.Logic.{inl, inr}
use mathlib.Core.Bool.{true, ◌||◌}
use mathlib.Core.List.{List, [], ◌∷◌, ◌++◌, append-nil, map}
use native.Mathlib.Omega.{arith}
use trustmodel_edge.Prelude.Tests.{Bool-cases}
use trustmodel_edge.Prelude.Lists.{
  All, All-append, length, take, drop, is_empty, take-append-drop, length-map, length-drop,
  empty_length, length-zero,
}
use trustmodel_edge.Telemetry.Store.{QueuedEvent, payloads}
use trustmodel_edge.Telemetry.Sender.{Worker, status, is_success, is_bad_payload}
use trustmodel_edge.Telemetry.Contract.{EventQueue, IsLawful}
use trustmodel_edge.Telemetry.Sender.Failing.{Meeting, nothing_fails, hear, tick_raising}
use trustmodel_edge.Telemetry.Sender.Failing.Kept.{IsClosed, kept-tick_raising}
use trustmodel_edge.Telemetry.Sender.Failing.Turns.{tick-Turned}
use trustmodel_edge.Telemetry.Sender.Failing.Lossless.{
  Turn, IsQuiet, shipped, shipped_at_least_once,
}

-- A turn in which nothing raises and nobody else calls, answered with the status `code`.
abbrev pub answering : {P : Type 0} → ℕ → Turn P
answering code = ([], (nothing_fails, status code "", []))

-- The gateway takes the batch, or refuses it as malformed.
abbrev pub IsFinal : ℕ → Type 0
IsFinal code = (is_success code || is_bad_payload code) ≡ true

module _ {S P : Type 0} (q : EventQueue S P) (IsSound : S → Type 0)
    (lawful : IsLawful q IsSound) where
  abbrev batch : Worker S → List (QueuedEvent P)
  batch w = q.dequeue_batch w.batch_size w.store

  empty_batch :
      (w : Worker S)
      → IsSound w.store
      → is_empty (batch w) ≡ true
      → q.waiting w.store ≡ drop w.batch_size (q.waiting w.store)
  empty_batch w sound e =
      let none_taken : take w.batch_size (q.waiting w.store) ≡ [] =
        sym (lawful.batch_oldest w.batch_size w.store sound)
        ∙ length-zero (payloads (batch w)) (length-map _ (batch w) ∙ empty_length (batch w) e) in
      sym (take-append-drop w.batch_size (q.waiting w.store))
      ∙ ap (λ xs. xs ++ drop w.batch_size (q.waiting w.store)) none_taken

  final-tick :
      (code : ℕ) (w : Worker S)
      → IsFinal code
      → IsSound w.store
      → q.waiting (tick_raising q (nothing_fails, status code "", []) w).0.store
        ≡ drop w.batch_size (q.waiting w.store)
  unfolding tick_raising
  final-tick code w final sound = elim (Bool-cases (is_empty (batch w))) [
    | inl e ↦ rw (e, tick_raising) (empty_batch w sound e)
    | inr e ↦
        rw (e, tick_raising, final)
          (lawful.ack_removes w.batch_size [] w.store sound tt
            ∙ ap (λ xs. drop w.batch_size (q.waiting w.store) ++ xs) (lawful.none_added w.store)
            ∙ append-nil (drop w.batch_size (q.waiting w.store)))
  ]

  hear_none : (w : Worker S) → IsSound w.store → q.waiting (hear q [] w).store ≡ q.waiting w.store
  hear_none w sound =
      lawful.others_add [] w.store sound tt
      ∙ ap (λ xs. q.waiting w.store ++ xs) (lawful.none_added w.store)
      ∙ append-nil (q.waiting w.store)

  -- The size of a batch stays.
  HasSize-IsClosed : (n : ℕ) → IsClosed q (λ cs. Unit {0}) (λ w. w.batch_size ≡ n)
  HasSize-IsClosed n = record {
    acks = λ ns w h. h;
    retries = λ ns error w h. h;
    hears = λ cs w a h. h;
    resets = λ w h. h;
  }

  tick-batch_size :
      (meeting : Meeting P) (w : Worker S) → (tick_raising q meeting w).0.batch_size ≡ w.batch_size
  tick-batch_size meeting w =
      kept-tick_raising q (λ cs. Unit {0}) (λ v. v.batch_size ≡ w.batch_size)
        (HasSize-IsClosed w.batch_size) meeting w tt refl

  -- After any turns the state is sound, and the size of a batch is as before.
  after_turns :
      (turns : List (Turn P)) (w : Worker S)
      → IsSound w.store
      → All IsQuiet turns
      → IsSound (shipped q turns w).0.store × ((shipped q turns w).0.batch_size ≡ w.batch_size)
  after_turns [] w sound quiet = (sound, refl)
  after_turns ((before, (trouble, answer, meanwhile)) ∷ turns) w sound ((quiet, quiet'), rest) =
      let turned =
        tick-Turned q IsSound lawful (hear q before w) (lawful.others_sound before w.store sound)
          meanwhile quiet' trouble answer in
      let (sound', size) = after_turns turns _ turned.sound rest in
      (sound', size ∙ tick-batch_size (trouble, answer, meanwhile) (hear q before w))

  shorter : (n k : ℕ) (xs : List P) → 1 ≤ n → length xs ≤ suc k → length (drop n xs) ≤ k
  shorter n k xs positive h = omega (arith, length-drop n xs)

  -- As many such turns as events wait empty the queue.
  answering-drains :
      (codes : List ℕ) (w : Worker S)
      → IsSound w.store
      → 1 ≤ w.batch_size
      → All IsFinal codes
      → length (q.waiting w.store) ≤ length codes
      → q.waiting (shipped q (map answering codes) w).0.store ≡ []
  answering-drains [] w sound positive final h = length-zero (q.waiting w.store) (omega arith)
  answering-drains (code ∷ codes) w sound positive (final, finals) h =
      let w' = hear q [] w in
      let sound' = lawful.others_sound [] w.store sound in
      let turned = tick-Turned q IsSound lawful w' sound' [] tt nothing_fails (status code "") in
      let left : q.waiting (tick_raising q (nothing_fails, status code "", []) w').0.store
          ≡ drop w.batch_size (q.waiting w.store) =
        final-tick code w' final sound' ∙ ap (drop w.batch_size) (hear_none w sound) in
      answering-drains codes (tick_raising q (nothing_fails, status code "", []) w').0 turned.sound
        (subst (λ n. 1 ≤ n) (sym (tick-batch_size (nothing_fails, status code "", []) w')) positive)
        finals
        (subst (λ xs. length xs ≤ length codes) (sym left)
          (shorter w.batch_size (length codes) (q.waiting w.store) positive h))

  shipped-append :
      (turns turns' : List (Turn P)) (w : Worker S)
      → (shipped q (turns ++ turns') w).0 ≡ (shipped q turns' (shipped q turns w).0).0
  shipped-append [] turns' w = refl
  shipped-append ((before, (trouble, answer, meanwhile)) ∷ turns) turns' w =
      shipped-append turns turns' (tick_raising q (trouble, answer, meanwhile) (hear q before w)).0

  answering-IsQuiet : (codes : List ℕ) → All IsQuiet (map (answering {P = P}) codes)
  answering-IsQuiet [] = tt
  answering-IsQuiet (code ∷ codes) = ((tt, tt), answering-IsQuiet codes)

  -- Whatever raised and whatever the gateway answered in any turns before: once as many ticks as events
  -- still wait are answered 2xx, 400 or 422, with nothing raised and nobody else calling, the queue is
  -- empty, and the events that the ticks reported as sent, over all the turns, are just those that waited
  -- at first and those that were added, each once and in order.
  pub shipped-recovers :
      (turns : List (Turn P)) (codes : List ℕ) (w : Worker S)
      → IsSound w.store
      → 1 ≤ w.batch_size
      → All IsQuiet turns
      → All IsFinal codes
      → length (q.waiting (shipped q turns w).0.store) ≤ length codes
      → (q.waiting (shipped q (turns ++ map answering codes) w).0.store ≡ [])
        × ((shipped q (turns ++ map answering codes) w).1
            ≡ q.waiting w.store ++ (shipped q (turns ++ map answering codes) w).3)
  shipped-recovers turns codes w sound positive quiet finals h =
      let (sound', size) = after_turns turns w sound quiet in
      let drained : q.waiting (shipped q (turns ++ map answering codes) w).0.store ≡ [] =
        ap (λ v. q.waiting v.store) (shipped-append turns (map answering codes) w)
        ∙ answering-drains codes (shipped q turns w).0 sound'
            (subst (λ n. 1 ≤ n) (sym size) positive) finals h in
      (
        drained,
        sym (append-nil (shipped q (turns ++ map answering codes) w).1)
            ∙ ap (λ xs. (shipped q (turns ++ map answering codes) w).1 ++ xs) (sym drained)
            ∙ (shipped_at_least_once q IsSound lawful (turns ++ map answering codes) w sound
                (All-append IsQuiet turns (map answering codes) quiet (answering-IsQuiet codes))).0,
      )
