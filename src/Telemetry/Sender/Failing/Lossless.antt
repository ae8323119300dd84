-- ===== src/Telemetry/Sender/Failing/Lossless.antt =====
-- What becomes of the events over many ticks of src/edge/telemetry/sender.py, whatever raises in them.
use mathlib.Core.Path.{◌≡◌, sym}
use mathlib.Core.List.{List, [], ◌∷◌, ◌++◌, append-nil, Sublist, Sublistᴰ}
use mathlib.Core.List.Sublist
use trustmodel_edge.Prelude.Lists.{All, take}
use trustmodel_edge.Telemetry.Store.{Call}
use trustmodel_edge.Telemetry.Store.Interleaved.{NoAck}
use trustmodel_edge.Telemetry.Sender.Delivered.{joined}
use trustmodel_edge.Telemetry.Sender.{Worker}
use trustmodel_edge.Telemetry.Contract.{EventQueue, IsLawful}
use trustmodel_edge.Telemetry.Sender.Failing.{Meeting, sent_of, hear, tick_raising}
use trustmodel_edge.Telemetry.Sender.Failing.Results.{heard_by, answered_by}
use trustmodel_edge.Telemetry.Sender.Failing.Turns.{tick-Turned}

-- What others call before a tick, and what the tick meets.
abbrev pub Turn : Type 0 → Type 0
Turn P = List (Call P) × Meeting P

abbrev pub IsQuiet : {P : Type 0} → Turn P → Type 0
IsQuiet (before, (_, answer, meanwhile)) = All NoAck before × All NoAck meanwhile

module _ {S P : Type 0} (q : EventQueue S P) where
  -- The worker after the turns, the events that ticks reported as sent, those for which the gateway
  -- answered, and those that were added, each in their order.
  abbrev pub shipped : List (Turn P) → Worker S → Worker S × List P × List P × List P
  shipped [] w = (w, [], [], [])
  shipped ((before, meeting) ∷ turns) w =
      let w' = hear q before w in
      let (w'', result) = tick_raising q meeting w' in
      let (last, out, answered, new) = shipped turns w'' in
      (
        last,
        take (sent_of result) (q.waiting w'.store) ++ out,
        answered_by q meeting w' ++ answered,
        q.added before w.store ++ (heard_by q meeting w' ++ new),
      )

  module _ (IsSound : S → Type 0) (lawful : IsLawful q IsSound) where
    -- Over any turns of the sender and of the others, who add and retry but take nothing out, whatever the
    -- gateway answers and whatever raises: the events that the ticks reported as sent, followed by those
    -- that still wait, are those that waited at first followed by those that were added, each in its
    -- order; and the events reported as sent stand, in their order, among those for which the gateway
    -- answered 2xx, 400 or 422, so none leaves the queue before. This holds of every store that keeps the
    -- contract of a queue, from every sound state.
    pub shipped_at_least_once :
        (turns : List (Turn P)) (w : Worker S)
        → IsSound w.store
        → All IsQuiet turns
        → ((shipped turns w).1 ++ q.waiting (shipped turns w).0.store
            ≡ q.waiting w.store ++ (shipped turns w).3)
          × Sublist (shipped turns w).1 (shipped turns w).2
    shipped_at_least_once [] w sound quiet =
        (sym (append-nil (q.waiting w.store)), ∣ Sublistᴰ.slnil ∣₁)
    shipped_at_least_once ((before, (trouble, answer, meanwhile)) ∷ turns) w sound
          ((quiet, quiet'), rest) =
        let turned =
          tick-Turned q IsSound lawful (hear q before w) (lawful.others_sound before w.store sound)
            meanwhile quiet' trouble answer in
        let behind =
          shipped_at_least_once turns
            (tick_raising q (trouble, answer, meanwhile) (hear q before w)).0 turned.sound rest in
        (
          joined _ _ _ _ _ _ _ _ _ (lawful.others_add before w.store sound quiet) turned.balanced
              behind.0,
          Sublist.append turned.out_of behind.1,
        )
