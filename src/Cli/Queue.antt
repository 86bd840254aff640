-- ===== src/Cli/Queue.antt =====
-- The display queue: the order in which lines are printed.
use cpp_p2pchat.Base.{◌≡◌, refl, ap, List, [], ◌∷◌, ◌++◌, append_assoc, append-nil, arith, sym, ℤ}
use cpp_p2pchat.Network.{Shared}
use cpp_p2pchat.Cli.Display.{Line, Console, queue_display, display_front}

-- What the threads do to the queue: some thread queues a line, or the display thread prints one.
pub data Turn : Type 0 where
  queues : Line → Turn
  prints : Turn

unfoldable pub take_turn : Turn → Shared Console → Shared Console
unfolding queue_display display_front
take_turn (queues line) shared = queue_display line shared
take_turn prints shared = record shared { display = display_front shared.display }

unfoldable pub take_turns : List Turn → Shared Console → Shared Console
unfolding take_turn
take_turns [] shared = shared
take_turns (t ∷ ts) shared = take_turns ts (take_turn t shared)

-- the lines that the turns queue
unfoldable pub queued : List Turn → List Line
queued [] = []
queued (queues line ∷ ts) = line ∷ queued ts
queued (prints ∷ ts) = queued ts

-- all lines, first those that are printed
abbrev pub all_lines : Shared Console → List Line
all_lines shared = shared.display.printed ++ shared.display.queue

printed_first :
    (printed queue : List Line) (clock : ℤ)
    → let console = display_front (record { queue = queue; printed = printed; clock = clock }) in
      console.printed ++ console.queue ≡ printed ++ queue
unfolding display_front
printed_first printed [] clock = refl
printed_first printed (line ∷ queue) clock = append_assoc printed (line ∷ []) queue

-- However the threads take turns, the lines that are printed, followed by those that still wait, are
-- the lines from before and then the new ones in the order in which they were queued: none is lost,
-- printed twice, or printed before one that was queued earlier.
pub take_turns-order :
    (ts : List Turn) (shared : Shared Console)
    → all_lines (take_turns ts shared) ≡ all_lines shared ++ queued ts
unfolding take_turns queued
take_turns-order [] shared = sym (append-nil (all_lines shared))
take_turns-order (queues line ∷ ts) shared =
    rw (take_turns-order ts (take_turn (queues line) shared))
      (unfold take_turn in (grind (arith, append_assoc)))
take_turns-order (prints ∷ ts) shared =
    let d = shared.display in
    rw (take_turns-order ts (take_turn prints shared))
      (unfold take_turn in (ap (λ l. l ++ queued ts) (printed_first d.printed d.queue d.clock)))
