-- ===== src/Cli/DisplayTests.antt =====
-- The display thread on concrete turns.
use cpp_p2pchat.Base.{suc, ◌≡◌, refl, false, List, [], ◌∷◌, Option, none, some}
use cpp_p2pchat.Std.Text.{codes}
use cpp_p2pchat.Cli.Display.{Line, system}
use cpp_p2pchat.Cli.DisplayThread.{
  asleep, falling_asleep, showing, ended, notified, go_on, display_from, Screen, first_screen, Turn,
  displays, queues, notifies, quits, clears, notifies_all, joins, display_turn, queue_turn,
  notify_turn, stop_turn, screen_turn, Shown, first, then_turn, settle,
}
use cpp_p2pchat.Cli.Stopping.{turns_stopped, Revives, settle-joins}
use cpp_p2pchat.Cli.Printing.{turns_left, settle-prints}

-- a list of turns, if each can be taken
abbrev take_screen_turns : List Turn → Screen → Option Screen
take_screen_turns [] s = some s
take_screen_turns (t ∷ ts) s = elim (screen_turn t s) [
  | none ↦ none
  | some d ↦ take_screen_turns ts d
]

abbrev started : Line
started = system (codes "P2P Chat System Started")

-- a line is queued before the thread's first turn
abbrev one_line : Screen
one_line = record first_screen { queue = started ∷ []; owed = 1 }

one_line-Shown : Shown (started ∷ []) one_line
unfolding screen_turn queue_turn
one_line-Shown = then_turn (queues started) first refl

settle-prints_example :
    let d = settle (turns_left one_line) one_line in
    (d.place ≡ asleep) × (d.queue ≡ []) × (d.printed ≡ started ∷ [])
settle-prints_example = settle-prints (started ∷ []) one_line one_line-Shown refl

-- `Stop` clears the flag and notifies while the thread is between its test and its wait: the thread
-- falls asleep, and no turn but a queued line's wakes it.
stop_unheard :
    let d = record first_screen { running = false; place = asleep; stopping = notified } in
    (take_screen_turns (displays ∷ displays ∷ clears ∷ notifies_all ∷ displays ∷ []) first_screen
      ≡ some d)
    × (screen_turn displays d ≡ none)
    × (screen_turn notifies d ≡ none)
    × (screen_turn joins d ≡ none)
unfolding screen_turn display_turn stop_turn notify_turn
stop_unheard = (refl, refl, refl, refl)

-- A line that is queued when the flag is cleared may never be printed.
last_line_lost :
    take_screen_turns (queues started ∷ quits ∷ displays ∷ []) first_screen
    ≡ some (record one_line { running = false; place = ended })
unfolding screen_turn display_turn queue_turn
last_line_lost = refl

-- The thread has tested the condition when the flag is cleared and the notification sent.
abbrev too_early : Screen
too_early = record first_screen { running = false; place = falling_asleep; stopping = notified }

settle-joins_example :
    let d = settle (suc (turns_stopped too_early)) too_early in
    (d.place ≡ asleep)
    × (go_on d ≡ none)
    × (screen_turn joins d ≡ none)
    × ((line : Line) → Revives line d)
settle-joins_example = settle-joins too_early refl refl

-- The thread is showing a line at that time, and another waits.
abbrev in_time : Screen
in_time = record too_early { place = showing started; queue = started ∷ [] }

in_time_joined : (settle 20 in_time).printed ≡ started ∷ started ∷ []
unfolding settle display_from
in_time_joined = refl
