-- ===== src/Cli/Resting.antt =====
-- The invariant of the display thread: where it sleeps, nothing waits for it.
use cpp_p2pchat.Base.{◌<◌, ◌≡◌, refl, false, List, [], some, arith, ◌⊎◌}
use cpp_p2pchat.Cli.Display.{Line}
use cpp_p2pchat.Cli.DisplayThread.{
  Place, testing, checking, falling_asleep, asleep, woken, draining, showing, ended, Stopping,
  Screen, Turn, displays, queues, notifies, quits, clears, notifies_all, joins, holds_lock, wake,
  display_from, display_turn, queue_turn, notify_turn, stop_turn, screen_turn, Shown, first,
  then_turn,
}

-- A thread that sleeps has nothing to print, or is about to be notified. It ends only after
-- `running` was cleared.
abbrev pub Rests : Place → Screen → Type 0
Rests asleep s = (s.queue ≡ []) ⊎ (0 < s.owed)
Rests falling_asleep s = s.queue ≡ []
Rests ended s = s.running ≡ false
Rests _ s = Unit {0}

pub display_from-Rests :
    (place : Place) (s d : Screen) → Rests place s → display_from place s ≡ some d → Rests d.place d
unfolding display_from
display_from-Rests testing s d h e = ground arith
display_from-Rests checking s d h e = ground arith
display_from-Rests falling_asleep s d h e = ground arith
display_from-Rests asleep s d h e = ground arith
display_from-Rests woken s d h e = ground arith
display_from-Rests draining s d h e = ground arith
display_from-Rests (showing line) s d h e = ground arith
display_from-Rests ended s d h e = ground arith

queue_turn-Rests :
    (line : Line) (place : Place) (s d : Screen)
    → s.place ≡ place
    → Rests place s
    → queue_turn line s ≡ some d
    → Rests d.place d
unfolding queue_turn holds_lock
queue_turn-Rests line place s d p h e = ground arith

pub notify_turn-Rests :
    (place : Place) (s d : Screen)
    → s.place ≡ place
    → Rests place s
    → notify_turn s ≡ some d
    → Rests d.place d
unfolding notify_turn wake
notify_turn-Rests place s d p h e = ground arith

stop_turn-Rests :
    (turn : Turn) (stopping : Stopping) (place : Place) (s d : Screen)
    → s.place ≡ place
    → Rests place s
    → stop_turn turn stopping s ≡ some d
    → Rests d.place d
unfolding stop_turn wake
stop_turn-Rests turn stopping place s d p h e = ground arith

quit-Rests :
    (place : Place) (s : Screen)
    → s.place ≡ place
    → Rests place s
    → Rests s.place (record s { running = false })
quit-Rests place s p h = ground arith

screen_turn-Rests :
    (turn : Turn) (s d : Screen) → Rests s.place s → screen_turn turn s ≡ some d → Rests d.place d
unfolding screen_turn display_turn
screen_turn-Rests displays s d h e = display_from-Rests s.place s d h e
screen_turn-Rests (queues line) s d h e = queue_turn-Rests line s.place s d refl h e
screen_turn-Rests notifies s d h e = notify_turn-Rests s.place s d refl h e
screen_turn-Rests quits s d h e = ground (arith, quit-Rests s.place s refl h)
screen_turn-Rests clears s d h e = stop_turn-Rests clears s.stopping s.place s d refl h e
screen_turn-Rests notifies_all s d h e =
    stop_turn-Rests notifies_all s.stopping s.place s d refl h e
screen_turn-Rests joins s d h e = stop_turn-Rests joins s.stopping s.place s d refl h e

pub Shown-Rests : {lines : List Line} {s : Screen} → Shown lines s → Rests s.place s
Shown-Rests first = tt
Shown-Rests (then_turn {s = s} {d = d} t r e) = screen_turn-Rests t s d (Shown-Rests r) e
