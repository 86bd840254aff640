-- ===== src/Cli/DisplayThread.antt =====
-- The display thread, the condition variable by which it is woken, and `Stop`, turn by turn.
use cpp_p2pchat.Base.{
  ℕ, zero, suc, ◌≡◌, Bool, true, false, List, [], ◌∷◌, ◌++◌, Option, none, some, if◌then◌else◌,
}
use cpp_p2pchat.Cli.Display.{Line}

-- Where the thread is: before the test of the outer loop; with the lock, before the test of the wait
-- or between that test and the wait itself; in the wait, asleep or woken; with the lock, before the
-- test of the inner loop; running a function that it took from the queue; at its end.
pub data Place : Type 0 where
  testing checking falling_asleep asleep woken draining : Place
  showing : Line → Place
  ended : Place

-- what `Stop` has done
pub data Stopping : Type 0 where
  not_yet cleared notified joined : Stopping

-- `owed`: the threads that have queued a line and not called `notify_one` yet.
pub record Screen : Type 0 where
  pub running : Bool
  pub queue : List Line
  pub printed : List Line
  pub place : Place
  pub owed : ℕ
  pub stopping : Stopping

-- `startDisplayThread`, after `running = true`
abbrev pub first_screen : Screen
first_screen = record {
  running = true;
  queue = [];
  printed = [];
  place = testing;
  owed = 0;
  stopping = not_yet;
}

pub data Turn : Type 0 where
  displays : Turn
  queues : Line → Turn
  notifies : Turn
  quits clears notifies_all joins : Turn

unfoldable pub holds_lock : Place → Bool
holds_lock checking = true
holds_lock falling_asleep = true
holds_lock draining = true
holds_lock _ = false

-- A notification wakes a thread that is asleep, and is otherwise lost.
unfoldable pub wake : Place → Place
wake asleep = woken
wake place = place

-- a turn of the display thread; asleep and at its end it has none
unfoldable pub display_from : Place → Screen → Option Screen
display_from testing s = some (record s { place = if s.running then checking else ended })
display_from checking s = elim s.queue [
  | [] ↦ some (record s { place = if s.running then falling_asleep else draining })
  | line ∷ rest ↦ some (record s { place = draining })
]
display_from falling_asleep s = some (record s { place = asleep })
display_from asleep s = none
display_from woken s = some (record s { place = checking })
display_from draining s = elim s.queue [
  | [] ↦ some (record s { place = testing })
  | line ∷ rest ↦ some (record s { queue = rest; place = showing line })
]
display_from (showing line) s =
    some (record s { printed = s.printed ++ line ∷ []; place = draining })
display_from ended s = none

unfoldable pub display_turn : Screen → Option Screen
unfolding display_from
display_turn s = display_from s.place s

-- `queueDisplay`, up to its call of `notify_one`; the thread waits for the lock
unfoldable pub queue_turn : Line → Screen → Option Screen
unfolding holds_lock
queue_turn line s =
    if holds_lock s.place
    then none
    else some (record s { queue = s.queue ++ line ∷ []; owed = suc s.owed })

-- `displayCv.notify_one()`
unfoldable pub notify_turn : Screen → Option Screen
unfolding wake
notify_turn s = elim s.owed [
  | zero ↦ none
  | suc n ↦ some (record s { owed = n; place = wake s.place })
]

-- `running = false` and `notify_all()`, without the lock, and the join
unfoldable pub stop_turn : Turn → Stopping → Screen → Option Screen
unfolding wake
stop_turn clears not_yet s = some (record s { running = false; stopping = cleared })
stop_turn notifies_all cleared s = some (record s { place = wake s.place; stopping = notified })
stop_turn joins notified s = elim s.place [
  | ended ↦ some (record s { stopping = joined })
  | _ ↦ none
]
stop_turn turn stopping s = none

-- `quits` is the assignment of `HandleQuit`.
unfoldable pub screen_turn : Turn → Screen → Option Screen
unfolding display_turn queue_turn notify_turn stop_turn
screen_turn displays s = display_turn s
screen_turn (queues line) s = queue_turn line s
screen_turn notifies s = notify_turn s
screen_turn quits s = some (record s { running = false })
screen_turn turn s = stop_turn turn s.stopping s

abbrev pub queued_by : Turn → List Line
queued_by (queues line) = line ∷ []
queued_by _ = []

-- the states that the threads' turns lead to, with the lines that they queued
pub data Shown : List Line → Screen → Type 0 where
  first : Shown [] first_screen
  then_turn :
      {lines : List Line} {s d : Screen} (t : Turn)
      → Shown lines s
      → screen_turn t s ≡ some d
      → Shown (lines ++ queued_by t) d

-- the thread's turn, or a notification if it has none
unfoldable pub go_on : Screen → Option Screen
unfolding display_turn notify_turn
go_on s = elim (display_turn s) [ some d ↦ some d | none ↦ notify_turn s ]

-- as many such turns as there are, up to a number
unfoldable pub settle : ℕ → Screen → Screen
unfolding go_on
settle zero s = s
settle (suc n) s = elim (go_on s) [ none ↦ s | some d ↦ settle n d ]
