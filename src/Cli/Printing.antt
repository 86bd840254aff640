-- ===== src/Cli/Printing.antt =====
-- Every line that is queued is printed while the command line runs: no wake-up is lost.
use cpp_p2pchat.Base.{
  ℕ, zero, suc, ◌+◌, ◌*◌, ◌<◌, ◌≤◌, ◌≡◌, refl, ap, sym, ◌∙◌, true, List, [], ◌∷◌, ◌++◌, none, some,
  length, arith, inl, inr, Option-cases, append-nil, append_assoc,
}
use cpp_p2pchat.Cli.Display.{Line}
use cpp_p2pchat.Cli.DisplayThread.{
  Place, testing, checking, falling_asleep, asleep, woken, draining, showing, ended, Stopping,
  Screen, Turn, displays, queues, notifies, quits, clears, notifies_all, joins, wake, display_from,
  display_turn, queue_turn, notify_turn, stop_turn, screen_turn, queued_by, Shown, first, then_turn,
  go_on, settle,
}
use cpp_p2pchat.Cli.Resting.{Rests, display_from-Rests, notify_turn-Rests, Shown-Rests}

abbrev pub in_flight : Place → List Line
in_flight (showing line) = line ∷ []
in_flight _ = []

-- the lines of all times, in order: printed, being printed, and waiting
abbrev pub all_shown : Screen → List Line
all_shown s = s.printed ++ (in_flight s.place ++ s.queue)

-- how many turns the display thread has left until it sleeps, if nothing is queued meanwhile
abbrev pub rank : Place → ℕ → ℕ
rank testing zero = 4
rank testing (suc n) = 2 * n + 9
rank checking zero = 3
rank checking (suc n) = 2 * n + 8
rank falling_asleep n = 2 * n + 2
rank asleep n = 2 * n + 1
rank woken zero = 4
rank woken (suc n) = 2 * n + 9
rank draining n = 2 * n + 5
rank (showing line) n = 2 * n + 6
rank ended n = 0

abbrev pub turns_left : Screen → ℕ
turns_left s = rank s.place (length s.queue) + 7 * s.owed

-- What a turn of the thread or a notification does while the command line runs.
abbrev Advances : Screen → Screen → Type 0
Advances s d =
    (d.running ≡ true)
    × Rests d.place d
    × (all_shown d ≡ all_shown s)
    × (turns_left d < turns_left s)

display_from-left :
    (place : Place) (s d : Screen)
    → s.place ≡ place
    → s.running ≡ true
    → Rests place s
    → display_from place s ≡ some d
    → (d.running ≡ true) × (turns_left d < turns_left s)
unfolding display_from
display_from-left testing s d p h w e = ground arith
display_from-left checking s d p h w e = ground arith
display_from-left falling_asleep s d p h w e = ground arith
display_from-left asleep s d p h w e = ground arith
display_from-left woken s d p h w e = ground arith
display_from-left draining s d p h w e = ground arith
display_from-left (showing line) s d p h w e = ground arith
display_from-left ended s d p h w e = ground arith

notify_turn-left :
    (place : Place) (s d : Screen)
    → s.place ≡ place
    → s.running ≡ true
    → notify_turn s ≡ some d
    → (d.running ≡ true) × (turns_left d < turns_left s) × (all_shown d ≡ all_shown s)
unfolding notify_turn wake
notify_turn-left place s d p h e = ground arith

display_from-shown :
    (place : Place) (s d : Screen)
    → s.place ≡ place
    → display_from place s ≡ some d
    → all_shown d ≡ all_shown s
unfolding display_from
display_from-shown testing s d p e = ground arith
display_from-shown checking s d p e = ground arith
display_from-shown falling_asleep s d p e = ground arith
display_from-shown asleep s d p e = ground arith
display_from-shown woken s d p e = ground arith
display_from-shown draining s d p e = ground arith
display_from-shown (showing line) s d p e =
    ground (arith, append_assoc s.printed (line ∷ []) s.queue)
display_from-shown ended s d p e = ground arith

display_turn-Advances :
    (s d : Screen) → s.running ≡ true → Rests s.place s → display_turn s ≡ some d → Advances s d
unfolding display_turn
display_turn-Advances s d running rests e =
    let left = display_from-left s.place s d refl running rests e in
    (left.0, display_from-Rests s.place s d rests e, display_from-shown s.place s d refl e, left.1)

notify_turn-Advances :
    (s d : Screen) → s.running ≡ true → Rests s.place s → notify_turn s ≡ some d → Advances s d
notify_turn-Advances s d running rests e =
    let left = notify_turn-left s.place s d refl running e in
    (left.0, notify_turn-Rests s.place s d refl rests e, left.2, left.1)

go_on-Advances :
    (s d : Screen) → s.running ≡ true → Rests s.place s → go_on s ≡ some d → Advances s d
unfolding go_on
go_on-Advances s d running rests e = elim (Option-cases (display_turn s)) [
  | inl none_left ↦ notify_turn-Advances s d running rests (ground (arith, none_left, e))
  | inr (d', found) ↦ display_turn-Advances s d running rests (ground (arith, found, e))
]

resting :
    (place : Place) (s : Screen)
    → s.running ≡ true
    → Rests place s
    → display_from place s ≡ none
    → s.owed ≡ 0
    → (place ≡ asleep) × (s.queue ≡ [])
unfolding display_from
resting testing s running rests e o = ground arith
resting checking s running rests e o = ground arith
resting falling_asleep s running rests e o = ground arith
resting asleep s running rests e o = ground arith
resting woken s running rests e o = ground arith
resting draining s running rests e o = ground arith
resting (showing line) s running rests e o = ground arith
resting ended s running rests e o = ground arith

-- A thread that has no turn left sleeps, and has nothing to print.
go_on-none :
    (s : Screen)
    → s.running ≡ true
    → Rests s.place s
    → go_on s ≡ none
    → (s.place ≡ asleep) × (s.queue ≡ [])
unfolding go_on display_turn notify_turn
go_on-none s running rests e =
    resting s.place s running rests (ground (arith, e)) (ground (arith, e))

rank-positive :
    (place : Place) (s : Screen) (n : ℕ) → s.running ≡ true → Rests place s → 0 < rank place n
rank-positive testing s zero running rests = omega arith
rank-positive testing s (suc n) running rests = omega arith
rank-positive checking s zero running rests = omega arith
rank-positive checking s (suc n) running rests = omega arith
rank-positive falling_asleep s n running rests = omega arith
rank-positive asleep s n running rests = omega arith
rank-positive woken s zero running rests = omega arith
rank-positive woken s (suc n) running rests = omega arith
rank-positive draining s n running rests = omega arith
rank-positive (showing line) s n running rests = omega arith
rank-positive ended s n running rests = cc

pub settle-none : (n : ℕ) (s : Screen) → go_on s ≡ none → settle (suc n) s ≡ s
unfolding settle
settle-none n s e = rw (e, settle) refl

pub settle-some : (n : ℕ) (s d : Screen) → go_on s ≡ some d → settle (suc n) s ≡ settle n d
unfolding settle
settle-some n s d e = rw (e, settle) refl

-- The thread came to rest, and no line is lost or out of order.
abbrev Settled : Screen → Screen → Type 0
Settled s d = (d.place ≡ asleep) × (d.queue ≡ []) × (all_shown d ≡ all_shown s)

settle-Settled :
    (n : ℕ) (s : Screen)
    → s.running ≡ true
    → Rests s.place s
    → turns_left s ≤ n
    → Settled s (settle n s)
settle-Settled zero s running rests small =
    absurd (omega (arith, rank-positive s.place s (length s.queue) running rests))
settle-Settled (suc n) s running rests small = elim (Option-cases (go_on s)) [
  | inl e ↦ let rest = go_on-none s running rests e in rw (settle-none n s e) (rest.0, rest.1, refl)
  | inr (d, e) ↦
      let ahead = go_on-Advances s d running rests e in
      let settled = settle-Settled n d ahead.0 ahead.1 (omega (arith, ahead.3)) in
      rw (settle-some n s d e) (settled.0, settled.1, settled.2 ∙ ahead.2)
]

queue_turn-shown :
    (line : Line) (s d : Screen)
    → queue_turn line s ≡ some d
    → all_shown d ≡ all_shown s ++ line ∷ []
unfolding queue_turn
queue_turn-shown line s d e = ground (
  arith,
  append_assoc s.printed (in_flight s.place ++ s.queue) (line ∷ []),
  append_assoc (in_flight s.place) s.queue (line ∷ []),
)

wake-in_flight : (place : Place) → in_flight (wake place) ≡ in_flight place
unfolding wake
wake-in_flight place = ground arith

notify_turn-shown : (s d : Screen) → notify_turn s ≡ some d → all_shown d ≡ all_shown s
unfolding notify_turn
notify_turn-shown s d e = ground (arith, wake-in_flight s.place)

stop_turn-shown :
    (turn : Turn) (stopping : Stopping) (s d : Screen)
    → stop_turn turn stopping s ≡ some d
    → all_shown d ≡ all_shown s
unfolding stop_turn
stop_turn-shown turn stopping s d e = ground (arith, wake-in_flight s.place)

screen_turn-shown :
    (turn : Turn) (s d : Screen)
    → screen_turn turn s ≡ some d
    → all_shown d ≡ all_shown s ++ queued_by turn
unfolding screen_turn display_turn
screen_turn-shown displays s d e =
    display_from-shown s.place s d refl e ∙ sym (append-nil (all_shown s))
screen_turn-shown (queues line) s d e = queue_turn-shown line s d e
screen_turn-shown notifies s d e = notify_turn-shown s d e ∙ sym (append-nil (all_shown s))
screen_turn-shown quits s d e = ground (arith, append-nil (all_shown s))
screen_turn-shown clears s d e =
    stop_turn-shown clears s.stopping s d e ∙ sym (append-nil (all_shown s))
screen_turn-shown notifies_all s d e =
    stop_turn-shown notifies_all s.stopping s d e ∙ sym (append-nil (all_shown s))
screen_turn-shown joins s d e =
    stop_turn-shown joins s.stopping s d e ∙ sym (append-nil (all_shown s))

Shown-lines : {lines : List Line} {s : Screen} → Shown lines s → all_shown s ≡ lines
Shown-lines first = refl
Shown-lines (then_turn {s = s} {d = d} t r e) =
    screen_turn-shown t s d e ∙ ap (λ l. l ++ queued_by t) (Shown-lines r)

all_printed : (d : Screen) → d.place ≡ asleep → d.queue ≡ [] → d.printed ≡ all_shown d
all_printed d p q = ground (arith, append-nil d.printed)

-- In every state that the threads can reach while the command line runs, whatever they queued and
-- however they took turns: if the display thread goes on, and is notified where a notification is
-- due, then after at most the number of turns that `turns_left` gives it sleeps, the queue is empty,
-- and the lines that were printed are all that were queued, in order.
pub settle-prints :
    (lines : List Line) (s : Screen)
    → Shown lines s
    → s.running ≡ true
    → let d = settle (turns_left s) s in (d.place ≡ asleep) × (d.queue ≡ []) × (d.printed ≡ lines)
settle-prints lines s shown running =
    let d = settle (turns_left s) s in
    let settled = settle-Settled (turns_left s) s running (Shown-Rests shown) (omega arith) in
    (settled.0, settled.1, all_printed d settled.0 settled.1 ∙ settled.2 ∙ Shown-lines shown)
