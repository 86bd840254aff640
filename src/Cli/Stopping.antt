-- ===== src/Cli/Stopping.antt =====
-- When the join of `CLIInterface::Stop` returns.
use cpp_p2pchat.Base.{
  ℕ, zero, suc, ◌+◌, ◌*◌, ◌<◌, ◌≤◌, ◌≡◌, refl, ◌∙◌, Bool, true, false, ◌&&◌, ◌==◌, [], ◌∷◌, ◌++◌,
  none, some, if◌then◌else◌, length, arith, inl, inr, Option-cases,
}
use cpp_p2pchat.Cli.Display.{Line}
use cpp_p2pchat.Cli.DisplayThread.{
  Place, testing, checking, falling_asleep, asleep, woken, draining, showing, ended, notified,
  joined, Screen, joins, wake, display_from, display_turn, notify_turn, queue_turn, holds_lock,
  stop_turn, screen_turn, go_on, settle,
}
use cpp_p2pchat.Cli.Printing.{settle-none, settle-some}

abbrev is_resting : Place → Bool
is_resting falling_asleep = true
is_resting asleep = true
is_resting _ = false

-- The thread sleeps or is about to, and nobody is about to notify it.
abbrev pub unheard : Screen → Bool
unheard s = is_resting s.place && s.owed == 0

-- how many turns the display thread has left once the flag is cleared
abbrev pub rank_stopped : Place → ℕ → ℕ
rank_stopped testing n = 1
rank_stopped checking n = 2 * n + 6
rank_stopped falling_asleep n = 2 * n + 2
rank_stopped asleep n = 2 * n + 1
rank_stopped woken n = 2 * n + 7
rank_stopped draining n = 2 * n + 5
rank_stopped (showing line) n = 2 * n + 6
rank_stopped ended n = 0

abbrev pub turns_stopped : Screen → ℕ
turns_stopped s = rank_stopped s.place (length s.queue) + 7 * s.owed

abbrev Closes : Screen → Screen → Type 0
Closes s d =
    (d.running ≡ false)
    × (d.stopping ≡ s.stopping)
    × (unheard d ≡ unheard s)
    × (turns_stopped d < turns_stopped s)

display_from-Closes :
    (place : Place) (s d : Screen)
    → s.place ≡ place
    → s.running ≡ false
    → display_from place s ≡ some d
    → Closes s d
unfolding display_from
display_from-Closes testing s d p h e = ground arith
display_from-Closes checking s d p h e = ground arith
display_from-Closes falling_asleep s d p h e = ground arith
display_from-Closes asleep s d p h e = ground arith
display_from-Closes woken s d p h e = ground arith
display_from-Closes draining s d p h e = ground arith
display_from-Closes (showing line) s d p h e = ground arith
display_from-Closes ended s d p h e = ground arith

notify_turn-Closes :
    (place : Place) (s d : Screen)
    → s.place ≡ place
    → display_from place s ≡ none
    → s.running ≡ false
    → notify_turn s ≡ some d
    → Closes s d
unfolding notify_turn wake display_from
notify_turn-Closes testing s d p n h e = ground arith
notify_turn-Closes checking s d p n h e = ground arith
notify_turn-Closes falling_asleep s d p n h e = ground arith
notify_turn-Closes asleep s d p n h e = ground arith
notify_turn-Closes woken s d p n h e = ground arith
notify_turn-Closes draining s d p n h e = ground arith
notify_turn-Closes (showing line) s d p n h e = ground arith
notify_turn-Closes ended s d p n h e = ground arith

go_on-Closes : (s d : Screen) → s.running ≡ false → go_on s ≡ some d → Closes s d
unfolding go_on display_turn
go_on-Closes s d stopped e = elim (Option-cases (display_from s.place s)) [
  | inl none_left ↦
      notify_turn-Closes s.place s d refl none_left stopped (ground (arith, none_left, e))
  | inr (d', found) ↦ display_from-Closes s.place s d refl stopped (ground (arith, found, e))
]

-- how the join stands where no thread has a turn left
abbrev pub Joins : Bool → Screen → Type 0
Joins sleeps d =
    if sleeps
    then (d.place ≡ asleep) × (go_on d ≡ none) × (screen_turn joins d ≡ none)
    else (d.place ≡ ended) × (screen_turn joins d ≡ some (record d { stopping = joined }))

at_rest :
    (place : Place) (s : Screen)
    → s.place ≡ place
    → s.stopping ≡ notified
    → display_from place s ≡ none
    → s.owed ≡ 0
    → go_on s ≡ none
    → Joins (unheard s) s
unfolding display_from screen_turn stop_turn
at_rest testing s p h n o e = ground arith
at_rest checking s p h n o e = ground arith
at_rest falling_asleep s p h n o e = ground arith
at_rest asleep s p h n o e = ground arith
at_rest woken s p h n o e = ground arith
at_rest draining s p h n o e = ground arith
at_rest (showing line) s p h n o e = ground arith
at_rest ended s p h n o e = ground arith

turnless : (s : Screen) → go_on s ≡ none → (display_from s.place s ≡ none) × (s.owed ≡ 0)
unfolding go_on display_turn notify_turn
turnless s e = ground (arith, e)

no_turns :
    (n : ℕ) (s : Screen)
    → s.stopping ≡ notified
    → go_on s ≡ none
    → Joins (unheard s) (settle (suc n) s)
no_turns n s heard e =
    rw (settle-none n s e) (at_rest s.place s refl heard (turnless s e).0 (turnless s e).1 e)

settle-Joins :
    (n : ℕ) (s : Screen)
    → s.running ≡ false
    → s.stopping ≡ notified
    → turns_stopped s ≤ n
    → Joins (unheard s) (settle (suc n) s)
settle-Joins zero s stopped heard small = elim (Option-cases (go_on s)) [
  | inl e ↦ no_turns zero s heard e
  | inr (d, e) ↦ absurd (omega (arith, (go_on-Closes s d stopped e).3))
]
settle-Joins (suc n) s stopped heard small = elim (Option-cases (go_on s)) [
  | inl e ↦ no_turns (suc n) s heard e
  | inr (d, e) ↦
      let closes = go_on-Closes s d stopped e in
      rw (settle-some (suc n) s d e, ← closes.2)
        (settle-Joins n d closes.0 (closes.1 ∙ heard) (omega (arith, closes.3)))
]

-- the flag and how far `Stop` is stay
settle-kept :
    (n : ℕ) (s : Screen)
    → s.running ≡ false
    → ((settle n s).running ≡ false) × ((settle n s).stopping ≡ s.stopping)
unfolding settle
settle-kept zero s stopped = (stopped, refl)
settle-kept (suc n) s stopped = elim (Option-cases (go_on s)) [
  | inl e ↦ rw (settle-none n s e) (stopped, refl)
  | inr (d, e) ↦
      let closes = go_on-Closes s d stopped e in
      let rest = settle-kept n d closes.0 in rw (settle-some n s d e) (rest.0, rest.1 ∙ closes.1)
]

-- Another line is queued while the display thread sleeps, and the threads go on.
abbrev pub revived : Line → Screen → Screen
revived line d = record d { queue = d.queue ++ line ∷ []; owed = suc d.owed }

unheard-revived : (line : Line) (d : Screen) → unheard (revived line d) ≡ false
unheard-revived line d = ground arith

queue_turn-asleep :
    (line : Line) (d : Screen) → d.place ≡ asleep → queue_turn line d ≡ some (revived line d)
unfolding queue_turn holds_lock
queue_turn-asleep line d h = ground arith

revives :
    (line : Line) (d : Screen)
    → d.running ≡ false
    → d.stopping ≡ notified
    → let e = settle (suc (turns_stopped (revived line d))) (revived line d) in
      (e.place ≡ ended) × (screen_turn joins e ≡ some (record e { stopping = joined }))
revives line d off heard =
    rw (unheard-revived line d) at
      (settle-Joins (turns_stopped (revived line d)) (revived line d) off heard (omega arith))

-- A line can be queued, and once it is, the thread comes to its end and the join returns.
abbrev pub Revives : Line → Screen → Type 0
Revives line d =
    let e = settle (suc (turns_stopped (revived line d))) (revived line d) in
    (queue_turn line d ≡ some (revived line d))
    × (e.place ≡ ended)
    × (screen_turn joins e ≡ some (record e { stopping = joined }))

-- the two ways in which the join turns out
abbrev pub JoinsOrWaits : Bool → Screen → Type 0
JoinsOrWaits sleeps d =
    if sleeps
    then (d.place ≡ asleep)
      × (go_on d ≡ none)
      × (screen_turn joins d ≡ none)
      × ((line : Line) → Revives line d)
    else (d.place ≡ ended) × (screen_turn joins d ≡ some (record d { stopping = joined }))

with_revival :
    (sleeps : Bool) (d : Screen)
    → d.running ≡ false
    → d.stopping ≡ notified
    → Joins sleeps d
    → JoinsOrWaits sleeps d
with_revival true d off heard h = (
  h.0,
  h.1,
  h.2,
  λ line. let e = revives line d off heard in (queue_turn-asleep line d h.0, e.0, e.1),
)
with_revival false d off heard h = h

-- When `Stop` has cleared the flag and notified, and the threads go on, the join turns out in one of
-- two ways. If the display thread sleeps, or has tested the condition and is about to sleep, and no
-- other thread is still to notify it, it is asleep in the end with no turn left to it or to a
-- notification, and the join waits, until some thread queues another line: then the display thread
-- comes to its end, and the join returns. Otherwise the display thread comes to its end after at most
-- the number of turns that `turns_stopped` gives, and the join returns.
pub settle-joins :
    (s : Screen)
    → s.running ≡ false
    → s.stopping ≡ notified
    → JoinsOrWaits (unheard s) (settle (suc (turns_stopped s)) s)
settle-joins s stopped heard =
    let kept = settle-kept (suc (turns_stopped s)) s stopped in
    with_revival (unheard s) (settle (suc (turns_stopped s)) s) kept.0 (kept.1 ∙ heard)
      (settle-Joins (turns_stopped s) s stopped heard (omega arith))
