-- ===== src/Coroutine/ReachTests.antt =====
-- Sessions in states that a manager reaches.
use cpp_p2pchat.Base.{inl, inr, ◌≡◌, ◌⊎◌, refl, true, [], ◌∷◌, ◌++◌, none, some, arith, pos}
use cpp_p2pchat.Std.Result.{undefined, dangling}
use cpp_p2pchat.Std.Exec.{modify}
use cpp_p2pchat.Std.Text.{codes}
use cpp_p2pchat.Std.UnorderedMap.{find, in_order}
use cpp_p2pchat.Message.{serialize, create_handshake_message}
use cpp_p2pchat.Coroutine.Objects.{
  Manager, make_session, make_manager, is_listed, is_held, release, add_session, destroyed,
  write_message, change, handed,
}
use cpp_p2pchat.Coroutine.Sessions.{resume}
use cpp_p2pchat.Coroutine.Manager.{
  Action, accept_round, start_accepting, connect_session, start_reading, start, accept, connect,
  deliver, act,
}
use cpp_p2pchat.Coroutine.Running.{Runs}
use cpp_p2pchat.Coroutine.Reachable.{Reach, begin, acted, Reach-listed, Reach-resumes}
use cpp_p2pchat.Coroutine.Calls.{act-deliver}
use cpp_p2pchat.Coroutine.Identity.{Reach-HasId}
use cpp_p2pchat.Coroutine.Greeting.{resume-greets}
use cpp_p2pchat.Coroutine.Tests.{shared, hello, greeting, greeting-IsSendable, filled}

-- a manager that has accepted a connection
abbrev started : Manager (Unit {0})
started = (act in_order (start true) (make_manager shared)).1

abbrev visited : Manager (Unit {0})
visited = (act in_order (accept (some none)) started).1

visited-Reach : Reach in_order visited
visited-Reach =
    acted (accept (some none)) started (acted (start true) (make_manager shared) (begin shared))

Reach-resumes_example : (resume (pos 6) 0 [] visited).0 ≡ undefined dangling
unfolding act modify accept_round start_accepting release is_held is_listed add_session make_manager
    make_session destroyed
Reach-resumes_example = Reach-resumes (pos 6) 0 [] visited in_order visited-Reach tt refl

-- A manager that has opened a connection, before and after the peer's handshake comes over it.
abbrev opened : Manager (Unit {0})
opened = (act in_order (connect (pos 5) (some none)) (make_manager shared)).1

abbrev introduced : Manager (Unit {0})
introduced = (act in_order (deliver (pos 6) 0 (serialize greeting ++ [])) opened).1

introduced-Reach : Reach in_order introduced
introduced-Reach =
    acted (deliver (pos 6) 0 (serialize greeting ++ [])) opened
      (acted (connect (pos 5) (some none)) (make_manager shared) (begin shared))

opened-Runs : Runs (opened.heap 0) × ((opened.heap 0).peer_id ≡ [])
unfolding act modify connect_session start_reading add_session make_manager make_session change
    handed write_message
opened-Runs = ((refl, refl, refl), refl)

introduced-find : find (codes "ann") introduced.sessions ≡ some 0
introduced-find =
    rw (act-deliver in_order (pos 6) 0 (serialize greeting ++ []) opened)
      (resume-greets (pos 6) 0 (codes "ann") (4 ∷ []) opened opened-Runs.0 opened-Runs.1 filled
        (pos 5) [] hello (omega arith) greeting-IsSendable tt).2

Reach-listed_example :
    ((introduced.heap 0).alive ≡ true)
    × ((introduced.heap 0).is_outgoing ≡ true)
    × ((codes "ann" ≡ []) ⊎ ((introduced.heap 0).peer_id ≡ codes "ann"))
Reach-listed_example =
    Reach-listed in_order introduced (codes "ann") 0 introduced-Reach introduced-find

introduced-HasId : ((introduced.heap 0).alive ≡ true) × ((introduced.heap 0).peer_id ≡ codes "ann")
introduced-HasId =
    let (alive, ours, named) =
      Reach-listed in_order introduced (codes "ann") 0 introduced-Reach introduced-find in
    (alive, elim named [ inl e ↦ absurd (filled e) | inr e ↦ e ])

-- The peer introduces itself again, by another name.
abbrev renaming : Action (Unit {0})
renaming = deliver (pos 7) 0 (serialize (create_handshake_message (pos 5) (codes "bob") []))

Reach-HasId_example : ((act in_order renaming introduced).1.heap 0).peer_id ≡ codes "ann"
Reach-HasId_example =
    Reach-HasId 0 (codes "ann") in_order renaming introduced introduced-Reach introduced-HasId.0
      filled introduced-HasId.1
