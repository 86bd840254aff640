-- ===== src/Coroutine/Tests.antt =====
-- Sessions on concrete managers and streams.
use cpp_p2pchat.Base.{◌≡◌, ◌≢◌, refl, true, false, [], ◌∷◌, ◌++◌, none, some, arith, pos}
use cpp_p2pchat.Std.Result.{Bytes, ok}
use cpp_p2pchat.Std.Text.{codes, str_eq}
use cpp_p2pchat.Std.UnorderedMap.{find, in_order}
use cpp_p2pchat.Message.{Message, text, serialize, create_handshake_message, fits_int64, be_bytes}
use cpp_p2pchat.PeerManager.{PeerInfo}
use cpp_p2pchat.Network.{Shared}
use cpp_p2pchat.Coroutine.Objects.{Manager, Session, is_listed}
use cpp_p2pchat.Coroutine.Reading.{read_message}
use cpp_p2pchat.Coroutine.Sessions.{end_session, handle_session_message, resume, run_session}
use cpp_p2pchat.Coroutine.Manager.{broadcast, listed_peers, accepts, drop_peer, send_to, stop_all}
use cpp_p2pchat.Coroutine.Arrivals.{Outcome, read_message-Outcome}
use cpp_p2pchat.Coroutine.Streams.{IsSendable}
use cpp_p2pchat.Coroutine.Effects.{heard}
use cpp_p2pchat.Coroutine.Handling.{met}
use cpp_p2pchat.Coroutine.Running.{
  wire, as_read, handled, Closes, run_session-serialized, run_session-Closes,
}
use cpp_p2pchat.Coroutine.Ending.{end_session-stays_listed, drop_peer-goes_on}
use cpp_p2pchat.Coroutine.Broadcasting.{send_each, broadcast-each}
use cpp_p2pchat.Coroutine.Stopping.{stop_all-closes}
use cpp_p2pchat.Coroutine.Greeting.{resume-greets}

abbrev self : PeerInfo
self = record {
  id = codes "me";
  address = [];
  port = 0;
  public_key = 4 ∷ [];
  is_connected = false;
  last_seen = pos 0;
}

abbrev pub shared : Shared (Unit {0})
shared = record { manager = record { peers = []; local_peer = self }; display = tt }

-- a connection that we opened, before and after its peer has introduced itself
abbrev fresh : Session
fresh = record {
  peer_id = [];
  is_outgoing = true;
  endpoint = some (codes "10.0.0.7", 5555);
  is_open = true;
  reading = true;
  alive = true;
  written = [];
}

abbrev ann : Session
ann = record fresh { peer_id = codes "ann" }

abbrev dialled : Manager (Unit {0})
dialled = record {
  shared = shared;
  message_handler = none;
  connection_handler = none;
  acceptor = some true;
  running = true;
  accept_loops = 1;
  sessions = [];
  heap = λ i. fresh;
  next_session = 1;
}

abbrev known : Manager (Unit {0})
known = record dialled { sessions = (codes "ann", 0) ∷ []; heap = λ i. ann }

abbrev pub hello : Message
hello = record { type = text; payload = codes "hello"; timestamp = pos 5 }

hello-IsSendable : IsSendable hello
hello-IsSendable = record {
  held = record { typed = tt; sized = omega arith; timed = unfold fits_int64 in refl };
  bounded = omega arith;
  small = ground arith;
}

run_session-serialized_example :
    run_session 3 (pos 6) 0 (wire (hello ∷ hello ∷ []) ++ []) dialled
    ≡ run_session 1 (pos 6) 0 [] (handled (pos 6) 0 (hello ∷ hello ∷ []) dialled)
run_session-serialized_example =
    run_session-serialized (pos 6) 0 (hello ∷ hello ∷ []) [] 1 3 dialled
      (hello-IsSendable, (hello-IsSendable, tt)) tt (refl, refl, refl) refl

pub filled : codes "ann" ≢ []
filled = cc

-- a text of two bytes, and another that breaks off
abbrev two_frames : Bytes
two_frames = 0 ∷ 0 ∷ 0 ∷ 0 ∷ 2 ∷ 0 ∷ 0 ∷ 0 ∷ 0 ∷ 0 ∷ 0 ∷ 0 ∷ 5 ∷ b'h' ∷ b'i' ∷ 0 ∷ 0 ∷ []

read_message-Outcome_example : Outcome two_frames (read_message two_frames)
read_message-Outcome_example = read_message-Outcome two_frames (ground arith)

run_session-Closes_example : Closes (pos 6) 0 (run_session 18 (pos 6) 0 two_frames dialled)
run_session-Closes_example =
    run_session-Closes (pos 6) 0 18 two_frames dialled (omega arith) (ground arith)
      (refl, refl, refl)

end_session-stays_listed_example :
    let e = end_session 0 known in
    (e.shared ≡ shared)
    × (find (codes "ann") e.sessions ≡ some 0)
    × ((send_to (codes "ann") hello e).heap 0 ≡ e.heap 0)
end_session-stays_listed_example =
    end_session-stays_listed (codes "ann") 0 known (unfold find str_eq in refl) refl filled hello 0

drop_peer-goes_on_example :
    let m = drop_peer (codes "ann") known in
    (find (codes "ann") m.sessions ≡ none)
    × (m.heap 0 ≡ ann)
    × (m.shared ≡ shared)
    × (handle_session_message (pos 6) 0 hello m
        ≡ record m { shared = heard m.message_handler (codes "ann") hello m.shared })
drop_peer-goes_on_example =
    drop_peer-goes_on (codes "ann") 0 known (unfold find str_eq in refl) refl filled (pos 6) hello
      refl refl

stop_all-closes_example :
    let m = stop_all in_order dialled in
    ((m.heap 0).is_open ≡ true) × (m.sessions ≡ []) × (accepts m ≡ false) × (m.shared ≡ shared)
unfolding is_listed
stop_all-closes_example = stop_all-closes in_order 0 dialled tt

abbrev pub greeting : Message
greeting = create_handshake_message (pos 5) (codes "ann") (4 ∷ [])

pub greeting-IsSendable : IsSendable greeting
unfolding create_handshake_message be_bytes
greeting-IsSendable = record {
  held = record { typed = tt; sized = omega arith; timed = unfold fits_int64 in refl };
  bounded = omega arith;
  small = ground arith;
}

resume-greets_example :
    let (r, m) = resume (pos 6) 0 (serialize greeting ++ []) dialled in
    (r ≡ ok [])
    × (m.shared
        ≡ heard none
            (codes "ann")
            (as_read greeting)
            (met (pos 6) 0 (codes "ann") (4 ∷ []) dialled))
    × (find (codes "ann") m.sessions ≡ some 0)
    × (((send_to (codes "ann") hello m).heap 0).written ≡ serialize hello ∷ (m.heap 0).written)
resume-greets_example =
    resume-greets (pos 6) 0 (codes "ann") (4 ∷ []) dialled (refl, refl, refl) refl filled (pos 5) []
      hello (omega arith) greeting-IsSendable tt

broadcast-each_example :
    broadcast in_order hello known ≡ send_each hello (listed_peers in_order known) known
broadcast-each_example = broadcast-each hello in_order known (unfold find in (refl, tt))
