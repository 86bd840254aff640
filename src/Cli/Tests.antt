-- ===== src/Cli/Tests.antt =====
-- The command line on concrete input.
use cpp_p2pchat.Base.{◌≡◌, ◌≢◌, refl, true, false, List, [], ◌∷◌, some, arith, pos}
use cpp_p2pchat.Std.Result.{Bytes, ok, throw, undefined, relock, invalid_argument}
use cpp_p2pchat.Std.Text.{codes, str_eq, str_eq_iff, is_space}
use cpp_p2pchat.Std.Numbers.{stoul, magnitude, take_prefix, take_sign, skip_space}
use cpp_p2pchat.Std.UnorderedMap.{in_order, find, insert}
use cpp_p2pchat.Message.{serialize, create_text_message, create_handshake_message, fits_int64}
use cpp_p2pchat.PeerManager.{PeerInfo, get_peer}
use cpp_p2pchat.PeerManager.Lookup.{IsValid}
use cpp_p2pchat.Network.{Platform, arrived, route_round}
use cpp_p2pchat.Network.Broadcasting.{routed, AreRecipients}
use cpp_p2pchat.Cli.Display.{
  system, success, outgoing, incoming, Cli, queue_display, on_message, on_connection,
}
use cpp_p2pchat.Cli.Words.{add_word, first_word, parse_command, join_words}
use cpp_p2pchat.Cli.Commands.{
  commands, handle_connect, handle_quit, handle_send, process_command, main_loop,
}
use cpp_p2pchat.Cli.Splitting.{IsWord, parse_command-join_words, parse_command-rejoined}
use cpp_p2pchat.Cli.Queue.{queues, prints, take_turns, queued, all_lines, take_turns-order}
use cpp_p2pchat.Cli.Safety.{process_command-no_throw}
use cpp_p2pchat.Cli.Outcomes.{invalid_port, handle_connect-outcome, main_loop-quits}
use cpp_p2pchat.Cli.Arrivals.{route_round-text, route_round-greets}
use cpp_p2pchat.Cli.Saying.{broadcast_line, handle_send-only_displays, process_command-says}

abbrev willing : Platform
willing = record {
  accepts = λ h c. true;
  sockets_order = in_order;
  peers_order = in_order;
  stray_port = 7;
}

abbrev ann : PeerInfo
ann = record {
  id = codes "ann";
  address = [];
  port = 0;
  public_key = [];
  is_connected = true;
  last_seen = pos 3;
}

-- a command line at work, with one peer that is connected
abbrev at_work : Cli
at_work = record {
  network = record {
    shared = record {
      manager = record { peers = (codes "ann", ann) ∷ []; local_peer = ann };
      display = record { queue = []; printed = []; clock = pos 6 };
    };
    message_handler = some on_message;
    connection_handler = some on_connection;
    router_socket = some 0;
    dealer_sockets = [];
    locked = false;
    running = true;
    router_thread = true;
    poller_thread = true;
    listen_port = 5555;
    next_socket = 1;
    history = [];
  };
  running = true;
}

abbrev phrase : List Bytes
phrase = codes "send" ∷ codes "bob" ∷ codes "hi" ∷ []

phrase-IsWord : (IsWord (codes "send")) × (IsWord (codes "bob") × (IsWord (codes "hi") × Unit {0}))
unfolding is_space
phrase-IsWord = (
  ((λ e. ground arith), (refl, (refl, (refl, (refl, tt))))),
  (
    ((λ e. ground arith), (refl, (refl, (refl, tt)))),
    (((λ e. ground arith), (refl, (refl, tt))), tt),
  ),
)

parse_command-join_words_run : parse_command (join_words phrase) ≡ phrase
parse_command-join_words_run = parse_command-join_words phrase phrase-IsWord

parse_command_test : parse_command (codes "  send\tbob  hi ") ≡ phrase
unfolding parse_command first_word add_word is_space
parse_command_test = refl

parse_command-rejoined_run :
    parse_command (join_words (parse_command (codes " a  b "))) ≡ parse_command (codes " a  b ")
parse_command-rejoined_run = parse_command-rejoined (codes " a  b ")

two_lines_in_order :
    all_lines
      (take_turns (queues invalid_port ∷ prints ∷ queues (system []) ∷ []) at_work.network.shared)
    ≡ invalid_port ∷ system [] ∷ []
unfolding queued
two_lines_in_order =
    take_turns-order (queues invalid_port ∷ prints ∷ queues (system []) ∷ []) at_work.network.shared

process_command-no_throw_example :
    (process_command willing (codes "connect a b") at_work).0 ≢ throw invalid_argument
process_command-no_throw_example =
    process_command-no_throw willing (codes "connect a b") at_work invalid_argument

-- The command never returns, since ZeroMQ takes every call.
handle_connect-outcome_example :
    (handle_connect willing (codes "connect" ∷ codes "a" ∷ codes "80" ∷ []) at_work).0
    ≡ undefined relock
unfolding stoul magnitude take_prefix take_sign skip_space
handle_connect-outcome_example =
    handle_connect-outcome willing at_work (codes "connect") (codes "a") (codes "80") [] refl 80
      refl

main_loop-quits_run :
    (main_loop willing (codes " exit" ∷ codes "list" ∷ []) at_work ≡ handle_quit at_work)
    × ((handle_quit at_work).0 ≡ ok tt)
    × ((handle_quit at_work).1.running ≡ false)
unfolding parse_command find commands is_space insert str_eq
main_loop-quits_run =
    main_loop-quits willing at_work (codes " exit") (codes "exit") [] (codes "list" ∷ []) refl refl
      refl

route_round-text_example :
    route_round willing
      (pos 5)
      (arrived (codes "ann", serialize (create_text_message (pos 4) (codes "hi"))))
      at_work.network
    ≡ (
      ok tt,
      record at_work.network {
        shared = record at_work.network.shared {
          display = record at_work.network.shared.display {
            queue = incoming (codes "ann") (codes "hi") ∷ [];
          };
        };
      },
    )
route_round-text_example =
    route_round-text willing (pos 5) at_work.network (pos 4) (codes "ann") (codes "hi")
      (omega arith) (unfold fits_int64 in refl) refl

route_round-greets_example :
    let frame = serialize (create_handshake_message (pos 4) (codes "bob") (9 ∷ [])) in
    let (r, m) = route_round willing (pos 5) (arrived (codes "bob", frame)) at_work.network in
    (r ≡ ok tt)
    × (get_peer (codes "bob") m.shared.manager
        ≡ some (record {
          id = codes "bob";
          address = [];
          port = 7;
          public_key = 9 ∷ [];
          is_connected = true;
          last_seen = pos 6;
        }))
    × (m.shared.display.queue
        ≡ success (codes "Connected to peer: bob")
          ∷ system (codes "Handshake received from bob")
          ∷ [])
route_round-greets_example =
    route_round-greets willing (pos 5) at_work.network (pos 4) (codes "bob") (9 ∷ []) (omega arith)
      (omega arith) (unfold fits_int64 in refl) (ground arith) refl refl

handle_send-only_displays_run : handle_send willing phrase at_work ≡ (
  ok tt,
  record at_work {
    network = record at_work.network {
      shared = queue_display (outgoing (codes "bob") (codes "hi")) at_work.network.shared;
    };
  },
)
unfolding join_words
handle_send-only_displays_run =
    handle_send-only_displays willing at_work (codes "send") (codes "bob") (codes "hi") [] refl refl

at_work-IsValid : IsValid at_work.network.shared.manager
at_work-IsValid = record {
  distinct = unfold find in (refl, tt);
  keyed = λ k p h. unfold find in (ground (arith, str_eq_iff (codes "ann") k));
}

process_command-says_example :
    let n = at_work.network in
    let frame = serialize (create_text_message (pos 6) (codes "good  day")) in
    (ids : List Bytes) × AreRecipients n.shared.manager ids
    × (process_command willing (codes "good  day") at_work ≡ (
      ok tt,
      record at_work {
        network = record n {
          history = routed 0 frame ids [];
          shared = record n.shared {
            display = record n.shared.display {
              queue = broadcast_line willing (codes "good  day") ids ∷ [];
            };
          };
        };
      },
    ))
unfolding parse_command find commands is_space insert str_eq
process_command-says_example =
    process_command-says willing (λ h c. refl) at_work (codes "good  day") (codes "good")
      (codes "day" ∷ []) 0 at_work-IsValid refl refl refl refl refl
