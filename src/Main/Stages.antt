-- ===== src/Main/Stages.antt =====
-- `main`, stage by stage: the order in which it starts and stops the components.
use cpp_p2pchat.Base.{
  ℕ, ◌%◌, ◌^◌, Bool, true, false, List, [], ◌∷◌, Option, none, some, pos, if◌then◌else◌,
}
use cpp_p2pchat.Std.Result.{Bytes, Result, ok, throw, undefined, unended}
use cpp_p2pchat.Std.Text.{codes, split_at}
use cpp_p2pchat.Std.Numbers.{stoul}
use cpp_p2pchat.Std.Exec.{Exec, ◌>>=◌, ◌>>◌, pure, lift, gets, modify}
use cpp_p2pchat.Std.UnorderedMap.{UnorderedMap, find, insert}
use cpp_p2pchat.PeerManager.{PeerInfo, set_local_peer, save_peers_to_file, load_peers_from_file}
use cpp_p2pchat.Network.{start, stop, connect_to_peer, route_round, poll_round}
use cpp_p2pchat.Crypto.{generate_key_pair, generate_peer_id}
use cpp_p2pchat.Cli.{Cli, on_network, on_shared, display_front, begin_run, process_command}
use cpp_p2pchat.Main.Process.{
  Options, Machine, Process, Exit, returned, terminated, Event, typed, routes, polls, prints, clock,
  on_cli, on_library, on_manager, in_thread, clock_of, manager_of,
}

-- `localPeer`, as `main` fills it in
unfoldable pub local_peer : ℕ → Bytes → Bytes → PeerInfo
local_peer port peer_id public_key = record {
  id = peer_id;
  address = codes "0.0.0.0";
  port = port;
  public_key = public_key;
  is_connected = true;
  last_seen = pos 0;
}

-- `peerManager.LoadPeersFromFile(peersFile)`
unfoldable pub load_peers : Bytes → Exec Process (Unit {0})
unfolding on_manager
load_peers file p = on_manager (load_peers_from_file (clock_of p) (find file p.files)) p

-- what the file holds after it was written, if it could be
unfoldable pub written : Bytes → Option Bytes → UnorderedMap Bytes → UnorderedMap Bytes
written file none files = files
written file (some content) files = insert file content files

-- the join of the display thread
abbrev pub awaited : Bool → Result (Unit {0})
awaited true = ok tt
awaited false = undefined unended

module _ (m : Machine) where
  unfoldable pub identify : ℕ → Exec Process (Unit {0})
  unfolding on_library on_manager local_peer
  identify port = do
    pair ← on_library (generate_key_pair m.open_ssl)
    on_manager (
        modify (
          set_local_peer
            (local_peer port (generate_peer_id m.open_ssl pair.public_key) pair.public_key)))

  -- the argument of `--connect`; text without a colon is passed over
  unfoldable pub dial_initial : Option Bytes → Exec Process (Unit {0})
  unfolding on_cli
  dial_initial none = pure tt
  dial_initial (some text) = elim (split_at b':' text) [
    | none ↦ pure tt
    | some (address, port_text) ↦ (do
      port ← lift (stoul 10 port_text)
      time ← gets clock_of
      on_cli (on_network (connect_to_peer m.platform time address (port % 2 ^ 16))))
  ]

  -- The command line reads a line only while it runs; it passes over an empty one.
  unfoldable pub read_line : Bytes → Exec Cli (Unit {0})
  read_line [] c = (ok tt, c)
  read_line (x ∷ input) c =
      let read = process_command m.platform (x ∷ input) c in if c.running then read else (ok tt, c)

  unfoldable pub happen : Event → Exec Cli (Unit {0})
  unfolding read_line
  happen (typed input) c = read_line input c
  happen (routes arrival) c =
      on_network (route_round m.platform c.network.shared.display.clock arrival) c
  happen (polls arrivals) c =
      on_network (poll_round m.platform c.network.shared.display.clock arrivals) c
  happen prints c = on_shared (λ s. record s { display = display_front s.display }) c
  happen (clock time) c =
      on_shared (λ s. record s { display = record s.display { clock = time } }) c

  unfoldable pub session : List Event → Exec Cli (Unit {0})
  unfolding happen
  session [] = pure tt
  session (e ∷ events) = do happen e; session events

  -- `cli.Stop(); network.Stop(); peerManager.SavePeersToFile(peersFile);`
  unfoldable pub shut_down : Bytes → Exec Process (Unit {0})
  unfolding on_cli written
  shut_down file = do
    on_cli (modify (λ c. record c { running = false }))
    lift (awaited m.display_ends)
    on_cli (on_network (stop m.platform))
    modify (λ p. record p {
      files =
          written file (save_peers_to_file m.platform.peers_order (m.writable file) (manager_of p))
            p.files;
    })

  -- `cliThread.join()`: a thread that still waits for a line when the others are stopped executes
  -- the line that it is given, and ends then.
  unfoldable pub last_line : Bool → Option Bytes → Exec Cli (Unit {0})
  last_line true (some (x ∷ input)) = process_command m.platform (x ∷ input)
  last_line running line = pure tt

  unfoldable pub start_up : Options → Exec Process (Unit {0})
  unfolding on_cli
  start_up options = do
    identify options.port
    load_peers options.peers_file
    on_cli (on_network (start m.platform options.port))
    dial_initial options.connect

  -- what follows the start of the command line's thread
  unfoldable pub run_cli : Bytes → List Event → Option Bytes → Exec Process Exit
  unfolding in_thread
  run_cli file events line = do
    ended ← in_thread (begin_run m.platform >> session events)
    elim ended [
      | false ↦ pure terminated
      | true ↦ (do
        running ← gets (λ p. p.cli.running)
        shut_down file
        joined ← in_thread (last_line running line)
        elim joined [ true ↦ pure (returned 0) | false ↦ pure terminated ])
    ]

  -- `catch (const std::exception&)`; the network manager is destroyed before, and so stopped.
  unfoldable pub caught : Result Exit × Process → Result Exit × Process
  unfolding on_cli
  caught (ok exit, p) = (ok exit, p)
  caught (throw e, p) = (on_cli (on_network (stop m.platform)) >> pure (returned 1)) p
  caught (undefined u, p) = (undefined u, p)

  unfoldable pub main : Result Options → List Event → Option Bytes → Exec Process Exit
  unfolding caught
  main (throw e) events line p = (ok (returned 1), p)
  main (undefined u) events line p = (undefined u, p)
  main (ok options) events line p =
      let ran = caught ((start_up options >> run_cli options.peers_file events line) p) in
      if options.help then (ok (returned 0), p) else ran
