-- ===== src/Cli/Commands.antt =====
-- The commands: `RegisterCommands`, `ProcessCommand`, the handlers and the loop of `Run`.
use cpp_p2pchat.Base.{
  ◌%◌, ◌^◌, true, false, List, [], ◌∷◌, ◌++◌, none, some, ℤ, length, if◌then◌else◌,
}
use cpp_p2pchat.Std.Result.{Bytes, ok, throw, undefined}
use cpp_p2pchat.Std.Text.{codes}
use cpp_p2pchat.Std.Numbers.{stoul}
use cpp_p2pchat.Std.Exec.{Exec, ◌>>=◌, ◌>>◌, pure, lift, gets, modify}
use cpp_p2pchat.Std.UnorderedMap.{UnorderedMap, insert, find}
use cpp_p2pchat.Message.{create_text_message}
use cpp_p2pchat.PeerManager.{PeerInfo, get_all_peers, get_local_peer}
use cpp_p2pchat.Network.{
  Platform, connect_to_peer, disconnect_peer, send_message, broadcast_message, get_connected_peers,
  set_message_handler, set_connection_handler,
}
use cpp_p2pchat.Cli.Display.{
  system, failure, warning, peer_entry, help_text, local_info, Cli, on_network, on_shared, show,
  display_message, on_message, on_connection,
}
use cpp_p2pchat.Cli.Words.{parse_command, join_words}

-- the handlers that are registered
pub data Command : Type 0 where
  connect disconnect list send broadcast help quit info : Command

unfoldable pub commands : UnorderedMap Command
commands = insert (codes "info") info (
    insert (codes "exit") quit (
      insert (codes "quit") quit (
        insert (codes "help") help (
          insert (codes "broadcast") broadcast (
            insert (codes "send") send (
              insert (codes "list") list
                (insert (codes "disconnect") disconnect (insert (codes "connect") connect []))))))))

-- `try { body } catch (const std::exception&) { handler }`
unfoldable pub rescue : Exec Cli (Unit {0}) → Exec Cli (Unit {0}) → Exec Cli (Unit {0})
rescue body handler c = elim (body c).0 [
  | ok a ↦ (ok a, (body c).1)
  | throw e ↦ handler (body c).1
  | undefined u ↦ (undefined u, (body c).1)
]

abbrev pub now : Exec Cli ℤ
now = gets (λ c. c.network.shared.display.clock)

unfoldable pub handle_disconnect : List Bytes → Exec Cli (Unit {0})
handle_disconnect (name ∷ peer_id ∷ rest) = do
  on_network (disconnect_peer peer_id)
  show (system (codes "Disconnected from " ++ peer_id))
handle_disconnect _ = show (failure (codes "Usage: disconnect <peer_id>"))

-- the loop of `HandleList`
unfoldable pub show_peers : List PeerInfo → Exec Cli (Unit {0})
show_peers [] = pure tt
show_peers (p ∷ rest) = do show (peer_entry p.is_connected p.id p.address p.port); show_peers rest

unfoldable pub list_peers : List PeerInfo → Exec Cli (Unit {0})
list_peers [] = show (system (codes "No peers connected"))
list_peers (p ∷ rest) = do show (system (codes "Connected peers:")); show_peers (p ∷ rest)

unfoldable pub handle_help : Exec Cli (Unit {0})
handle_help = do show (system (codes "Available commands:")); show help_text

unfoldable pub handle_quit : Exec Cli (Unit {0})
handle_quit = do
  show (system (codes "Shutting down..."))
  modify (λ c. record c { running = false })

unfoldable pub handle_info : Exec Cli (Unit {0})
handle_info = do
  self ← gets (λ c. get_local_peer c.network.shared.manager)
  show (system (codes "Local peer information:"))
  show (local_info self.id self.address self.port (length self.public_key))

module _ (env : Platform) where
  -- Every exception, of the number or of the connection, gives the same message.
  unfoldable pub handle_connect : List Bytes → Exec Cli (Unit {0})
  handle_connect (name ∷ address ∷ port_text ∷ rest) =
      rescue
        (do
          port ← lift (stoul 10 port_text)
          time ← now
          on_network (connect_to_peer env time address (port % 2 ^ 16))
          show (system (codes "Connecting to " ++ (address ++ b':' ∷ (port_text ++ codes "...")))))
        (show (failure (codes "Invalid port number")))
  handle_connect _ = show (failure (codes "Usage: connect <address> <port>"))

  unfoldable pub handle_list : Exec Cli (Unit {0})
  handle_list = do
    peers ← gets (λ c. get_all_peers env.peers_order c.network.shared.manager)
    list_peers peers

  unfoldable pub handle_send : List Bytes → Exec Cli (Unit {0})
  handle_send (name ∷ peer_id ∷ word ∷ words) = do
    time ← now
    on_network (send_message env peer_id (create_text_message time (join_words (word ∷ words))))
    on_shared (display_message peer_id (join_words (word ∷ words)) false)
  handle_send _ = show (failure (codes "Usage: send <peer_id> <message>"))

  unfoldable pub handle_broadcast : List Bytes → Exec Cli (Unit {0})
  handle_broadcast (name ∷ word ∷ words) = do
    time ← now
    on_network (broadcast_message env (create_text_message time (join_words (word ∷ words))))
    on_shared (display_message (codes "all") (join_words (word ∷ words)) false)
  handle_broadcast _ = show (failure (codes "Usage: broadcast <message>"))

  unfoldable pub show_broadcast : Bytes → List Bytes → Exec Cli (Unit {0})
  show_broadcast input [] = show (warning (codes "No peers connected to receive message"))
  show_broadcast input (peer_id ∷ peers) =
      on_shared (display_message (codes "broadcast") input false)

  -- Input that is no command is sent to all peers.
  unfoldable pub say : Bytes → Exec Cli (Unit {0})
  say input = do
    time ← now
    on_network (broadcast_message env (create_text_message time input))
    peers ← on_network (get_connected_peers env)
    show_broadcast input peers

  unfoldable pub run_command : Command → List Bytes → Exec Cli (Unit {0})
  run_command connect args = handle_connect args
  run_command disconnect args = handle_disconnect args
  run_command list args = handle_list
  run_command send args = handle_send args
  run_command broadcast args = handle_broadcast args
  run_command help args = handle_help
  run_command quit args = handle_quit
  run_command info args = handle_info

  unfoldable pub dispatch : Bytes → List Bytes → Exec Cli (Unit {0})
  dispatch input [] = pure tt
  dispatch input (name ∷ args) = elim (find name commands) [
    | some command ↦ run_command command (name ∷ args)
    | none ↦ say input
  ]

  unfoldable pub process_command : Bytes → Exec Cli (Unit {0})
  unfolding dispatch
  process_command input = dispatch input (parse_command input)

  -- the handlers and the greeting of `Run`
  unfoldable pub begin_run : Exec Cli (Unit {0})
  begin_run = do
    modify (λ c. record c { running = true })
    show (system (codes "P2P Chat System Started"))
    show (system (codes "Type 'help' for available commands"))
    modify (λ c. record c {
      network = set_connection_handler on_connection (set_message_handler on_message c.network);
    })

  -- the main loop over the lines that are typed, to the end of the input
  unfoldable pub main_loop : List Bytes → Exec Cli (Unit {0})
  main_loop [] c = (ok tt, c)
  main_loop ([] ∷ inputs) c =
      let rest = main_loop inputs c in if c.running then rest else (ok tt, c)
  main_loop ((x ∷ input) ∷ inputs) c =
      let body = (process_command (x ∷ input) >> main_loop inputs) c in
      if c.running then body else (ok tt, c)
