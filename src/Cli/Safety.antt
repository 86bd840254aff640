-- ===== src/Cli/Safety.antt =====
-- No exception leaves a command, and what the commands that open connections and end the program do.
use cpp_p2pchat.Base.{◌≡◌, ◌≢◌, refl, List, [], ◌∷◌, Option, none, some}
use cpp_p2pchat.Std.Result.{Bytes, Result, Exception, ok, throw, undefined}
use cpp_p2pchat.Std.Exec.{Exec}
use cpp_p2pchat.Std.Safe.{Quiet, Safe, Safe-bind, Safe-modify, Safe-no_throw, safe_rules}
use cpp_p2pchat.Std.UnorderedMap.{find}
use cpp_p2pchat.PeerManager.{PeerInfo}
use cpp_p2pchat.Network.{Network, Platform, Shared}
use cpp_p2pchat.Network.Safety.{
  disconnect_peer-Safe, send_message-Safe, broadcast_message-Safe, get_connected_peers-Safe,
}
use cpp_p2pchat.Cli.Display.{Line, Console, Cli, on_network, on_shared, show}
use cpp_p2pchat.Cli.Words.{parse_command}
use cpp_p2pchat.Cli.Commands.{
  Command, connect, disconnect, list, send, broadcast, help, quit, info, commands, rescue,
  handle_connect, handle_disconnect, show_peers, list_peers, handle_list, handle_send,
  handle_broadcast, handle_help, handle_quit, handle_info, show_broadcast, say, run_command,
  dispatch, process_command,
}

on_network-Safe :
    {A : Type 0} (call : Exec (Network Console) A) → Safe call → Safe (on_network call)
unfolding on_network
on_network-Safe call safe = record { quiet = λ c. safe.quiet c.network }

on_shared-Safe : (f : Shared Console → Shared Console) → Safe (on_shared f)
unfolding on_shared
on_shared-Safe f = Safe-modify _

show-Safe : (line : Line) → Safe (show line)
unfolding show
show-Safe line = on_shared-Safe _

Quiet-rescue :
    (body handler : Exec Cli (Unit {0})) (c : Cli) (r : Result (Unit {0}))
    → (body c).0 ≡ r
    → Safe handler
    → Quiet (rescue body handler c).0
unfolding rescue
Quiet-rescue body handler c (ok a) e safe = rw (e, rescue, Quiet) tt
Quiet-rescue body handler c (throw x) e safe = rw (e, rescue, Quiet) (safe.quiet (body c).1)
Quiet-rescue body handler c (undefined u) e safe = rw (e, rescue, Quiet) tt

-- A handler that throws nothing makes the whole safe, whatever the body does.
rescue-Safe : (body handler : Exec Cli (Unit {0})) → Safe handler → Safe (rescue body handler)
rescue-Safe body handler safe = record { quiet = λ c. Quiet-rescue body handler c _ refl safe }

ruleset cli_rules = (safe_rules, on_network-Safe, on_shared-Safe, show-Safe)

handle_disconnect-Safe : (args : List Bytes) → Safe (handle_disconnect args)
unfolding handle_disconnect
handle_disconnect-Safe [] = show-Safe _
handle_disconnect-Safe (name ∷ []) = show-Safe _
handle_disconnect-Safe (name ∷ id ∷ rest) = search (cli_rules, disconnect_peer-Safe)

show_peers-Safe : (peers : List PeerInfo) → Safe (show_peers peers)
unfolding show_peers
show_peers-Safe [] = search cli_rules
show_peers-Safe (p ∷ rest) = Safe-bind _ _ (show-Safe _) (λ _. show_peers-Safe rest)

list_peers-Safe : (peers : List PeerInfo) → Safe (list_peers peers)
unfolding list_peers
list_peers-Safe [] = show-Safe _
list_peers-Safe (p ∷ rest) = Safe-bind _ _ (show-Safe _) (λ _. show_peers-Safe (p ∷ rest))

module _ (env : Platform) where
  handle_connect-Safe : (args : List Bytes) → Safe (handle_connect env args)
  unfolding handle_connect
  handle_connect-Safe [] = show-Safe _
  handle_connect-Safe (name ∷ []) = show-Safe _
  handle_connect-Safe (name ∷ address ∷ []) = show-Safe _
  handle_connect-Safe (name ∷ address ∷ port ∷ rest) = rescue-Safe _ _ (show-Safe _)

  handle_send-Safe : (args : List Bytes) → Safe (handle_send env args)
  unfolding handle_send
  handle_send-Safe [] = show-Safe _
  handle_send-Safe (name ∷ []) = show-Safe _
  handle_send-Safe (name ∷ id ∷ []) = show-Safe _
  handle_send-Safe (name ∷ id ∷ word ∷ words) = search (cli_rules, send_message-Safe)

  handle_broadcast-Safe : (args : List Bytes) → Safe (handle_broadcast env args)
  unfolding handle_broadcast
  handle_broadcast-Safe [] = show-Safe _
  handle_broadcast-Safe (name ∷ []) = show-Safe _
  handle_broadcast-Safe (name ∷ word ∷ words) = search (cli_rules, broadcast_message-Safe)

  show_broadcast-Safe : (input : Bytes) (peers : List Bytes) → Safe (show_broadcast env input peers)
  unfolding show_broadcast
  show_broadcast-Safe input [] = show-Safe _
  show_broadcast-Safe input (id ∷ peers) = on_shared-Safe _

  say-Safe : (input : Bytes) → Safe (say env input)
  unfolding say
  say-Safe input =
      search (cli_rules, broadcast_message-Safe, get_connected_peers-Safe, show_broadcast-Safe)
        depth 12

  run_command-Safe : (command : Command) (args : List Bytes) → Safe (run_command env command args)
  unfolding run_command handle_list handle_help handle_quit handle_info
  run_command-Safe connect args = handle_connect-Safe args
  run_command-Safe disconnect args = handle_disconnect-Safe args
  run_command-Safe list args = search (cli_rules, list_peers-Safe)
  run_command-Safe send args = handle_send-Safe args
  run_command-Safe broadcast args = handle_broadcast-Safe args
  run_command-Safe help args = search cli_rules
  run_command-Safe quit args = search cli_rules
  run_command-Safe info args = search cli_rules

  found-Safe :
      (input name : Bytes) (args : List Bytes) (found : Option Command)
      → find name commands ≡ found
      → Safe (dispatch env input (name ∷ args))
  unfolding dispatch
  found-Safe input name args none e = rw (e, dispatch) (say-Safe input)
  found-Safe input name args (some command) e =
      rw (e, dispatch) (run_command-Safe command (name ∷ args))

  dispatch-Safe : (input : Bytes) (args : List Bytes) → Safe (dispatch env input args)
  dispatch-Safe input [] = unfold dispatch in (search cli_rules)
  dispatch-Safe input (name ∷ args) = found-Safe input name args _ refl

  -- No exception leaves `ProcessCommand`, whatever is typed and whatever ZeroMQ refuses.
  pub process_command-no_throw :
      (input : Bytes) (c : Cli) (e : Exception) → (process_command env input c).0 ≢ throw e
  unfolding process_command
  process_command-no_throw input c e = Safe-no_throw (dispatch-Safe input (parse_command input)) c e
