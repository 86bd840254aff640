-- ===== src/Cli/Saying.antt =====
-- What the command line sends, and what it says that it sent.
use cpp_p2pchat.Base.{ℕ, ◌≡◌, refl, true, false, List, [], ◌∷◌, ◌++◌, none, some, arith, take}
use cpp_p2pchat.Std.Result.{Bytes, ok}
use cpp_p2pchat.Std.Text.{codes}
use cpp_p2pchat.Std.Exec.{◌>>=◌}
use cpp_p2pchat.Std.UnorderedMap.{find}
use cpp_p2pchat.Message.{serialize, create_text_message}
use cpp_p2pchat.PeerManager.{get_all_peers}
use cpp_p2pchat.PeerManager.Lookup.{IsValid}
use cpp_p2pchat.Network.{Platform, History, Call, connected_ids}
use cpp_p2pchat.Network.Broadcasting.{
  routed, AreRecipients, connected_ids-AreRecipients, broadcast_message-sends,
}
use cpp_p2pchat.Network.Reachable.{no_dealers, router_peers_only}
use cpp_p2pchat.Cli.Display.{
  Line, Cli, outgoing, warning, queue_display, display_message, on_network, on_shared, show,
}
use cpp_p2pchat.Cli.Words.{parse_command, join_words}
use cpp_p2pchat.Cli.Commands.{commands, handle_send, show_broadcast, say, dispatch, process_command}

module _ (env : Platform) where
  -- Without a dealer socket and with the mutex free, `send` displays the message as sent, its words
  -- joined by single spaces, although nothing is sent and nothing else changes.
  pub handle_send-only_displays :
      (c : Cli) (name id word : Bytes) (words : List Bytes)
      → c.network.dealer_sockets ≡ []
      → c.network.locked ≡ false
      → handle_send env (name ∷ id ∷ word ∷ words) c ≡ (
        ok tt,
        record c {
          network = record c.network {
            shared =
                queue_display (outgoing (take 8 id) (join_words (word ∷ words))) c.network.shared;
          };
        },
      )
  unfolding handle_send on_network on_shared display_message ◌>>=◌
  handle_send-only_displays c name id word words none_open unlocked =
      let n = c.network in
      let msg = create_text_message n.shared.display.clock (join_words (word ∷ words)) in
      ground (arith, no_dealers env n id msg (none_open, unlocked))

  -- what is displayed of a broadcast to these peers
  abbrev pub broadcast_line : Bytes → List Bytes → Line
  broadcast_line input [] = warning (codes "No peers connected to receive message")
  broadcast_line input (id ∷ ids) = outgoing (take 8 (codes "broadcast")) input

  show_broadcast-line :
      (input : Bytes) (ids : List Bytes) (c : Cli)
      → show_broadcast env input ids c ≡ (
        ok tt,
        record c {
          network = record c.network {
            shared = queue_display (broadcast_line input ids) c.network.shared;
          };
        },
      )
  unfolding show_broadcast show on_shared display_message ◌>>=◌
  show_broadcast-line input [] c = refl
  show_broadcast-line input (id ∷ ids) c = refl

  module _ (accepting : (h : History) (call : Call) → env.accepts h call ≡ true) where
    say-sends :
        (c : Cli) (input : Bytes) (socket : ℕ)
        → c.network.dealer_sockets ≡ []
        → c.network.locked ≡ false
        → c.network.router_socket ≡ some socket
        → let n = c.network in
          let ids = connected_ids (get_all_peers env.peers_order n.shared.manager) in
          let frame = serialize (create_text_message n.shared.display.clock input) in
          say env input c ≡ (
            ok tt,
            record c {
              network = record n {
                history = routed socket frame ids n.history;
                shared = queue_display (broadcast_line input ids) n.shared;
              };
            },
          )
    unfolding say on_network ◌>>=◌
    say-sends c input socket none_open unlocked listening =
        let n = c.network in
        let ids = connected_ids (get_all_peers env.peers_order n.shared.manager) in
        let msg = create_text_message n.shared.display.clock input in
        let sent = record n { history = routed socket (serialize msg) ids n.history } in
        rw
          (
            broadcast_message-sends env msg accepting n socket unlocked none_open listening,
            router_peers_only env sent (none_open, unlocked),
          )
          (show_broadcast-line input ids (record c { network = sent }))

    -- A line whose first word is no command is sent whole, with its spaces, through the router to each
    -- peer that the peer manager holds as connected, to each once and to no other, where the mutex is
    -- free, there is no dealer socket, the router socket is open and ZeroMQ takes every call. One line
    -- is queued for display behind those that are queued: that it was sent, or a warning if no peer is
    -- connected. Nothing else changes.
    pub process_command-says :
        (c : Cli) (input name : Bytes) (args : List Bytes) (socket : ℕ)
        → IsValid c.network.shared.manager
        → parse_command input ≡ name ∷ args
        → find name commands ≡ none
        → c.network.dealer_sockets ≡ []
        → c.network.locked ≡ false
        → c.network.router_socket ≡ some socket
        → let n = c.network in
          let frame = serialize (create_text_message n.shared.display.clock input) in
          (ids : List Bytes) × AreRecipients n.shared.manager ids
          × (process_command env input c ≡ (
            ok tt,
            record c {
              network = record n {
                history = routed socket frame ids n.history;
                shared = record n.shared {
                  display = record n.shared.display {
                    queue = n.shared.display.queue ++ broadcast_line input ids ∷ [];
                  };
                };
              };
            },
          ))
    unfolding process_command dispatch queue_display
    process_command-says c input name args socket v h unknown none_open unlocked listening = (
      connected_ids (get_all_peers env.peers_order c.network.shared.manager),
      connected_ids-AreRecipients env.peers_order c.network.shared.manager v,
      rw (h, unknown, dispatch) (say-sends c input socket none_open unlocked listening),
    )
