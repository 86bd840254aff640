-- ===== src/Cli/Display.antt =====
-- What the command line holds and shows: the queue of lines to display, the two handlers that `Run`
-- gives to the network manager, and the line that each `Display...` method queues.
use cpp_p2pchat.Base.{ℕ, Bool, true, false, List, [], ◌∷◌, ◌++◌, Option, none, some, ℤ, take}
use cpp_p2pchat.Std.Result.{Bytes}
use cpp_p2pchat.Std.Text.{codes}
use cpp_p2pchat.Std.Exec.{Exec, modify}
use cpp_p2pchat.Message.{Message, text, handshake}
use cpp_p2pchat.PeerManager.{update_peer_status}
use cpp_p2pchat.Network.{Network, Shared, parse_handshake}

-- What a queued function prints, without its colours and without the time of day of a message.
pub data Line : Type 0 where
  system failure success warning : Bytes → Line
  incoming outgoing : Bytes → Bytes → Line
  peer_entry : Bool → Bytes → Bytes → ℕ → Line
  help_text : Line
  local_info : Bytes → Bytes → ℕ → ℕ → Line

-- `clock` is what the system clock shows.
pub record Console : Type 0 where
  pub queue : List Line
  pub printed : List Line
  pub clock : ℤ

-- `displayQueue.push(func)`
unfoldable pub queue_display : Line → Shared Console → Shared Console
queue_display line shared = record shared {
  display = record shared.display { queue = shared.display.queue ++ line ∷ [] };
}

-- A round of the display thread's inner loop: the front of the queue is popped and run.
unfoldable pub display_front : Console → Console
display_front console = elim console.queue [
  | [] ↦ console
  | line ∷ rest ↦ record console { queue = rest; printed = console.printed ++ line ∷ [] }
]

-- the first eight characters of an id
unfoldable pub display_message : Bytes → Bytes → Bool → Shared Console → Shared Console
unfolding queue_display
display_message peer_id message true = queue_display (incoming (take 8 peer_id) message)
display_message peer_id message false = queue_display (outgoing (take 8 peer_id) message)

unfoldable pub display_handshake : Option (Bytes × Bytes) → Shared Console → Shared Console
unfolding queue_display
display_handshake none shared = shared
display_handshake (some (peer_id, public_key)) shared =
    queue_display (system (codes "Handshake received from " ++ peer_id)) shared

-- the message handler
unfoldable pub on_message : Bytes → Message → Shared Console → Shared Console
unfolding display_message display_handshake
on_message peer_id msg shared = elim msg.type [
  | text ↦ display_message peer_id msg.payload true shared
  | handshake ↦ display_handshake (parse_handshake msg.payload) shared
  | _ ↦ shared
]

-- the connection handler
unfoldable pub on_connection : Bytes → Bool → Shared Console → Shared Console
unfolding queue_display
on_connection peer_id connected shared =
    let updated = record shared {
      manager = update_peer_status peer_id connected shared.display.clock shared.manager;
    } in
    elim connected [
      | true ↦ queue_display (success (codes "Connected to peer: " ++ peer_id)) updated
      | false ↦ queue_display (warning (codes "Disconnected from peer: " ++ peer_id)) updated
    ]

-- `CLIInterface::Impl`: the network manager, by which it reaches the peer manager, and whether it
-- runs.
pub record Cli : Type 0 where
  pub network : Network Console
  pub running : Bool

-- a call of the network manager
unfoldable pub on_network : {A : Type 0} → Exec (Network Console) A → Exec Cli A
on_network call c = ((call c.network).0, record c { network = (call c.network).1 })

unfoldable pub on_shared : (Shared Console → Shared Console) → Exec Cli (Unit {0})
on_shared f = modify (λ c. record c { network = record c.network { shared = f c.network.shared } })

unfoldable pub show : Line → Exec Cli (Unit {0})
unfolding on_shared queue_display
show line = on_shared (queue_display line)
