-- ===== src/Main/Process.antt =====
-- What a process holds, what is not part of the program, and what may happen to a process.
use cpp_p2pchat.Base.{ℕ, Bool, true, false, [], Option, ℤ, pos}
use cpp_p2pchat.Std.Result.{Bytes, ok, throw, undefined}
use cpp_p2pchat.Std.Exec.{Exec}
use cpp_p2pchat.Std.UnorderedMap.{UnorderedMap}
use cpp_p2pchat.PeerManager.{PeerManager}
use cpp_p2pchat.Network.{Platform, Arrival, make_network}
use cpp_p2pchat.Crypto.{OpenSsl, Library}
use cpp_p2pchat.Cli.{Cli}

-- what `po::parse_command_line` and `po::notify` make of the arguments
pub record Options : Type 0 where
  pub help : Bool
  pub port : ℕ
  pub connect : Option Bytes
  pub peers_file : Bytes

-- What is not part of the program: ZeroMQ, OpenSSL, and whether a file can be opened for writing.
-- `display_ends` stands for the order of the threads' turns in `CLIInterface::Stop`: whether the display
-- thread comes to its end, so that the join returns.
pub record Machine : Type 0 where
  pub platform : Platform
  pub open_ssl : OpenSsl
  pub writable : Bytes → Bool
  pub display_ends : Bool

-- `cli` holds the network manager, and by it the peer manager; `files` the readable files.
pub record Process : Type 0 where
  pub cli : Cli
  pub library : Library
  pub files : UnorderedMap Bytes

-- a process before `main`: no network, no peers
unfoldable pub new_process : ℕ → ℤ → UnorderedMap Bytes → Process
unfolding make_network
new_process stray now files = record {
  cli = record {
    network = make_network (record {
      manager = record {
        peers = [];
        local_peer = record {
          id = [];
          address = [];
          port = stray;
          public_key = [];
          is_connected = false;
          last_seen = pos 0;
        };
      };
      display = record { queue = []; printed = []; clock = now };
    });
    running = false;
  };
  library = record { live = []; next = 0; calls = [] };
  files = files;
}

-- `main` returned a status, or an exception left a thread, which ends the program at once.
pub data Exit : Type 0 where
  returned : ℕ → Exit
  terminated : Exit

-- What happens while the main thread waits: a line is typed, a thread of the network manager makes a
-- round, the display thread prints, or the clock moves.
pub data Event : Type 0 where
  typed : Bytes → Event
  routes : Arrival (Bytes × Bytes) → Event
  polls : (Bytes → Arrival Bytes) → Event
  prints : Event
  clock : ℤ → Event

-- a call of the command line
unfoldable pub on_cli : {A : Type 0} → Exec Cli A → Exec Process A
on_cli call p = ((call p.cli).0, record p { cli = (call p.cli).1 })

unfoldable pub on_library : {A : Type 0} → Exec Library A → Exec Process A
on_library call p = ((call p.library).0, record p { library = (call p.library).1 })

-- the work of a thread: whether it came to its end, or threw an exception
unfoldable pub in_thread : Exec Cli (Unit {0}) → Exec Process Bool
in_thread work p = elim (work p.cli).0 [
  | ok a ↦ (ok true, record p { cli = (work p.cli).1 })
  | throw e ↦ (ok false, record p { cli = (work p.cli).1 })
  | undefined u ↦ (undefined u, record p { cli = (work p.cli).1 })
]

-- a call of the peer manager
unfoldable pub on_manager : {A : Type 0} → Exec PeerManager A → Exec Process A
on_manager call p =
    let (r, manager) = call p.cli.network.shared.manager in
    (
      r,
      record p {
        cli = record p.cli {
          network = record p.cli.network {
            shared = record p.cli.network.shared { manager = manager };
          };
        };
      },
    )

abbrev pub clock_of : Process → ℤ
clock_of p = p.cli.network.shared.display.clock

abbrev pub manager_of : Process → PeerManager
manager_of p = p.cli.network.shared.manager
