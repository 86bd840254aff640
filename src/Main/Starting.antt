-- ===== src/Main/Starting.antt =====
-- How each stage of the start ends.
use cpp_p2pchat.Base.{ℕ, ◌≡◌, ap, ◌∙◌, false, List, Option, none, some, ℤ, arith, inl, inr, ◌⊎◌}
use cpp_p2pchat.Std.Result.{Bytes, Result, Fault, ok, throw, undefined, zmq_error}
use cpp_p2pchat.Std.Exec.{modify}
use cpp_p2pchat.Std.Keeps.{After}
use cpp_p2pchat.Std.UnorderedMap.{UnorderedMap, find}
use cpp_p2pchat.PeerManager.{PeerManager, PeerInfo, set_local_peer, load_peers_from_file}
use cpp_p2pchat.PeerManager.Loading.{Definite, load_peers_from_file-Definite}
use cpp_p2pchat.Network.{Network, Platform, start}
use cpp_p2pchat.Network.Clean.{Clean, start-Clean}
use cpp_p2pchat.Network.Running.{IsStopped, start-outcome}
use cpp_p2pchat.Crypto.{Library, generate_key_pair}
use cpp_p2pchat.Crypto.Held.{Held, Ends}
use cpp_p2pchat.Crypto.KeysHeld.{generate_key_pair-Held}
use cpp_p2pchat.Cli.{Console, on_network}
use cpp_p2pchat.Main.Process.{
  Machine, Process, on_library, on_manager, manager_of, on_cli, clock_of,
}
use cpp_p2pchat.Main.Stages.{identify, load_peers}
use cpp_p2pchat.Main.Outcomes.{Outcome, Does, Does-bind}

-- the network manager of a process
abbrev pub net : Process → Network Console
net p = p.cli.network

abbrev pub Peers : Type 0
Peers = UnorderedMap PeerInfo

-- The files are as they were, and the network manager has no dealer socket and a free mutex.
abbrev pub Calm : UnorderedMap Bytes → Process → Type 0
Calm files p = (p.files ≡ files) × Clean false (net p)

-- Besides, the network is not started, and the peers are so.
abbrev pub Begun : UnorderedMap Bytes → (Peers → Type 0) → Process → Type 0
Begun files K p = Calm files p × IsStopped (net p) × K (manager_of p).peers

abbrev pub Begins : UnorderedMap Bytes → (Peers → Type 0) → List ℕ → Process → Type 0
Begins files K l p = Begun files K p × Held l p.library

module _ (files : UnorderedMap Bytes) (K : Peers → Type 0) (E : Process → Type 0)
    (W : Fault → Process → Type 0) where
  library_call :
      {A : Type 0} (p : Process) (l : List ℕ) (r : Result A) (library : Library)
      → Begun files K p
      → Ends (λ _. Held l) (r, library)
      → Outcome (λ _. Begun files K) E W (r, record p { library = library })
  library_call p l (ok a) library h e = h
  library_call p l (throw x) library h e = absurd e
  library_call p l (undefined u) library h e = absurd e

  loads_nothing :
      (p : Process) (now : ℤ) (found : Option Bytes)
      → Begun files K p
      → found ≡ none
      → Outcome (λ _. Begun files K) E W (on_manager (load_peers_from_file now found) p)
  unfolding load_peers_from_file on_manager
  loads_nothing p now none h e = h
  loads_nothing p now (some content) h e = cc

  -- No peers are loaded from a file that does not exist.
  pub load_peers-missing :
      (file : Bytes)
      → find file files ≡ none
      → Does (Begun files K) (load_peers file) (λ _. Begun files K) E W
  unfolding load_peers
  load_peers-missing file e = record {
    at = λ p h. loads_nothing p _ (find file p.files) h (ap (find file) h.0.0 ∙ e);
  }

  module _ (m : Machine) where
    key_pair-Does :
        (l : List ℕ)
        → Does
            (Begins files K l)
            (on_library (generate_key_pair m.open_ssl))
            (λ _. Begun files K)
            E
            W
    unfolding on_library
    key_pair-Does l = record {
      at = λ p h. library_call p l _ _ h.0 ((generate_key_pair-Held m.open_ssl l).at p.library h.1);
    }

    -- A process gives itself a key and an ID, whatever OpenSSL answers.
    pub identify-Does :
        (port : ℕ) (l : List ℕ) → Does (Begins files K l) (identify m port) (λ _. Begun files K) E W
    unfolding identify on_manager set_local_peer modify
    identify-Does port l = Does-bind _ _ (key_pair-Does l) (λ pair. record { at = λ p h. h })

-- no claim on the peers
abbrev pub Any : Peers → Type 0
Any peers = Unit {0}

module _ (files : UnorderedMap Bytes) (W : Fault → Process → Type 0) where
  manager_call :
      (p : Process) (r : Result (Unit {0})) (manager : PeerManager)
      → Definite r
      → Begun files Any p
      → Outcome (λ _. Begun files Any) (Calm files) W (on_manager (λ _. (r, manager)) p)
  unfolding on_manager
  manager_call p (ok a) manager d h = (h.0, h.1, tt)
  manager_call p (throw x) manager d h = h.0
  manager_call p (undefined u) manager d h = absurd d

  -- Loading a file adds peers, or throws; nothing else changes.
  pub load_peers-Does :
      (file : Bytes)
      → Does (Begun files Any) (load_peers file) (λ _. Begun files Any) (Calm files) W
  unfolding load_peers
  load_peers-Does file = record {
    at = λ p h.
        manager_call p _ _
          (load_peers_from_file-Definite (clock_of p) (find file p.files) (manager_of p)) h;
  }

-- The network was started, or the start failed; the peers are so.
abbrev pub Started : UnorderedMap Bytes → (Peers → Type 0) → Process → Type 0
Started files K p = Calm files p × K (manager_of p).peers

start-ends :
    (env : Platform) (n : Network Console) (port : ℕ)
    → IsStopped n
    → let r = start env port n in
      (r.1.shared ≡ n.shared) × ((r.0 ≡ ok tt) ⊎ (r.0 ≡ throw zmq_error))
start-ends env n port stopped = ground (arith, start-outcome env n port stopped)

module _ (files : UnorderedMap Bytes) (K : Peers → Type 0) (W : Fault → Process → Type 0) where
  start_ended :
      (r : Result (Unit {0})) (n : Network Console) (p : Process)
      → Started files K p
      → After (Clean false) (r, n)
      → n.shared ≡ (net p).shared
      → (r ≡ ok tt) ⊎ (r ≡ throw zmq_error)
      → Outcome
          (λ _. Started files K)
          (Calm files)
          W
          (r, record p { cli = record p.cli { network = n } })
  start_ended (ok a) n p h c e d = ((h.0.0, c), rw e h.1)
  start_ended (throw x) n p h c e d = (h.0.0, c)
  start_ended (undefined u) n p h c e (inl d) = cc
  start_ended (undefined u) n p h c e (inr d) = cc

  pub start-Does :
      (m : Machine) (port : ℕ)
      → Does
          (Begun files K)
          (on_cli (on_network (start m.platform port)))
          (λ _. Started files K)
          (Calm files)
          W
  unfolding on_cli on_network
  start-Does m port = record {
    at = λ p h.
        let ends = start-ends m.platform (net p) port h.1 in
        start_ended _ _ p (h.0, h.2) ((start-Clean m.platform false port).at (net p) h.0.1) ends.0
          ends.1;
  }
