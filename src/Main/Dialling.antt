-- ===== src/Main/Dialling.antt =====
-- What becomes of a program that is started with `--connect`.
use cpp_p2pchat.Base.{
  ℕ, ◌%◌, ◌^◌, ◌≡◌, refl, ap, false, List, Option, some, ℤ, arith, Bool-cases, inl, inr, ◌⊎◌,
}
use cpp_p2pchat.Std.Result.{Bytes, Result, Fault, ok, throw, undefined, relock, zmq_error}
use cpp_p2pchat.Std.Text.{split_at}
use cpp_p2pchat.Std.Exec.{◌>>=◌, pure, lift, gets}
use cpp_p2pchat.Std.Numbers.{stoul}
use cpp_p2pchat.Std.UnorderedMap.{UnorderedMap}
use cpp_p2pchat.PeerManager.Loading.{Definite, stoul-Definite}
use cpp_p2pchat.Network.{Network, Platform, stop, connect_to_peer}
use cpp_p2pchat.Network.Clean.{Clean}
use cpp_p2pchat.Network.Connecting.{connect_to_peer-never_returns}
use cpp_p2pchat.Network.Running.{stop-stops, stop-stopped}
use cpp_p2pchat.Cli.{Console, on_network}
use cpp_p2pchat.Main.Process.{Options, Machine, Process, Exit, returned, Event, on_cli}
use cpp_p2pchat.Main.Stages.{dial_initial, start_up, run_cli, caught, main}
use cpp_p2pchat.Main.Outcomes.{Outcome, Does, Does-bind}
use cpp_p2pchat.Main.Starting.{
  net, Any, Calm, Begins, Started, identify-Does, load_peers-Does, start-Does,
}

-- With a free mutex, `Stop` returns, and the peers are as they were.
pub stop-ends :
    (env : Platform) (n : Network Console)
    → n.locked ≡ false
    → let r = stop env n in (r.0 ≡ ok tt) × (r.1.shared ≡ n.shared)
stop-ends env n u = elim (Bool-cases n.running) [
  | inl e ↦ ground (arith, stop-stops env n e u)
  | inr e ↦ rw (stop-stopped env n e) (refl, refl)
]

-- The thread waits for a mutex that it holds itself.
abbrev pub Waits : UnorderedMap Bytes → Fault → Process → Type 0
Waits files u p = (u ≡ relock) × (p.files ≡ files)

-- The status is 1, or the program waits for ever; nothing is saved.
abbrev pub Gone : UnorderedMap Bytes → Result Exit × Process → Type 0
Gone files (r, p) = ((r ≡ ok (returned 1)) ⊎ (r ≡ undefined relock)) × (p.files ≡ files)

connect_fails :
    (env : Platform) (now : ℤ) (address : Bytes) (port : ℕ) (n : Network Console)
    → Clean false n
    → let (r, m) = connect_to_peer env now address port n in
      (r ≡ undefined relock) ⊎ ((r ≡ throw zmq_error) × Clean false m)
connect_fails env now address port n h =
    ground (arith, connect_to_peer-never_returns env now address port n h.1)

module _ (files : UnorderedMap Bytes) where
  connect_ended :
      (r : Result (Unit {0})) (n : Network Console) (p : Process)
      → p.files ≡ files
      → (r ≡ undefined relock) ⊎ ((r ≡ throw zmq_error) × Clean false n)
      → Outcome
          (λ _ _. ⊥)
          (Calm files)
          (Waits files)
          (r, record p { cli = record p.cli { network = n } })
  connect_ended (ok a) n p h (inl e) = cc
  connect_ended (ok a) n p h (inr e) = cc
  connect_ended (throw x) n p h (inl e) = cc
  connect_ended (throw x) n p h (inr e) = (h, e.1)
  connect_ended (undefined u) n p h (inl e) = (cc, h)
  connect_ended (undefined u) n p h (inr e) = cc

  number-Does :
      (r : Result ℕ)
      → Definite r
      → Does (Started files Any) (lift r) (λ _. Started files Any) (Calm files) (Waits files)
  unfolding lift
  number-Does (ok a) d = record { at = λ p h. h }
  number-Does (throw e) d = record { at = λ p h. h.0 }
  number-Does (undefined u) d = absurd d

  module _ (m : Machine) where
    pub dial_initial-Does :
        (text address port_text : Bytes)
        → split_at b':' text ≡ some (address, port_text)
        → Does
            (Started files Any)
            (dial_initial m (some text))
            (λ _ _. ⊥)
            (Calm files)
            (Waits files)
    unfolding dial_initial on_cli on_network gets
    dial_initial-Does text address port_text e =
        rw (e, dial_initial)
          (Does-bind _ _ (number-Does (stoul 10 port_text) (stoul-Definite 10 port_text)) λ port.
            Does-bind {Q = λ _. Started files Any} _ _ (record { at = λ p h. h })
              λ time. record {
                at = λ p h.
                    connect_ended _ _ p h.0.0
                      (connect_fails m.platform time address (port % 2 ^ 16) (net p) h.0.1);
              })

    start_up-Does :
        (options : Options) (text address port_text : Bytes) (l : List ℕ)
        → options.connect ≡ some text
        → split_at b':' text ≡ some (address, port_text)
        → Does (Begins files Any l) (start_up m options) (λ _ _. ⊥) (Calm files) (Waits files)
    unfolding start_up
    start_up-Does options text address port_text l c e =
        Does-bind _ _ (identify-Does files Any (Calm files) (Waits files) m options.port l) λ _.
          Does-bind _ _ (load_peers-Does files (Waits files) options.peers_file) λ _.
            Does-bind _ _ (start-Does files Any (Waits files) m options.port)
              λ _. rw c (dial_initial-Does text address port_text e)

    caught-Gone :
        (r : Result Exit) (p : Process)
        → Outcome (λ _ _. ⊥) (Calm files) (Waits files) (r, p)
        → Gone files (caught m (r, p))
    unfolding caught on_cli on_network pure ◌>>=◌
    caught-Gone (ok exit) p h = absurd h
    caught-Gone (throw e) p h = ground (arith, h.0, stop-ends m.platform (net p) h.1.1)
    caught-Gone (undefined u) p h = (inr (ap undefined h.0), h.1)

    -- A program that is started with `--connect` and an address and port never ends well, whatever
    -- ZeroMQ and OpenSSL answer, whatever the peers file holds, and whatever is typed: it returns the
    -- status 1, or waits for ever for a mutex that it holds. The files stay as they were.
    pub main-never_chats :
        (options : Options) (text address port_text : Bytes) (events : List Event)
        (line : Option Bytes) (l : List ℕ) (p : Process)
        → options.help ≡ false
        → options.connect ≡ some text
        → split_at b':' text ≡ some (address, port_text)
        → Begins files Any l p
        → Gone files (main m (ok options) events line p)
    unfolding main start_up
    main-never_chats options text address port_text events line l p no_help connects splits begins =
        rw no_help (
          caught-Gone _ _ (
            (Does-bind _ (λ _. run_cli m options.peers_file events line)
                (start_up-Does options text address port_text l connects splits)
                (λ _. record { at = λ q h. absurd h })).at
              p begins))
