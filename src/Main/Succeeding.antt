-- ===== src/Main/Succeeding.antt =====
-- How the stages of the program end where ZeroMQ takes every call.
use cpp_p2pchat.Base.{ℕ, ◌≡◌, refl, Bool, true, false, List, [], ◌∷◌, none, arith}
use cpp_p2pchat.Std.Result.{Bytes, Result, Fault, ok, throw, undefined}
use cpp_p2pchat.Std.Exec.{Exec, pure}
use cpp_p2pchat.Std.UnorderedMap.{UnorderedMap, find}
use cpp_p2pchat.Network.{Network, Platform, History, Call, start}
use cpp_p2pchat.Network.Clean.{Clean, start-Clean}
use cpp_p2pchat.Network.Connecting.{accepts_all}
use cpp_p2pchat.Network.Running.{start-outcome, listening, IsStopped}
use cpp_p2pchat.Cli.{Cli, Console, on_network}
use cpp_p2pchat.Main.Process.{Options, Machine, Process, on_cli, in_thread}
use cpp_p2pchat.Main.Stages.{dial_initial, start_up}
use cpp_p2pchat.Main.Outcomes.{Outcome, Does, Does-bind}
use cpp_p2pchat.Main.Starting.{net, Peers, Begun, Begins, identify-Does, load_peers-missing}
use cpp_p2pchat.Main.Greeting.{Alone}

abbrev pub Empty : Peers → Type 0
Empty peers = peers ≡ []

-- an exception, or a call that does not return
abbrev pub No : Process → Type 0
No p = ⊥

abbrev pub Never : Fault → Process → Type 0
Never u p = ⊥

-- the files, and the command line
abbrev pub With : UnorderedMap Bytes → (Cli → Type 0) → Process → Type 0
With files C p = (p.files ≡ files) × C p.cli

accepts_all-accepting :
    (env : Platform) (history : History) (calls : List Call)
    → ((h : History) (c : Call) → env.accepts h c ≡ true)
    → accepts_all env history calls ≡ true
accepts_all-accepting env history [] accepting = refl
accepts_all-accepting env history (c ∷ calls) accepting =
    rw accepting (accepts_all-accepting env _ calls accepting)

thread_ended :
    (files : UnorderedMap Bytes) (C : Cli → Type 0) (r : Result (Unit {0})) (c : Cli) (p : Process)
    → p.files ≡ files
    → Outcome (λ _. C) (λ _. ⊥) (λ _ _. ⊥) (r, c)
    → Outcome
        (λ ended q. (ended ≡ true) × With files C q)
        No
        Never
        (elim r as (λ _. Result Bool × Process) [
          | ok a ↦ (ok true, record p { cli = c })
          | throw e ↦ (ok false, record p { cli = c })
          | undefined u ↦ (undefined u, record p { cli = c })
        ])
thread_ended files C (ok a) c p h k = (refl, (h, k))
thread_ended files C (throw x) c p h k = absurd k
thread_ended files C (undefined u) c p h k = absurd k

pub in_thread-Does :
    (files : UnorderedMap Bytes) {B C : Cli → Type 0} (work : Exec Cli (Unit {0}))
    → Does B work (λ _. C) (λ _. ⊥) (λ _ _. ⊥)
    → Does (With files B) (in_thread work) (λ ended q. (ended ≡ true) × With files C q) No Never
unfolding in_thread
in_thread-Does files {C = C} work d = record {
  at = λ p h. thread_ended files C _ _ p h.0 (d.at p.cli h.1);
}

module _ (m : Machine) (files : UnorderedMap Bytes)
    (accepting : (h : History) (c : Call) → m.platform.accepts h c ≡ true) where
  start_succeeds :
      (n : Network Console) (port : ℕ)
      → IsStopped n
      → Clean false n
      → let (r, m) = start m.platform port n in (r ≡ ok tt) × (m.shared ≡ n.shared) × Clean false m
  start_succeeds n port stopped clean = ground (
    arith,
    start-outcome m.platform n port stopped,
    accepts_all-accepting m.platform n.history (listening n port) accepting,
    (start-Clean m.platform false port).at n clean,
  )

  started :
      (p : Process) (r : Result (Unit {0})) (n : Network Console)
      → Begun files Empty p
      → (r ≡ ok tt) × (n.shared ≡ (net p).shared) × Clean false n
      → Outcome
          (λ _. With files Alone)
          No
          Never
          (r, record p { cli = record p.cli { network = n } })
  started p (ok a) n h e = (h.0.0, (e.2, rw e.1 h.2))
  started p (throw x) n h e = cc
  started p (undefined u) n h e = cc

  start-returns :
      (port : ℕ)
      → Does
          (Begun files Empty)
          (on_cli (on_network (start m.platform port)))
          (λ _. With files Alone)
          No
          Never
  unfolding on_cli on_network
  start-returns port = record {
    at = λ p h. started p _ _ h (start_succeeds (net p) port h.1 h.0.1);
  }

  pub start_up-returns :
      (options : Options) (l : List ℕ)
      → options.connect ≡ none
      → find options.peers_file files ≡ none
      → Does (Begins files Empty l) (start_up m options) (λ _. With files Alone) No Never
  unfolding start_up
  start_up-returns options l no_connect missing =
      Does-bind _ _ (identify-Does files Empty No Never m options.port l) λ _.
        Does-bind _ _ (load_peers-missing files Empty No Never options.peers_file missing) λ _.
          Does-bind _ _ (start-returns options.port)
            λ _. rw no_connect (unfold dial_initial pure in (record { at = λ p h. h }))
