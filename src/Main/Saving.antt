-- ===== src/Main/Saving.antt =====
-- What the command line's run and the stop leave of the files.
use cpp_p2pchat.Base.{
  ◌≡◌, refl, ap, Bool, true, false, List, Option, arith, inl, inr, ◌⊎◌, Bool-cases,
}
use cpp_p2pchat.Std.Result.{Bytes, Result, Fault, ok, throw, undefined, relock}
use cpp_p2pchat.Std.Exec.{Exec, ◌>>=◌, pure, lift, modify, gets}
use cpp_p2pchat.Std.UnorderedMap.{UnorderedMap}
use cpp_p2pchat.PeerManager.{PeerManager, save_peers_to_file}
use cpp_p2pchat.Network.{Network, Platform, stop, stop_running, clear_dealers, with_lock}
use cpp_p2pchat.Network.Running.{stop-stopped}
use cpp_p2pchat.Cli.{Cli, Console, on_network}
use cpp_p2pchat.Main.Process.{
  Machine, Process, Exit, returned, terminated, Event, manager_of, on_cli, in_thread,
}
use cpp_p2pchat.Main.Stages.{run_cli, shut_down, written, awaited}
use cpp_p2pchat.Main.Outcomes.{Outcome, Does, Does-bind, Does-modify}
use cpp_p2pchat.Main.Starting.{net}
use cpp_p2pchat.Main.Dialling.{stop-ends}

stop-locked :
    (env : Platform) (n : Network Console)
    → n.running ≡ true
    → n.locked ≡ true
    → (stop env n).0 ≡ undefined relock
unfolding stop stop_running clear_dealers with_lock modify ◌>>=◌
stop-locked env n on held = ground arith

-- `Stop` of the network manager returns, or waits for ever.
stop_returns :
    (env : Platform) (n : Network Console)
    → ((stop env n).0 ≡ ok tt) ⊎ ((u : Fault) × ((stop env n).0 ≡ undefined u))
stop_returns env n = elim (Bool-cases n.running) [
  | inr off ↦ inl (ap (λ r. r.0) (stop-stopped env n off))
  | inl on ↦ elim (Bool-cases n.locked) [
    | inr free ↦ inl (stop-ends env n free).0
    | inl held ↦ inr (relock, stop-locked env n on held)
  ]
]

-- a thread that waits for ever
abbrev pub Hangs : Fault → Process → Type 0
Hangs u p = Unit {0}

abbrev pub Never : Process → Type 0
Never p = ⊥

module _ (m : Machine) (files : UnorderedMap Bytes) (file : Bytes) where
  -- The peers file was written from a state of the peer manager, if it can be, and no other file.
  abbrev pub Saves : Process → Type 0
  Saves p =
      (pm : PeerManager) × (p.files
        ≡ written file (save_peers_to_file m.platform.peers_order (m.writable file) pm) files)

  abbrev Untouched : Process → Type 0
  Untouched p = p.files ≡ files

  -- what an exit says of the files: of the status 0, and of a thread that threw
  abbrev pub Final : Exit → Process → Type 0
  Final (returned status) p = (status ≡ 0) × Saves p
  Final terminated p = Untouched p ⊎ Saves p

  thread_over :
      (P : Process → Type 0) (r : Result (Unit {0})) (p : Process)
      → P p
      → Outcome
          (λ ended. P)
          Never
          Hangs
          (elim r as (λ _. Result Bool × Process) [
            | ok a ↦ (ok true, p)
            | throw e ↦ (ok false, p)
            | undefined u ↦ (undefined u, p)
          ])
  thread_over P (ok a) p h = h
  thread_over P (throw e) p h = h
  thread_over P (undefined u) p h = tt

  in_thread-Does :
      (P : Process → Type 0) (work : Exec Cli (Unit {0}))
      → ((p : Process) (c : Cli) → P p → P (record p { cli = c }))
      → Does P (in_thread work) (λ ended. P) Never Hangs
  unfolding in_thread
  in_thread-Does P work kept = record { at = λ p h. thread_over P _ _ (kept p _ h) }

  stopped :
      (r : Result (Unit {0})) (n : Network Console) (p : Process)
      → (r ≡ ok tt) ⊎ ((u : Fault) × (r ≡ undefined u))
      → Untouched p
      → Outcome (λ _. Untouched) Never Hangs (r, record p { cli = record p.cli { network = n } })
  stopped (ok a) n p ends h = h
  stopped (throw e) n p (inl h) k = cc
  stopped (throw e) n p (inr (u, h)) k = cc
  stopped (undefined u) n p ends h = tt

  awaited-ends :
      (b : Bool) (p : Process) → Untouched p → Outcome (λ _. Untouched) Never Hangs (awaited b, p)
  awaited-ends true p h = h
  awaited-ends false p h = tt

  shut_down-Does : Does Untouched (shut_down m file) (λ _. Saves) Never Hangs
  unfolding shut_down on_cli on_network modify lift
  shut_down-Does =
      Does-bind {Q = λ _. Untouched} _ _ (record { at = λ p h. h })
        λ _.
          Does-bind {Q = λ _. Untouched} _ _
            (record { at = λ p h. awaited-ends m.display_ends p h })
            λ _.
              Does-bind {Q = λ _. Untouched} _ _
                (record { at = λ p h. stopped _ _ p (stop_returns m.platform (net p)) h })
                λ _. Does-modify _ (λ p h. (
                  manager_of p,
                  ap
                      (written file (
                        save_peers_to_file m.platform.peers_order (m.writable file) (manager_of p)))
                      h,
                ))

  ended-Does :
      (ended : Bool) (next : Exec Process Exit)
      → Does Untouched next Final Never Hangs
      → Does Untouched
          (elim ended as (λ _. Exec Process Exit) [ false ↦ pure terminated | true ↦ next ])
          Final
          Never
          Hangs
  unfolding pure
  ended-Does true next d = d
  ended-Does false next d = record { at = λ p h. inl h }

  joined-Does :
      (joined : Bool)
      → Does Saves
          (elim joined as (λ _. Exec Process Exit) [
            | true ↦ pure (returned 0)
            | false ↦ pure terminated
          ])
          Final
          Never
          Hangs
  unfolding pure
  joined-Does true = record { at = λ p h. (refl, h) }
  joined-Does false = record { at = λ p h. inr h }

  -- The command line's thread, and what follows it, do not throw.
  pub run_cli-Does :
      (events : List Event) (line : Option Bytes)
      → Does Untouched (run_cli m file events line) Final Never Hangs
  unfolding run_cli gets
  run_cli-Does events line = Does-bind _ _ (in_thread-Does Untouched _ (λ p c h. h)) λ ended.
      ended-Does ended _ (
        Does-bind {Q = λ running. Untouched} _ _ (record { at = λ p h. h })
          λ running.
            Does-bind _ _ shut_down-Does
              λ _. Does-bind _ _ (in_thread-Does Saves _ (λ p c h. h)) λ joined. joined-Does joined)
