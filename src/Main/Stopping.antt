-- ===== src/Main/Stopping.antt =====
-- How the program stops, and what it saves, after one peer introduced itself.
use cpp_p2pchat.Base.{
  ◌+◌, ◌^◌, ◌<◌, ◌≡◌, refl, ap, sym, ◌∙◌, Bool, true, false, [], ◌∷◌, Option, some, ℤ, arith,
  length,
}
use cpp_p2pchat.Std.Result.{Bytes, Result, ok, throw, undefined}
use cpp_p2pchat.Std.Text.{Lacks, str_eq_iff}
use cpp_p2pchat.Std.Exec.{Exec, ◌>>=◌, pure, lift, modify, gets}
use cpp_p2pchat.Std.UnorderedMap.{UnorderedMap, find}
use cpp_p2pchat.Message.RoundTrip.{FitsInt64}
use cpp_p2pchat.PeerManager.{PeerInfo, PeerManager, get_peer, save_peers_to_file}
use cpp_p2pchat.PeerManager.Lookup.{IsValid}
use cpp_p2pchat.PeerManager.SavedLine.{IsStorable}
use cpp_p2pchat.Network.{Network}
use cpp_p2pchat.Cli.{Console, on_network}
use cpp_p2pchat.Main.Process.{
  Machine, Process, Exit, returned, terminated, manager_of, on_cli, in_thread,
}
use cpp_p2pchat.Main.Stages.{run_cli, shut_down, written, awaited, last_line, caught}
use cpp_p2pchat.Main.Outcomes.{Outcome, Does, Does-bind, Does-modify}
use cpp_p2pchat.Main.Starting.{net}
use cpp_p2pchat.Main.Dialling.{stop-ends}
use cpp_p2pchat.Main.Greeting.{greeter, now_of, Alone, Met, greet_and_quit, session-Does}
use cpp_p2pchat.Main.Succeeding.{No, Never, With, in_thread-Does}

module _ (m : Machine) (files : UnorderedMap Bytes) (file id key : Bytes) where
  abbrev pub Remembered : Process → Type 0
  Remembered p =
      ((manager_of p).peers ≡ (id, greeter m.platform id key (now_of p.cli)) ∷ [])
      × (p.files
          ≡ written file
              (save_peers_to_file m.platform.peers_order (m.writable file) (manager_of p)) files)

  -- The program stopped where the command line was so.
  abbrev Stopped : Process → Type 0
  Stopped p =
      (p.files ≡ files)
      × ((manager_of p).peers ≡ (id, greeter m.platform id key (now_of p.cli)) ∷ [])

  stopped :
      (p : Process) (r : Result (Unit {0})) (n : Network Console)
      → With files (Met m.platform id key false) p
      → (r ≡ ok tt) × (n.shared ≡ (net p).shared)
      → Outcome (λ _. Stopped) No Never (r, record p { cli = record p.cli { network = n } })
  stopped p (ok a) n h e = (h.0, rw e.1 h.1.1)
  stopped p (throw x) n h e = cc
  stopped p (undefined u) n h e = cc

  awaited-ends :
      (P : Process → Type 0) (b : Bool) (p : Process)
      → b ≡ true
      → P p
      → Outcome (λ _. P) No Never (awaited b, p)
  awaited-ends P true p e h = h
  awaited-ends P false p e h = cc

  shut_down-Does :
      m.display_ends ≡ true
      → Does
          (With files (Met m.platform id key false))
          (shut_down m file)
          (λ _. Remembered)
          No
          Never
  unfolding shut_down on_cli on_network modify lift
  shut_down-Does ends =
      Does-bind {Q = λ _. With files (Met m.platform id key false)} _ _
        (record { at = λ p h. (h.0, (h.1.0, h.1.1, refl)) })
        λ _.
          Does-bind {Q = λ _. With files (Met m.platform id key false)} _ _
            (record {
              at = λ p h.
                  awaited-ends (With files (Met m.platform id key false)) m.display_ends p ends h;
            })
            λ _.
              Does-bind {Q = λ _. Stopped} _ _
                (record { at = λ p h. stopped p _ _ h (stop-ends m.platform (net p) h.1.0.1) })
                λ _. Does-modify _ (λ p h. (
                  h.1,
                  ap
                      (written file (
                        save_peers_to_file m.platform.peers_order (m.writable file) (manager_of p)))
                      h.0,
                ))

  -- a thread whose function came to its end
  joined-Does :
      {P : Process → Type 0} (ended : Bool) (next : Exec Process Exit)
      → Does P next (λ exit q. (exit ≡ returned 0) × Remembered q) No Never
      → Does
          (λ p. (ended ≡ true) × P p)
          (elim ended as (λ _. Exec Process Exit) [ false ↦ pure terminated | true ↦ next ])
          (λ exit q. (exit ≡ returned 0) × Remembered q)
          No
          Never
  joined-Does true next d = record { at = λ p h. d.at p h.1 }
  joined-Does false next d = record { at = λ p h. cc }

  finish-Does :
      (running : Bool) (line : Option Bytes)
      → m.display_ends ≡ true
      → Does
          (λ p. (running ≡ false) × With files (Met m.platform id key false) p)
          (shut_down m file >>= λ _. in_thread (last_line m running line) >>= λ joined.
            elim joined as (λ _. Exec Process Exit) [
              | true ↦ pure (returned 0)
              | false ↦ pure terminated
            ])
          (λ exit q. (exit ≡ returned 0) × Remembered q)
          No
          Never
  unfolding last_line in_thread pure
  finish-Does true line ends = record { at = λ p h. cc }
  finish-Does false line ends =
      Does-bind {Q = λ _. Remembered} _ _ (record { at = λ p h. (shut_down-Does ends).at p h.1 })
        λ _.
          Does-bind {Q = λ joined q. (joined ≡ true) × Remembered q} _ _
            (record { at = λ p h. (refl, h) })
            λ joined. joined-Does joined (pure (returned 0)) (record { at = λ p h. (refl, h) })

  pub run_cli-Does :
      (t : ℤ) (line : Option Bytes)
      → m.display_ends ≡ true
      → length id < 2 ^ 16
      → 2 + (length id + length key) < 2 ^ 32
      → FitsInt64 t
      → Lacks b':' id
      → Does
          (With files Alone)
          (run_cli m file (greet_and_quit id key t) line)
          (λ exit q. (exit ≡ returned 0) × Remembered q)
          No
          Never
  unfolding run_cli gets
  run_cli-Does t line ends short small fits plain =
      Does-bind _ _
        (in_thread-Does files _
          (session-Does m id key (λ _. ⊥) (λ _ _. ⊥) t short small fits plain))
        λ ended. joined-Does ended _ (
          Does-bind
            {Q = λ running p. (running ≡ false) × With files (Met m.platform id key false) p} _ _
            (record { at = λ p h. (h.1.2, h) }) λ running. finish-Does running line ends)

  pub ended_well :
      (r : Result Exit) (p : Process)
      → Outcome (λ exit q. (exit ≡ returned 0) × Remembered q) No Never (r, p)
      → let a = caught m (r, p) in (a.0 ≡ ok (returned 0)) × Remembered a.1
  unfolding caught
  ended_well (ok exit) p h = (ap ok h.0, h.1)
  ended_well (throw e) p h = absurd h
  ended_well (undefined u) p h = absurd h

-- A peer of a map with one entry is that entry.
only_entry :
    (id k : Bytes) (peer p : PeerInfo) → find k ((id, peer) ∷ []) ≡ some p → (id ≡ k) × (peer ≡ p)
unfolding find
only_entry id k peer p h = ground (arith, str_eq_iff id k)

module _ (pm : PeerManager) (id : Bytes) (peer : PeerInfo) where
  pub only-IsValid : pm.peers ≡ (id, peer) ∷ [] → peer.id ≡ id → IsValid pm
  unfolding find
  only-IsValid e named = record {
    distinct = rw e (refl, tt);
    keyed = λ k p h.
        let (at_key, same) = only_entry id k peer p (ap (find k) (sym e) ∙ h) in
        ap (λ q. q.id) (sym same) ∙ named ∙ at_key;
  }

  pub only-IsStorable :
      pm.peers ≡ (id, peer) ∷ []
      → IsStorable peer
      → (k : Bytes) (p : PeerInfo) → get_peer k pm ≡ some p
      → IsStorable p
  unfolding get_peer
  only-IsStorable e storable k p h =
      rw (← (only_entry id k peer p (ap (find k) (sym e) ∙ h)).1) storable
