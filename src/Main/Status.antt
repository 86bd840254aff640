-- ===== src/Main/Status.antt =====
-- What the program's status says of its files.
use cpp_p2pchat.Base.{
  ℕ, ◌≡◌, refl, ap, false, List, Option, none, some, inl, inr, ◌⊎◌, Option-cases,
}
use cpp_p2pchat.Std.Result.{Bytes, Result, Fault, ok, throw, undefined}
use cpp_p2pchat.Std.Exec.{◌>>=◌, pure}
use cpp_p2pchat.Std.Text.{split_at}
use cpp_p2pchat.Std.UnorderedMap.{UnorderedMap}
use cpp_p2pchat.Cli.{on_network}
use cpp_p2pchat.Main.Process.{Options, Machine, Process, Exit, returned, terminated, Event, on_cli}
use cpp_p2pchat.Main.Stages.{dial_initial, start_up, run_cli, caught, main}
use cpp_p2pchat.Main.Outcomes.{Outcome, Does, Does-bind}
use cpp_p2pchat.Main.Starting.{
  net, Any, Calm, Begins, Started, identify-Does, load_peers-Does, start-Does,
}
use cpp_p2pchat.Main.Dialling.{Waits, dial_initial-Does, stop-ends}
use cpp_p2pchat.Main.Saving.{Hangs, Never, Final, Saves, run_cli-Does}

module _ (m : Machine) (files : UnorderedMap Bytes) where
  at_worst :
      (r : Result (Unit {0}) × Process)
      → Outcome (λ _ _. ⊥) (Calm files) (Waits files) r
      → Outcome (λ _. Started files Any) (Calm files) Hangs r
  at_worst (ok a, p) h = absurd h
  at_worst (throw e, p) h = h
  at_worst (undefined u, p) h = tt

  dials-Does :
      (connect : Option Bytes)
      → Does
          (Started files Any)
          (dial_initial m connect)
          (λ _. Started files Any)
          (Calm files)
          Hangs
  unfolding dial_initial pure
  dials-Does none = record { at = λ p h. h }
  dials-Does (some text) = elim (Option-cases (split_at b':' text)) [
    | inl none_found ↦ rw (none_found, dial_initial) (record { at = λ p h. h })
    | inr ((address, port_text), found) ↦ record {
      at = λ p h.
          at_worst (dial_initial m (some text) p)
            ((dial_initial-Does files m text address port_text found).at p h);
    }
  ]

  start_up-Does :
      (options : Options) (l : List ℕ)
      → Does (Begins files Any l) (start_up m options) (λ _. Started files Any) (Calm files) Hangs
  unfolding start_up
  start_up-Does options l =
      Does-bind _ _ (identify-Does files Any (Calm files) Hangs m options.port l) λ _.
        Does-bind _ _ (load_peers-Does files Hangs options.peers_file) λ _.
          Does-bind _ _ (start-Does files Any Hangs m options.port) λ _. dials-Does options.connect

module _ (m : Machine) (files : UnorderedMap Bytes) (file : Bytes) where
  -- what the end of the program says of the files
  abbrev pub Status : Result Exit × Process → Type 0
  Status e =
      ((e.0 ≡ ok (returned 1)) × (e.1.files ≡ files))
      ⊎ (((e.0 ≡ ok (returned 0)) × Saves m files file e.1)
          ⊎ (((e.0 ≡ ok terminated) × ((e.1.files ≡ files) ⊎ Saves m files file e.1))
              ⊎ ((u : Fault) × (e.0 ≡ undefined u))))

  never_throws :
      (r : Result Exit × Process)
      → Outcome (Final m files file) Never Hangs r
      → Outcome (Final m files file) (Calm files) Hangs r
  never_throws (ok exit, p) h = h
  never_throws (throw e, p) h = absurd h
  never_throws (undefined u, p) h = tt

  caught-Status :
      (r : Result Exit) (p : Process)
      → Outcome (Final m files file) (Calm files) Hangs (r, p)
      → Status (caught m (r, p))
  unfolding caught on_cli on_network pure ◌>>=◌
  caught-Status (ok (returned status)) p h = inr (inl (ap (λ k. ok (returned k)) h.0, h.1))
  caught-Status (ok terminated) p h = inr (inr (inl (refl, h)))
  caught-Status (throw e) p h = inl (rw (stop-ends m.platform (net p) h.1.1).0 (refl, h.0))
  caught-Status (undefined u) p h = inr (inr (inr (u, refl)))

-- A program that is started, and not for its help, ends with the status 1 only with the files as they
-- were, and with the status 0 only after the peers file was written, if it can be, and no other. Where
-- an exception leaves one of its threads, one of the two holds of the files. It has no other status, or
-- its behaviour is undefined or it waits for ever.
pub main-Status :
    (m : Machine) (options : Options) (events : List Event) (line : Option Bytes)
    (files : UnorderedMap Bytes) (l : List ℕ) (p : Process)
    → options.help ≡ false
    → Begins files Any l p
    → Status m files options.peers_file (main m (ok options) events line p)
unfolding main start_up
main-Status m options events line files l p no_help begins =
    let file = options.peers_file in
    rw no_help (
      caught-Status m files file _ _ (
        (Does-bind (start_up m options) (λ _. run_cli m file events line)
            (start_up-Does m files options l)
            (λ _. record {
              at = λ q h.
                  never_throws m files file _ ((run_cli-Does m files file events line).at q h.0.0);
            })).at
          p begins))
