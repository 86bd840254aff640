-- ===== src/Cli/Outcomes.antt =====
-- How the commands that open connections and end the program turn out.
use cpp_p2pchat.Base.{
  ℕ, ◌%◌, ◌^◌, ◌≡◌, refl, true, false, List, [], ◌∷◌, some, arith, if◌then◌else◌, ap, sym, ◌∙◌,
}
use cpp_p2pchat.Std.Result.{Bytes, Result, Exception, ok, throw, undefined, relock}
use cpp_p2pchat.Std.Text.{codes}
use cpp_p2pchat.Std.Numbers.{stoul}
use cpp_p2pchat.Std.Exec.{◌>>=◌}
use cpp_p2pchat.Std.UnorderedMap.{find}
use cpp_p2pchat.Network.{Platform}
use cpp_p2pchat.Network.Connecting.{accepts_all, dial, connect_to_peer-never_returns}
use cpp_p2pchat.Cli.Display.{Line, Cli, failure, queue_display, on_network, on_shared, show}
use cpp_p2pchat.Cli.Words.{parse_command, first_word, add_word}
use cpp_p2pchat.Cli.Commands.{
  quit, commands, rescue, handle_connect, handle_quit, run_command, dispatch, process_command,
  main_loop,
}

-- The command line displays one more line, and the connections are as before.
abbrev pub Reports : Line → Cli → Result (Unit {0}) × Cli → Type 0
Reports line c (r, d) =
    (r ≡ ok tt)
    × (d.network.shared ≡ queue_display line c.network.shared)
    × (d.network.dealer_sockets ≡ c.network.dealer_sockets)
    × (d.network.locked ≡ false)
    × (d.running ≡ c.running)

abbrev pub invalid_port : Line
invalid_port = failure (codes "Invalid port number")

module _ (env : Platform) (c : Cli) (name address port_text : Bytes) (rest : List Bytes)
    (unlocked : c.network.locked ≡ false) where
  -- `connect` with a port that is no number reports an invalid port number and opens nothing.
  handle_connect-no_number :
      (e : Exception)
      → stoul 10 port_text ≡ throw e
      → Reports invalid_port c (handle_connect env (name ∷ address ∷ port_text ∷ rest) c)
  unfolding handle_connect rescue show on_shared ◌>>=◌
  handle_connect-no_number e h = ground arith

  -- With the mutex free, `connect` with a number as its port never says that it connects. If ZeroMQ
  -- refuses a call, the message is again that the port number is invalid, and the connections are
  -- as before. If ZeroMQ takes every call, the command never returns.
  pub handle_connect-outcome :
      (p : ℕ)
      → stoul 10 port_text ≡ ok p
      → let r = handle_connect env (name ∷ address ∷ port_text ∷ rest) c in
        if accepts_all env c.network.history (dial c.network address (p % 2 ^ 16))
        then r.0 ≡ undefined relock
        else Reports invalid_port c r
  unfolding handle_connect rescue show on_shared on_network ◌>>=◌
  handle_connect-outcome p h = ground (
    arith,
    connect_to_peer-never_returns env c.network.shared.display.clock address (p % 2 ^ 16) c.network
        unlocked,
  )

module _ (env : Platform) where
  quits :
      (input name : Bytes) (args : List Bytes)
      → find name commands ≡ some quit
      → dispatch env input (name ∷ args) ≡ handle_quit
  unfolding dispatch run_command
  quits input name args h = rw (h, dispatch)

  pub process_command-quits :
      (c : Cli) (input name : Bytes) (args : List Bytes)
      → parse_command input ≡ name ∷ args
      → find name commands ≡ some quit
      → process_command env input c ≡ handle_quit c
  unfolding process_command
  process_command-quits c input name args h q = rw h (ap (λ m. m c) (quits input name args q))

  main_loop-stopped :
      (inputs : List Bytes) (c : Cli) → c.running ≡ false → main_loop env inputs c ≡ (ok tt, c)
  unfolding main_loop
  main_loop-stopped [] c h = refl
  main_loop-stopped ([] ∷ inputs) c h = rw h
  main_loop-stopped ((x ∷ input) ∷ inputs) c h = rw h

  main_loop-step :
      (c d : Cli) (x : ℕ) (input : Bytes) (inputs : List Bytes)
      → c.running ≡ true
      → process_command env (x ∷ input) c ≡ (ok tt, d)
      → main_loop env ((x ∷ input) ∷ inputs) c ≡ main_loop env inputs d
  unfolding main_loop ◌>>=◌
  main_loop-step c d x input inputs running h = rw (h, running)

  pub handle_quit-stops :
      (c : Cli) → let d = (handle_quit c).1 in (handle_quit c ≡ (ok tt, d)) × (d.running ≡ false)
  unfolding handle_quit show on_shared ◌>>=◌
  handle_quit-stops c = (refl, refl)

  -- When a line is typed whose first word is `quit`, or another name of that command, the loop of
  -- `Run` ends, and no line that is typed after it is read.
  pub main_loop-quits :
      (c : Cli) (input name : Bytes) (args inputs : List Bytes)
      → c.running ≡ true
      → parse_command input ≡ name ∷ args
      → find name commands ≡ some quit
      → (main_loop env (input ∷ inputs) c ≡ handle_quit c)
        × ((handle_quit c).0 ≡ ok tt)
        × ((handle_quit c).1.running ≡ false)
  main_loop-quits c [] name args inputs running h q =
      absurd (unfold parse_command first_word add_word in (ground (arith, h)))
  main_loop-quits c (x ∷ input) name args inputs running h q =
      let (quitted, stopped) = handle_quit-stops c in
      let d = (handle_quit c).1 in
      (
        main_loop-step c d x input inputs running
              (process_command-quits c (x ∷ input) name args h q ∙ quitted)
            ∙ main_loop-stopped inputs d stopped
            ∙ sym quitted,
        ap (λ r. r.0) quitted,
        stopped,
      )
