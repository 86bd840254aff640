-- ===== src/Network/StopRace.antt =====
-- `Stop` destroys the router socket before it joins the thread that uses it.
use cpp_p2pchat.Base.{[], ◌∷◌, ◌≡◌, refl, Bool, true, false, if◌then◌else◌, arith}
use cpp_p2pchat.Std.Result.{Result, ok, throw, undefined, dangling, ◌>>=◌}
use cpp_p2pchat.Network.RouterThread.{
  RouterPlace, looping, entering, polling, receiving, receiving_frame, handling, answering, sending,
  sending_frame, finished, RouterSocket, usable, shut, gone, StopStage, unstopped, flagged,
  shutting, resetting, rejoined, RouterRun, after_call, next_place, router_turn, stop_step, Raced,
  started, routed, stopping, router_turns,
}

-- how far `Stop` is shows in the flag and the socket
abbrev Shows : StopStage → Bool → RouterSocket → Type 0
Shows unstopped running socket = (running ≡ true) × (socket ≡ usable)
Shows flagged running socket = (running ≡ false) × (socket ≡ usable)
Shows shutting running socket = (running ≡ false) × (socket ≡ shut)
Shows _ running socket = (running ≡ false) × (socket ≡ gone)

abbrev InStep : RouterRun → Type 0
InStep r = Shows r.stage r.running r.socket

-- a turn of the thread moves only the thread
moves :
    (o : Result RouterPlace) (r r' : RouterRun)
    → (o >>= λ place. ok (record r { place = place })) ≡ ok r'
    → (r'.stage ≡ r.stage) × (r'.running ≡ r.running) × (r'.socket ≡ r.socket)
moves (ok place) r r' e = ground (arith, e)
moves (throw x) r r' e = ground (arith, e)
moves (undefined u) r r' e = ground (arith, e)

turn-InStep :
    (answer : Bool) (r r' : RouterRun) → router_turn answer r ≡ ok r' → InStep r → InStep r'
unfolding router_turn
turn-InStep answer r r' e h =
    let (stage, running, socket) = moves (next_place r.place answer r) r r' e in
    rw (stage, running, socket) h

step-InStep : (s : StopStage) (r : RouterRun) → r.stage ≡ s → InStep r → InStep (stop_step s r)
unfolding stop_step
step-InStep unstopped r e h = ground (arith, e)
step-InStep flagged r e h = ground (arith, e)
step-InStep shutting r e h = ground (arith, e)
step-InStep resetting r e h = ground (arith, e)
step-InStep rejoined r e h = h

Raced-InStep : {r : RouterRun} → Raced r → InStep r
Raced-InStep started = (refl, refl)
Raced-InStep (routed answer r r' h e) = turn-InStep answer r r' e (Raced-InStep h)
Raced-InStep (stopping r h) = step-InStep r.stage r refl (Raced-InStep h)

-- Whether the thread comes to a use of the socket before it tests the flag, if ZeroMQ answers so.
abbrev pub uses_socket : RouterPlace → Bool → Bool
uses_socket entering answer = true
uses_socket receiving answer = true
uses_socket receiving_frame answer = true
uses_socket sending answer = true
uses_socket sending_frame answer = true
uses_socket polling answer = answer
uses_socket _ answer = false

at_place :
    (p : RouterPlace) (r : RouterRun) (a b c : Bool)
    → r.place ≡ p
    → r.running ≡ false
    → r.socket ≡ gone
    → router_turns (a ∷ b ∷ c ∷ []) r
      ≡ (if uses_socket p a then undefined dangling else ok (record r { place = finished }))
unfolding router_turns router_turn next_place after_call
at_place looping r a b c h off null = ground arith
at_place entering r a b c h off null = ground arith
at_place polling r a b c h off null = ground arith
at_place receiving r a b c h off null = ground arith
at_place receiving_frame r a b c h off null = ground arith
at_place handling r a b c h off null = ground arith
at_place answering r a b c h off null = ground arith
at_place sending r a b c h off null = ground arith
at_place sending_frame r a b c h off null = ground arith
at_place finished r a b c h off null = ground arith

-- Once `Stop` has reset the router socket, and waits for the thread, all depends on where the thread is.
-- If it is about to take the handle of the socket, to receive a
-- part, or to send a part of its answer to a handshake, or if its poll says that there is something to
-- receive, it uses the null pointer. Otherwise, also in `HandleMessage` before it tests the socket, it
-- comes to its end in three turns, whatever ZeroMQ answers, and the join returns.
pub Raced-decides :
    (r : RouterRun) (a b c : Bool)
    → Raced r
    → r.stage ≡ resetting
    → let done = record r { place = finished } in
      (router_turns (a ∷ b ∷ c ∷ []) r
        ≡ (if uses_socket r.place a then undefined dangling else ok done))
      × (stop_step done.stage done ≡ record done { stage = rejoined })
unfolding stop_step
Raced-decides r a b c h e =
    let shows : Shows resetting r.running r.socket = rw e at (Raced-InStep h) in
    (at_place r.place r a b c refl shows.0 shows.1, rw e refl)
