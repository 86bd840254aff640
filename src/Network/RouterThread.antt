-- ===== src/Network/RouterThread.antt =====
-- The thread of `RouteMessages` beside `Stop`, turn by turn: where each touches the router socket.
use cpp_p2pchat.Base.{◌≡◌, Bool, true, false, if◌then◌else◌, List, [], ◌∷◌}
use cpp_p2pchat.Std.Result.{Result, ok, undefined, dangling, ◌>>=◌}

-- Where the thread is: before the test of `running_`; before it takes the handle of the socket; in
-- `zmq::poll`; before the receipt of the identity, and of the message; in `Deserialize` and
-- `HandleMessage`; in `SendViaRouter`, before the test of the socket, before the sending of the id, and
-- of the message; at its end.
pub data RouterPlace : Type 0 where
  looping entering polling receiving receiving_frame : RouterPlace
  handling answering sending sending_frame finished : RouterPlace

-- `routerSocket_`: usable, closed, or reset to null.
pub data RouterSocket : Type 0 where
  usable shut gone : RouterSocket

-- what `Stop` has done: nothing, `running_ = false`, `close()`, `reset()`, and the join
pub data StopStage : Type 0 where
  unstopped flagged shutting resetting rejoined : StopStage

pub record RouterRun : Type 0 where
  pub running : Bool
  pub socket : RouterSocket
  pub place : RouterPlace
  pub stage : StopStage

-- the thread that `Start` starts
abbrev pub first_run : RouterRun
first_run = record { running = true; socket = usable; place = looping; stage = unstopped }

-- The place after a call of `recv` or `send`: `answer` says whether ZeroMQ gives or takes a part. A
-- closed socket throws `zmq::error_t`, which is caught, and the null pointer must not be used.
unfoldable pub after_call : RouterSocket → Bool → RouterPlace → Result RouterPlace
after_call usable answer next = ok (if answer then next else looping)
after_call shut answer next = ok looping
after_call gone answer next = undefined dangling

-- The next place of the thread. `answer` says what ZeroMQ answers to the call that it makes there, if
-- it makes one, and of a message whether it is a handshake that `HandleMessage` answers; a poll that
-- throws is one that finds nothing. The handle of a closed socket is null, which may be polled.
unfoldable pub next_place : RouterPlace → Bool → RouterRun → Result RouterPlace
unfolding after_call
next_place looping answer r = ok (if r.running then entering else finished)
next_place entering answer r = elim r.socket [ gone ↦ undefined dangling | _ ↦ ok polling ]
next_place polling answer r = ok (if answer then receiving else looping)
next_place receiving answer r = after_call r.socket answer receiving_frame
next_place receiving_frame answer r = after_call r.socket answer handling
next_place handling answer r = ok (if answer then answering else looping)
next_place answering answer r = elim r.socket [ gone ↦ ok looping | _ ↦ ok sending ]
next_place sending answer r = after_call r.socket answer sending_frame
next_place sending_frame answer r = after_call r.socket answer looping
next_place finished answer r = ok finished

unfoldable pub router_turn : Bool → RouterRun → Result RouterRun
unfolding next_place
router_turn answer r = do place ← next_place r.place answer r; ok (record r { place = place })

-- The next step of `Stop`; the join waits for the end of the thread.
unfoldable pub stop_step : StopStage → RouterRun → RouterRun
stop_step unstopped r = record r { running = false; stage = flagged }
stop_step flagged r = record r { socket = shut; stage = shutting }
stop_step shutting r = record r { socket = gone; stage = resetting }
stop_step resetting r = elim r.place [ finished ↦ record r { stage = rejoined } | _ ↦ r ]
stop_step rejoined r = r

-- the states that the two threads' turns lead to
pub data Raced : RouterRun → Type 0 where
  started : Raced first_run
  routed : (answer : Bool) (r r' : RouterRun) → Raced r → router_turn answer r ≡ ok r' → Raced r'
  stopping : (r : RouterRun) → Raced r → Raced (stop_step r.stage r)

-- turns of the thread alone, with these answers
unfoldable pub router_turns : List Bool → RouterRun → Result RouterRun
router_turns [] r = ok r
router_turns (answer ∷ answers) r = do r' ← router_turn answer r; router_turns answers r'
