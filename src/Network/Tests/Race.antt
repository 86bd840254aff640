-- ===== src/Network/Tests/Race.antt =====
-- A message arrives while `Stop` runs.
use cpp_p2pchat.Base.{[], ◌∷◌, ◌≡◌, refl, true, false}
use cpp_p2pchat.Std.Result.{undefined, dangling}
use cpp_p2pchat.Network.RouterThread.{
  RouterPlace, entering, polling, receiving, finished, gone, unstopped, flagged, resetting,
  rejoined, RouterRun, first_run, next_place, router_turn, stop_step, Raced, started, routed,
  stopping, router_turns,
}
use cpp_p2pchat.Network.StopRace.{Raced-decides}

abbrev at : RouterPlace → RouterRun
at place = record first_run { place = place }

receives : Raced (at receiving)
unfolding router_turn next_place
receives =
    routed true (at polling) (at receiving)
      (routed true (at entering) (at polling) (routed true first_run (at entering) started refl)
        refl)
      refl

abbrev destroyed : RouterRun
destroyed = record { running = false; socket = gone; place = receiving; stage = resetting }

destroyed-Raced : Raced destroyed
unfolding stop_step
destroyed-Raced =
    let one = stop_step unstopped (at receiving) in
    let two = stop_step flagged one in
    stopping two (stopping one (stopping (at receiving) receives))

Raced-decides_example :
    (router_turns (true ∷ true ∷ true ∷ []) destroyed ≡ undefined dangling)
    × (stop_step resetting (record destroyed { place = finished })
        ≡ record destroyed { place = finished; stage = rejoined })
Raced-decides_example = Raced-decides destroyed true true true destroyed-Raced refl
