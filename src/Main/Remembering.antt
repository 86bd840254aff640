-- ===== src/Main/Remembering.antt =====
-- A peer that introduced itself in one run is known in the next.
use cpp_p2pchat.Base.{
  ℕ, ◌+◌, ◌^◌, ◌<◌, ◌≡◌, ◌≢◌, refl, ap, ◌∙◌, true, false, List, [], ◌∷◌, Option, none, some, ℤ,
  length, All, if◌then◌else◌,
}
use cpp_p2pchat.Std.Result.{Bytes, ok}
use cpp_p2pchat.Std.Text.{Lacks, str_eq_refl}
use cpp_p2pchat.Std.Exec.{◌>>=◌}
use cpp_p2pchat.Std.UnorderedMap.{UnorderedMap, find, find-insert}
use cpp_p2pchat.Message.RoundTrip.{FitsInt64}
use cpp_p2pchat.PeerManager.{
  PeerInfo, PeerManager, get_peer, save_peers_to_file, save_lines, load_peers_from_file, bar,
  newline, with_status,
}
use cpp_p2pchat.PeerManager.SavedLine.{IsStorable, reloaded}
use cpp_p2pchat.PeerManager.Reload.{load-save, kept, null}
use cpp_p2pchat.Network.{Platform, History, Call, introduced, make_network}
use cpp_p2pchat.Main.Process.{
  Options, Machine, Process, returned, manager_of, on_manager, new_process,
}
use cpp_p2pchat.Main.Stages.{load_peers, start_up, run_cli, written, caught, main}
use cpp_p2pchat.Main.Outcomes.{Does-bind}
use cpp_p2pchat.Main.Starting.{Begins}
use cpp_p2pchat.Main.Greeting.{greeter, now_of, greet_and_quit}
use cpp_p2pchat.Main.Succeeding.{Empty, start_up-returns}
use cpp_p2pchat.Main.Stopping.{Remembered, run_cli-Does, ended_well, only-IsValid, only-IsStorable}

-- the peer as the next run knows it: not connected, without an address, and with the port that the
-- uninitialised field held
abbrev pub remembered : Platform → Bytes → Bytes → ℤ → PeerInfo
remembered env id key now = record {
  id = id;
  address = [];
  port = env.stray_port;
  public_key = key;
  is_connected = false;
  last_seen = now;
}

null-of_ne : (key : Bytes) → key ≢ [] → null key ≡ false
null-of_ne [] h = absurd (h refl)
null-of_ne (b ∷ key) h = refl

find-written :
    (file content : Bytes) (files : UnorderedMap Bytes)
    → find file (written file (some content) files) ≡ some content
unfolding written
find-written file content files = rw (find-insert file file content files, str_eq_refl file) refl

module _ (m : Machine) (id key : Bytes) (id_bar : Lacks bar id) (id_newline : Lacks newline id)
    (port_range : m.platform.stray_port < 2 ^ 16) (key_bytes : All (λ b. b < 256) key)
    (keyed : key ≢ []) where
  greeter-IsStorable : (now : ℤ) → IsStorable (greeter m.platform id key now)
  unfolding with_status introduced
  greeter-IsStorable now = record {
    id_bar = id_bar;
    id_newline = id_newline;
    address_bar = tt;
    address_newline = tt;
    port_range = port_range;
    key_bytes = key_bytes;
  }

  kept-greeter :
      (later now : ℤ)
      → kept later (some (greeter m.platform id key now))
        ≡ some (remembered m.platform id key later)
  unfolding with_status introduced reloaded
  kept-greeter later now = rw (null-of_ne key keyed) refl

  -- what a load of the saved file finds
  reloads :
      (pm fresh : PeerManager) (later now : ℤ)
      → pm.peers ≡ (id, greeter m.platform id key now) ∷ []
      → fresh.peers ≡ []
      → let it = m.platform.peers_order in
        let loaded = load_peers_from_file later (save_peers_to_file it true pm) fresh in
        (loaded.0 ≡ ok tt) × (get_peer id loaded.1 ≡ some (remembered m.platform id key later))
  unfolding get_peer find with_status introduced
  reloads pm fresh later now e none_yet =
      let peer = greeter m.platform id key now in
      let loaded =
        load-save m.platform.peers_order pm fresh later id (only-IsValid pm id peer e refl)
          (only-IsStorable pm id peer e (greeter-IsStorable now)) none_yet in
      let entry : get_peer id pm ≡ some peer = ap (find id) e ∙ rw (str_eq_refl id) refl in
      (loaded.0, loaded.1 ∙ ap (kept later) entry ∙ kept-greeter later now)

  -- the start of the next run
  load_peers-remembers :
      (file : Bytes) (files : UnorderedMap Bytes) (p : Process) (stray : ℕ) (later : ℤ)
      → m.writable file ≡ true
      → Remembered m files file id key p
      → let (r, next) = load_peers file (new_process stray later p.files) in
        (r ≡ ok tt) × (get_peer id (manager_of next) ≡ some (remembered m.platform id key later))
  unfolding load_peers on_manager new_process make_network save_peers_to_file
  load_peers-remembers file files p stray later writable h =
      let it = m.platform.peers_order in
      let saved =
        ap (λ b. find file (written file (save_peers_to_file it b (manager_of p)) files))
          writable in
      let found : find file p.files ≡ some (save_lines (it.arrange (manager_of p).peers)) =
        ap (find file) h.1 ∙ saved ∙ find-written file _ files in
      rw found (reloads (manager_of p) _ later (now_of p.cli) h.0 refl)

  -- From one run to the next. A program is started without `--help` and `--connect` and with a peers
  -- file that does not exist yet and can be written, whatever OpenSSL answers: ZeroMQ takes every call,
  -- exactly two things happen, that a peer's handshake arrives under the peer's own id and that `quit`
  -- is typed, and the display thread ends when the command line stops. The router thread is taken to be
  -- outside its uses of the socket while `NetworkManager::Stop` destroys it. Then the program returns
  -- the status 0, and when it is started again it loads the peer from the file: under the same id and
  -- key, not connected, with no address, seen at the time of the load, and with the port that an
  -- uninitialised field held in the first run. The id has fewer than 2^16 bytes and holds no colon,
  -- vertical bar or newline, the key is not empty and consists of bytes, the two and the length fit in
  -- 32 bits, the handshake's timestamp in 64, and the port in 16.
  pub main-remembers :
      (files : UnorderedMap Bytes) (options : Options) (t later : ℤ) (line : Option Bytes)
      (l : List ℕ) (p : Process) (stray : ℕ)
      → ((h : History) (c : Call) → m.platform.accepts h c ≡ true)
      → m.display_ends ≡ true
      → m.writable options.peers_file ≡ true
      → options.help ≡ false
      → options.connect ≡ none
      → find options.peers_file files ≡ none
      → length id < 2 ^ 16
      → 2 + (length id + length key) < 2 ^ 32
      → FitsInt64 t
      → Lacks b':' id
      → Begins files Empty l p
      → let (r, q) = main m (ok options) (greet_and_quit id key t) line p in
        let (s, next) = load_peers options.peers_file (new_process stray later q.files) in
        (r ≡ ok (returned 0))
        × (s ≡ ok tt)
        × (get_peer id (manager_of next) ≡ some (remembered m.platform id key later))
  unfolding main
  main-remembers files options t later line l p stray accepting ends writable no_help no_connect
        missing short small fits plain begins =
      let file = options.peers_file in
      let body =
        Does-bind _ (λ _. run_cli m file (greet_and_quit id key t) line)
          (start_up-returns m files accepting options l no_connect missing)
          (λ _. run_cli-Does m files file id key t line ends short small fits plain) in
      let ran = (start_up m options >>= λ _. run_cli m file (greet_and_quit id key t) line) p in
      let ended = ended_well m files file id key ran.0 ran.1 (body.at p begins) in
      let same = ap (λ help. if help then (ok (returned 0), p) else caught m ran) no_help in
      let loaded = load_peers-remembers file files (caught m ran).1 stray later writable ended.1 in
      rw same (ended.0, loaded.0, loaded.1)
