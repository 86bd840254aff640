-- ===== src/Main/Tests.antt =====
-- Whole runs of the program on concrete input.
use cpp_p2pchat.Base.{◌≡◌, refl, true, false, [], ◌∷◌, none, some, arith, pos}
use cpp_p2pchat.Std.Result.{ok}
use cpp_p2pchat.Std.Text.{codes, split_at, str_eq}
use cpp_p2pchat.Std.UnorderedMap.{in_order, find}
use cpp_p2pchat.Message.{fits_int64}
use cpp_p2pchat.PeerManager.{get_peer}
use cpp_p2pchat.Network.{make_network}
use cpp_p2pchat.Main.Process.{Options, Machine, Process, returned, typed, new_process, manager_of}
use cpp_p2pchat.Main.Stages.{load_peers, main}
use cpp_p2pchat.Main.Starting.{Any, Begins, Peers}
use cpp_p2pchat.Main.Greeting.{greet_and_quit}
use cpp_p2pchat.Main.Succeeding.{Empty}
use cpp_p2pchat.Main.Status.{Status, main-Status}
use cpp_p2pchat.Main.Dialling.{Gone, main-never_chats}
use cpp_p2pchat.Main.Remembering.{remembered, main-remembers}

-- everything outside the program does what it is asked
abbrev willing : Machine
willing = record {
  platform = record {
    accepts = λ h c. true;
    sockets_order = in_order;
    peers_order = in_order;
    stray_port = 7;
  };
  open_ssl = record {
    makes = λ before c. true;
    status = λ before c. pos 1;
    size = λ before c. 3;
    output = λ before c. codes "pem";
    sha256 = λ text. 1 ∷ 2 ∷ 3 ∷ 4 ∷ 5 ∷ 6 ∷ 7 ∷ 8 ∷ [];
  };
  writable = λ file. true;
  display_ends = true;
}

abbrev plain : Options
plain = record { help = false; port = 8080; connect = none; peers_file = codes "peers.txt" }

abbrev dialling : Options
dialling = record plain { connect = some (codes "10.0.0.2:8081") }

-- a program about to start, in a directory with one file of another name
abbrev started : Process
started = new_process 0 (pos 5) ((codes "notes", codes "x") ∷ [])

started_calm : (K : Peers → Type 0) → K [] → Begins ((codes "notes", codes "x") ∷ []) K [] started
unfolding new_process make_network
started_calm K k = (((refl, (refl, refl)), (refl, refl, refl, refl), k), (refl, tt))

main-never_chats_example :
    Gone
      ((codes "notes", codes "x") ∷ [])
      (main willing (ok dialling) (typed (codes "hi") ∷ []) none started)
unfolding split_at
main-never_chats_example =
    main-never_chats ((codes "notes", codes "x") ∷ []) willing dialling (codes "10.0.0.2:8081")
      (codes "10.0.0.2") (codes "8081") (typed (codes "hi") ∷ []) none [] started refl refl refl
      (started_calm Any tt)

main-Status_example :
    Status willing
      ((codes "notes", codes "x") ∷ [])
      (codes "peers.txt")
      (main willing (ok plain) (typed (codes "hi") ∷ []) none started)
main-Status_example =
    main-Status willing plain (typed (codes "hi") ∷ []) none ((codes "notes", codes "x") ∷ []) []
      started refl (started_calm Any tt)

main-remembers_example :
    let (r, q) =
      main willing (ok plain) (greet_and_quit (codes "ann") (1 ∷ 2 ∷ []) (pos 6)) none started in
    let (s, next) = load_peers (codes "peers.txt") (new_process 3 (pos 9) q.files) in
    (r ≡ ok (returned 0))
    × (s ≡ ok tt)
    × (get_peer (codes "ann") (manager_of next)
        ≡ some (remembered willing.platform (codes "ann") (1 ∷ 2 ∷ []) (pos 9)))
unfolding find str_eq
main-remembers_example =
    main-remembers willing (codes "ann") (1 ∷ 2 ∷ []) (ground arith) (ground arith) (omega arith)
      (ground arith) (ground arith) ((codes "notes", codes "x") ∷ []) plain (pos 6) (pos 9) none []
      started 3 (λ h c. refl) refl refl refl refl refl (omega arith) (omega arith)
      (unfold fits_int64 in refl) (ground arith) (started_calm Empty refl)
