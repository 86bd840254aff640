-- ===== src/Network/Senders.antt =====
-- The ids that frames come under, and the address and port that `HandleMessage` takes from them.
use cpp_p2pchat.Base.{ℕ, ◌-◌, ◌%◌, ◌^◌, ◌≡◌, refl, [], ◌∷◌, ◌++◌, ℤ, pos, negsuc}
use cpp_p2pchat.Std.Result.{Bytes, Result, ok, throw, undefined}
use cpp_p2pchat.Std.Text.{Lacks, split_at-none, split_at-append}
use cpp_p2pchat.Std.Numbers.{stoi}
use cpp_p2pchat.Network.Receiving.{to_port, sender_endpoint}

-- The id that a frame comes under: one without a colon, or an address, a colon and a port.
pub data Sender : Type 0 where
  plain : Bytes → Sender
  dialled : Bytes → Bytes → Sender

abbrev pub spelled : Sender → Bytes
spelled (plain s) = s
spelled (dialled address port) = address ++ b':' ∷ port

abbrev pub IsSender : Sender → Type 0
IsSender (plain s) = Lacks b':' s
IsSender (dialled address port) = Lacks b':' address

-- the number of a port, cut to 16 bits
abbrev pub numbered : Bytes → Result ℤ → Result (Bytes × ℕ)
numbered address (ok (pos k)) = ok (address, k % 2 ^ 16)
numbered address (ok (negsuc k)) = ok (address, 2 ^ 16 - 1 - k % 2 ^ 16)
numbered address (throw e) = throw e
numbered address (undefined u) = undefined u

-- the address and port of a sender
abbrev pub endpoint_of : ℕ → Sender → Result (Bytes × ℕ)
endpoint_of stray (plain s) = ok ([], stray)
endpoint_of stray (dialled address port) = numbered address (stoi port)

numbered-elim :
    (address : Bytes) (r : Result ℤ)
    → (elim r [ ok z ↦ ok (address, to_port z) | throw e ↦ throw e | undefined u ↦ undefined u ])
      ≡ numbered address r
unfolding to_port
numbered-elim address (ok (pos k)) = refl
numbered-elim address (ok (negsuc k)) = refl
numbered-elim address (throw e) = refl
numbered-elim address (undefined u) = refl

pub sender_endpoint-spelled :
    (stray : ℕ) (s : Sender) → IsSender s → sender_endpoint stray (spelled s) ≡ endpoint_of stray s
unfolding sender_endpoint
sender_endpoint-spelled stray (plain s) h = rw (split_at-none b':' s h, sender_endpoint) refl
sender_endpoint-spelled stray (dialled address port) h =
    rw (split_at-append b':' address port h, sender_endpoint) (numbered-elim address (stoi port))
