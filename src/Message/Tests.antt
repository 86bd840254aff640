-- ===== src/Message/Tests.antt =====
-- Messages on concrete bytes.
use cpp_p2pchat.Base.{◌+◌, take, ◌≡◌, refl, List, [], ◌∷◌, ◌++◌, some, arith, pos, negsuc}
use cpp_p2pchat.Std.Result.{Bytes, ok, throw, undefined, runtime_error, out_of_bounds}
use cpp_p2pchat.Std.Text.{codes}
use cpp_p2pchat.Message.Words.{
  be_bytes, be_read, word64, signed64, to_millis, time_point, fits_int64,
}
use cpp_p2pchat.Message.Wire.{
  Message, text, file_chunk, serialize, size_field, time_field, deserialize, size_mismatch, range,
  of_byte,
}
use cpp_p2pchat.Message.Payloads.{create_peer_list_message}
use cpp_p2pchat.Message.RoundTrip.{IsMessage, whole_millis, deserialize-serialize}
use cpp_p2pchat.Message.Canonical.{serialize-deserialize}
use cpp_p2pchat.Message.Bounds.{deserialize_checked, deserialize_overread}
use cpp_p2pchat.Message.PeerLists.{read_peer_list, read_peer_list-create}

-- a text two milliseconds and a half before the epoch
abbrev early : Message
early = record { type = text; payload = codes "hi"; timestamp = negsuc 2_499_999 }

early-IsMessage : IsMessage early
early-IsMessage = record { typed = tt; sized = omega arith; timed = unfold fits_int64 in refl }

deserialize-serialize_example :
    deserialize (serialize early)
    ≡ ok (record early { timestamp = whole_millis (negsuc 2_499_999) })
deserialize-serialize_example = deserialize-serialize early early-IsMessage

-- Time before the epoch is cut off toward it.
whole_millis_test : whole_millis (negsuc 2_499_999) ≡ negsuc 1_999_999
unfolding whole_millis to_millis
whole_millis_test = refl

serialize_test :
    serialize early
    ≡ 0 ∷ 0 ∷ 0 ∷ 0 ∷ 2 ∷ 255 ∷ 255 ∷ 255 ∷ 255 ∷ 255 ∷ 255 ∷ 255 ∷ 254 ∷ 104 ∷ 105 ∷ []
unfolding serialize be_bytes word64 to_millis
serialize_test = refl

-- a file chunk that claims three bytes, and has two
abbrev cut : Bytes
cut = 5 ∷ 0 ∷ 0 ∷ 0 ∷ 3 ∷ 0 ∷ 0 ∷ 0 ∷ 0 ∷ 0 ∷ 0 ∷ 0 ∷ 0 ∷ 7 ∷ 8 ∷ []

abbrev whole : Bytes
whole = cut ++ 9 ∷ []

deserialize_test :
    deserialize whole
    ≡ ok (record { type = file_chunk; payload = 7 ∷ 8 ∷ 9 ∷ []; timestamp = pos 0 })
unfolding deserialize size_field time_field time_point be_read signed64 range of_byte
deserialize_test = refl

-- the chunk with a byte behind it
abbrev followed : Bytes
followed = whole ++ 10 ∷ []

abbrev chunk : Message
chunk = record { type = file_chunk; payload = 7 ∷ 8 ∷ 9 ∷ []; timestamp = pos 0 }

serialize-deserialize_example :
    IsMessage chunk × (serialize chunk ≡ take (13 + size_field followed) followed)
unfolding deserialize size_field time_field time_point be_read signed64 range of_byte
serialize-deserialize_example = serialize-deserialize followed chunk (ground arith) refl

deserialize_checked_example : deserialize cut ≡ throw (runtime_error size_mismatch)
unfolding size_field be_read
deserialize_checked_example = deserialize_checked cut (omega arith)

-- a header that claims 2^32 - 1 bytes, and no payload
abbrev endless : Bytes
endless = 0 ∷ 255 ∷ 255 ∷ 255 ∷ 255 ∷ 0 ∷ 0 ∷ 0 ∷ 0 ∷ 0 ∷ 0 ∷ 0 ∷ 0 ∷ []

deserialize_overread_run : deserialize endless ≡ undefined out_of_bounds
unfolding size_field time_field time_point be_read signed64
deserialize_overread_run =
    deserialize_overread endless (pos 0) (omega arith) (omega arith) (omega arith) refl

abbrev friends : List Bytes
friends = codes "ann" ∷ [] ∷ codes "bob" ∷ []

read_peer_list-create_run :
    read_peer_list (create_peer_list_message (pos 5) friends).payload ≡ some friends
read_peer_list-create_run =
    read_peer_list-create (pos 5) friends (omega arith)
      (omega arith, (omega arith, (omega arith, tt)))
