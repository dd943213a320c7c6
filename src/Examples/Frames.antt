-- ===== src/Examples/Frames.antt =====
-- Runs of src/infrastructure/vm/firecracker/exec_protocol.go, with texts as their own encoding.
use spacetrek.Prelude.{◌≡◌, refl, ◌++◌, [], ◌∷◌, some, Text, codes, arith, pos}
use spacetrek.Frame.{
  ok, exceeds, put_uint32, get_uint32, read_full, write_framed_json, read_payload, read_framed_json,
}
use spacetrek.Frame.RoundTrip.{append_write, read-write}

abbrev hello : Text
hello = codes "hello"

frame_of_hello : write_framed_json some append_write [] hello (pos 100) ≡ ok (0 ∷ 0 ∷ 0 ∷ 5 ∷ hello)
unfolding write_framed_json exceeds put_uint32
frame_of_hello = refl

read-write_example :
    (frame : Text) × (◌≡◌ {A = Text} (0 ∷ 0 ∷ 0 ∷ 5 ∷ hello) ([] ++ frame))
    × (read_framed_json some (pos 100) (frame ++ codes "rest") ≡ ok (hello, codes "rest"))
read-write_example =
    read-write some some [] (0 ∷ 0 ∷ 0 ∷ 5 ∷ hello) (codes "rest") hello (pos 100)
      (λ v payload e. cc) (λ payload e. ground arith) frame_of_hello

read_hello : read_framed_json some (pos 100) (0 ∷ 0 ∷ 0 ∷ 5 ∷ hello) ≡ ok (hello, [])
unfolding read_framed_json read_payload read_full get_uint32 exceeds
read_hello = refl
