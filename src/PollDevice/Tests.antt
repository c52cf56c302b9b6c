-- ===== src/PollDevice/Tests.antt =====
-- A ring that wraps around, and each theorem at it.
use codingforfun.Prelude.{ℕ, ◌≡◌, refl, Bool, true, false, List, [], ◌∷◌, ◌++◌, arith, get_or}
use codingforfun.Run.{done, Returns}
use codingforfun.Array.{load}
use codingforfun.PollDevice.{next_place, Device, count, device_read, device_write, is_buffer_full}
use codingforfun.PollDevice.Ring.{contents, IsValid}
use codingforfun.PollDevice.Calls.{
  ReadReply, WriteReply, device_read-ReadReply, device_write-WriteReply,
}

abbrev zeros : List ℕ
zeros = 0 ∷ 0 ∷ 0 ∷ 0 ∷ 0 ∷ 0 ∷ 0 ∷ 0 ∷ 0 ∷ 0 ∷ 0 ∷ 0 ∷ 0 ∷ 0 ∷ 0 ∷ 0 ∷ 0 ∷ 0 ∷ 0 ∷ 0 ∷ []

-- Bytes 7 and 8 at the end of the ring, and 9 at its start.
abbrev wrapped : Device
wrapped = record { rbuf = 9 ∷ (zeros ++ 7 ∷ 8 ∷ 0 ∷ []); use_count = 1; ir = 21; iw = 1; ih = 20 }

-- A kernel that does not make the call wait, while no other task runs.
abbrev at_once : Device → Bool × Device
at_once d = (false, d)

wrapped-IsValid : IsValid wrapped
wrapped-IsValid = record {
  size = refl;
  ir_in = omega arith;
  iw_in = omega arith;
  ih_in = omega arith;
  apart = omega arith;
}

contents-wrapped : contents wrapped ≡ 7 ∷ 8 ∷ 9 ∷ []
unfolding get_or next_place
contents-wrapped = refl

device_read-wrapped :
    device_read at_once at_once false 2 wrapped
    ≡ done (count 2, 7 ∷ 8 ∷ [], record wrapped { ir = 0 })
unfolding device_read load
device_read-wrapped = refl

device_read-ReadReply_example :
    Returns
      (λ (r, out, d'). IsValid d' × ReadReply true 2 wrapped wrapped r out d')
      (device_read at_once at_once true 2 wrapped)
device_read-ReadReply_example =
    device_read-ReadReply at_once at_once true 2 wrapped (λ d v. v) (λ d v. v) wrapped-IsValid

abbrev looked : Device
looked = (is_buffer_full (is_buffer_full wrapped).1).1

device_write-WriteReply_example :
    Returns
      (λ (r, d'). IsValid d' × WriteReply false (5 ∷ 6 ∷ []) wrapped looked r d')
      (device_write at_once at_once false (5 ∷ 6 ∷ []) wrapped)
device_write-WriteReply_example =
    device_write-WriteReply at_once at_once false (5 ∷ 6 ∷ []) wrapped (λ d v. v) (λ d v. v)
      wrapped-IsValid
