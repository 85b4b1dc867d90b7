-- ===== src/LiveCapture/Tests.antt =====
-- An interface that opens as Ethernet and gives two frames.
use flow_dpi.Prelude.{ℕ, ◌+◌, ◌≡◌, refl, List, [], ◌∷◌, length, Option, none, some}
use flow_dpi.Prelude.Fallible.{◌>>=◌}
use flow_dpi.Rules.{contains}
use flow_dpi.LiveCapture.{
  Capturing, new_capturing, open_answered, open_interface, loop, loop_handle, deliver, stop,
  close_handle, close_capture, destroy,
}
use flow_dpi.LiveCapture.Handles.{
  created, opening, looping, stopping, open_handles, takes, Used-destroy,
}

abbrev two_frames : ℕ → List (List ℕ × ℕ)
two_frames handle = (1 ∷ 2 ∷ [], 2) ∷ (3 ∷ 4 ∷ [], 1) ∷ []

abbrev opens : ℕ → List ℕ → Option (List ℕ)
opens handle name = none

abbrev ethernet : ℕ → ℕ
ethernet handle = 1

abbrev count_bytes : ℕ → List ℕ → ℕ
count_bytes n bytes = n + length bytes

abbrev once : Capturing
once = (open_interface opens ethernet 1 two_frames [] new_capturing).1

captured : (loop opens ethernet 1 two_frames count_bytes 0 once).0 ≡ 3
unfolding new_capturing open_interface open_answered loop loop_handle deliver
captured = refl

-- An open on an open object: the first handle is still open in the end.
reopened :
    open_handles (destroy (open_interface opens ethernet 1 two_frames [] once).1).calls
    ≡ some (0 ∷ [])
unfolding new_capturing open_interface open_answered destroy close_capture close_handle open_handles
    takes contains ◌>>=◌
reopened = refl

abbrev session : Capturing
session = stop (loop opens ethernet 1 two_frames count_bytes 0 once).1

Used-destroy_example : open_handles (destroy session).calls ≡ some []
unfolding new_capturing
Used-destroy_example =
    Used-destroy opens ethernet 1 two_frames session
      (stopping (looping count_bytes 0 (opening [] created refl)))
