-- ===== src/LiveCapture.antt =====
-- src/live_capture.cpp and include/live_capture.h: the wrapper of libpcap. A handle is the number of
-- the call that opened it, and the calls of libpcap are kept, the last one first. What a call of
-- libpcap answers is a parameter.
pub mod Handles
mod Tests
use flow_dpi.Prelude.{
  ℕ, suc, List, [], ◌∷◌, take, Bool, true, false, Option, none, some, ◌==◌, if◌then◌else◌,
}
use flow_dpi.Engine.Describe.{codes}

-- The calls of libpcap that take or give a handle: pcap_open_live, pcap_datalink, pcap_close, pcap_loop
-- and pcap_breakloop.
pub data Call : Type 0 where
  opened queried closed looped broken : ℕ → Call

-- `LiveCapture`
pub record LiveCapture : Type 0 where
  pub handle : Option ℕ

abbrev pub new_capture : LiveCapture
new_capture = record { handle = none }

-- The object, how many handles libpcap has given, and its calls.
pub record Capturing : Type 0 where
  pub capture : LiveCapture
  pub handles : ℕ
  pub calls : List Call

unfoldable pub new_capturing : Capturing
new_capturing = record { capture = new_capture; handles = 0; calls = [] }

-- The message of a failed pcap_open_live, the link type of a handle, the number of Ethernet, and the
-- frames that pcap_loop gives until it is broken off, each with its `caplen`.
module _ (open_error : ℕ → List ℕ → Option (List ℕ)) (datalink : ℕ → ℕ) (dlt_en10mb : ℕ)
    (frames : ℕ → List (List ℕ × ℕ)) where
  -- `open`, from the answer of pcap_open_live: what it returns, `error_out` if it is set, and what it
  -- leaves.
  unfoldable pub open_answered : Option (List ℕ) → Capturing → (Bool × Option (List ℕ)) × Capturing
  open_answered (some errbuf) c = ((false, some errbuf), c)
  open_answered none c =
      let handle = c.handles in
      if datalink handle == dlt_en10mb
      then (
        (true, none),
        record {
          capture = record { handle = some handle };
          handles = suc handle;
          calls = queried handle ∷ opened handle ∷ c.calls;
        },
      )
      else (
        (false, some (codes "Selected interface does not provide Ethernet frames")),
        record c {
          handles = suc handle;
          calls = closed handle ∷ queried handle ∷ opened handle ∷ c.calls;
        },
      )

  unfoldable pub open_interface : List ℕ → Capturing → (Bool × Option (List ℕ)) × Capturing
  open_interface interface_name c = open_answered (open_error c.handles interface_name) c

  -- `pcapTrampoline`, for each frame in its turn.
  unfoldable pub deliver {ℓ} : {S : Type ℓ} → (S → List ℕ → S) → List (List ℕ × ℕ) → S → S
  deliver callback [] s = s
  deliver callback ((bytes, caplen) ∷ rest) s =
      deliver callback rest (callback s (take caplen bytes))

  -- `loop`, with the state that the callback changes.
  unfoldable pub loop_handle {ℓ} :
      {S : Type ℓ} → (S → List ℕ → S) → Option ℕ → S → Capturing → S × Capturing
  loop_handle callback none s c = (s, c)
  loop_handle callback (some handle) s c =
      (deliver callback (frames handle) s, record c { calls = looped handle ∷ c.calls })

  unfoldable pub loop {ℓ} : {S : Type ℓ} → (S → List ℕ → S) → S → Capturing → S × Capturing
  loop callback s c = loop_handle callback c.capture.handle s c

-- `stop`
unfoldable pub stop_handle : Option ℕ → Capturing → Capturing
stop_handle none c = c
stop_handle (some handle) c = record c { calls = broken handle ∷ c.calls }

unfoldable pub stop : Capturing → Capturing
stop c = stop_handle c.capture.handle c

-- `close`
unfoldable pub close_handle : Option ℕ → Capturing → Capturing
close_handle none c = c
close_handle (some handle) c = record c { capture = new_capture; calls = closed handle ∷ c.calls }

unfoldable pub close_capture : Capturing → Capturing
close_capture c = close_handle c.capture.handle c

-- `~LiveCapture`
unfoldable pub destroy : Capturing → Capturing
destroy c = close_capture c
