-- ===== src/LiveCapture/Handles.antt =====
-- The handles of libpcap: none is used or closed when it is not open, and none is left open.
use flow_dpi.Prelude.{
  ℕ, ◌≡◌, refl, sym, ap, ◌∙◌, List, [], ◌∷◌, Option, none, some, Bool-cases, inl, inr, ◌==◌,
  ==_refl, if◌then◌else◌,
}
use flow_dpi.Prelude.Fallible.{◌>>=◌, bind-some}
use flow_dpi.Rules.{contains}
use flow_dpi.LiveCapture.{
  Call, opened, queried, closed, looped, broken, Capturing, new_capturing, open_answered,
  open_interface, loop, loop_handle, stop, stop_handle, close_handle, close_capture, destroy,
}

-- The handles that are open behind the calls, or `none` when a call took one that was not.
abbrev without : ℕ → List ℕ → List ℕ
without h [] = []
without h (k ∷ ks) = if k == h then ks else k ∷ without h ks

unfoldable pub takes : Call → List ℕ → Option (List ℕ)
unfolding contains
takes (opened h) out = some (h ∷ out)
takes (queried h) out = if contains out h then some out else none
takes (closed h) out = if contains out h then some (without h out) else none
takes (looped h) out = if contains out h then some out else none
takes (broken h) out = if contains out h then some out else none

unfoldable pub open_handles : List Call → Option (List ℕ)
open_handles [] = some []
open_handles (call ∷ earlier) = open_handles earlier >>= takes call

-- The use of the object: calls of its operations in any order, but open only when it is closed.
module _ (open_error : ℕ → List ℕ → Option (List ℕ)) (datalink : ℕ → ℕ) (dlt_en10mb : ℕ)
    (frames : ℕ → List (List ℕ × ℕ)) where
  pub data Used : Capturing → Type 1 where
    created : Used new_capturing
    opening :
        {c : Capturing} (interface_name : List ℕ)
        → Used c
        → c.capture.handle ≡ none
        → Used (open_interface open_error datalink dlt_en10mb frames interface_name c).1
    looping :
        {c : Capturing} {S : Type 0} (callback : S → List ℕ → S) (s : S)
        → Used c
        → Used (loop open_error datalink dlt_en10mb frames callback s c).1
    stopping : {c : Capturing} → Used c → Used (stop c)
    closing : {c : Capturing} → Used c → Used (close_capture c)

-- The open handles are what the object holds.
abbrev held : Option ℕ → List ℕ
held none = []
held (some h) = h ∷ []

abbrev Holds : Capturing → Type 0
Holds c = open_handles c.calls ≡ some (held c.capture.handle)

module _ (h : ℕ) (calls : List Call) (e : open_handles calls ≡ some (h ∷ [])) where
  open_handles-looped : open_handles (looped h ∷ calls) ≡ some (h ∷ [])
  unfolding open_handles takes contains
  open_handles-looped = bind-some _ e (rw (==_refl h) refl)

  open_handles-broken : open_handles (broken h ∷ calls) ≡ some (h ∷ [])
  unfolding open_handles takes contains
  open_handles-broken = bind-some _ e (rw (==_refl h) refl)

  open_handles-closed : open_handles (closed h ∷ calls) ≡ some []
  unfolding open_handles takes contains
  open_handles-closed = bind-some _ e (rw (==_refl h) refl)

-- A handle that is given and asked for its link type, when none was open.
open_handles-given :
    (h : ℕ) (calls : List Call)
    → open_handles calls ≡ some []
    → open_handles (queried h ∷ opened h ∷ calls) ≡ some (h ∷ [])
unfolding open_handles takes contains
open_handles-given h calls e = bind-some {a = h ∷ []} _ (bind-some _ e refl) (rw (==_refl h) refl)

loop_handle-Holds :
    (open_error : ℕ → List ℕ → Option (List ℕ)) (datalink : ℕ → ℕ) (dlt_en10mb : ℕ)
    (frames : ℕ → List (List ℕ × ℕ)) {S : Type 0} (callback : S → List ℕ → S) (s : S)
    (c : Capturing) (handle : Option ℕ)
    → c.capture.handle ≡ handle
    → Holds c
    → Holds (loop_handle open_error datalink dlt_en10mb frames callback handle s c).1
unfolding loop_handle
loop_handle-Holds open_error datalink dlt_en10mb frames callback s c none e h = h
loop_handle-Holds open_error datalink dlt_en10mb frames callback s c (some k) e h =
    open_handles-looped k c.calls (h ∙ ap (λ o. some (held o)) e) ∙ ap (λ o. some (held o)) (sym e)

stop_handle-Holds :
    (c : Capturing) (handle : Option ℕ)
    → c.capture.handle ≡ handle
    → Holds c
    → Holds (stop_handle handle c)
unfolding stop_handle
stop_handle-Holds c none e h = h
stop_handle-Holds c (some k) e h =
    open_handles-broken k c.calls (h ∙ ap (λ o. some (held o)) e) ∙ ap (λ o. some (held o)) (sym e)

-- Closing leaves nothing open.
close_handle-nothing :
    (c : Capturing) (handle : Option ℕ)
    → c.capture.handle ≡ handle
    → Holds c
    → (open_handles (close_handle handle c).calls ≡ some [])
      × ((close_handle handle c).capture.handle ≡ none)
unfolding close_handle
close_handle-nothing c none e h = (h ∙ ap (λ o. some (held o)) e, e)
close_handle-nothing c (some k) e h =
    (open_handles-closed k c.calls (h ∙ ap (λ o. some (held o)) e), refl)

open_answered-Holds :
    (open_error : ℕ → List ℕ → Option (List ℕ)) (datalink : ℕ → ℕ) (dlt_en10mb : ℕ)
    (frames : ℕ → List (List ℕ × ℕ)) (answer : Option (List ℕ)) (c : Capturing)
    → c.capture.handle ≡ none
    → Holds c
    → Holds (open_answered open_error datalink dlt_en10mb frames answer c).1
unfolding open_answered
open_answered-Holds open_error datalink dlt_en10mb frames (some errbuf) c e h = h
open_answered-Holds open_error datalink dlt_en10mb frames none c e h =
    let nothing : open_handles c.calls ≡ some [] = h ∙ ap (λ o. some (held o)) e in
    let given = open_handles-given c.handles c.calls nothing in
    elim (Bool-cases (datalink c.handles == dlt_en10mb)) [
      | inl ethernet ↦ rw ethernet given
      | inr other ↦ rw other (
          open_handles-closed c.handles (queried c.handles ∷ opened c.handles ∷ c.calls) given
          ∙ ap (λ o. some (held o)) (sym e))
    ]

Used-Holds :
    (open_error : ℕ → List ℕ → Option (List ℕ)) (datalink : ℕ → ℕ) (dlt_en10mb : ℕ)
    (frames : ℕ → List (List ℕ × ℕ)) {c : Capturing}
    → Used open_error datalink dlt_en10mb frames c
    → Holds c
unfolding new_capturing open_interface loop stop close_capture open_handles
Used-Holds open_error datalink dlt_en10mb frames created = refl
Used-Holds open_error datalink dlt_en10mb frames (opening {c} interface_name used e) =
    open_answered-Holds open_error datalink dlt_en10mb frames _ c e
      (Used-Holds open_error datalink dlt_en10mb frames used)
Used-Holds open_error datalink dlt_en10mb frames (looping {c} callback s used) =
    loop_handle-Holds open_error datalink dlt_en10mb frames callback s c c.capture.handle refl
      (Used-Holds open_error datalink dlt_en10mb frames used)
Used-Holds open_error datalink dlt_en10mb frames (stopping {c} used) =
    stop_handle-Holds c c.capture.handle refl
      (Used-Holds open_error datalink dlt_en10mb frames used)
Used-Holds open_error datalink dlt_en10mb frames (closing {c} used) =
    let (nothing, e) =
      close_handle-nothing c c.capture.handle refl
        (Used-Holds open_error datalink dlt_en10mb frames used) in
    nothing ∙ ap (λ o. some (held o)) (sym e)

-- However the object is used, as long as open is not called on an open one: when it is destroyed, each
-- call of libpcap has had a handle that was open, and every handle that was opened has been closed.
pub Used-destroy :
    (open_error : ℕ → List ℕ → Option (List ℕ)) (datalink : ℕ → ℕ) (dlt_en10mb : ℕ)
    (frames : ℕ → List (List ℕ × ℕ)) (c : Capturing)
    → Used open_error datalink dlt_en10mb frames c
    → open_handles (destroy c).calls ≡ some []
unfolding destroy close_capture
Used-destroy open_error datalink dlt_en10mb frames c used =
    (close_handle-nothing c c.capture.handle refl
      (Used-Holds open_error datalink dlt_en10mb frames used)).0
