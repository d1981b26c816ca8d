-- ===== src/Ui/Server/Ends.antt =====
-- The UI server's `Start` ends, and its goroutine before it.
use poll_operator.Base.{String, Bool, true, false, Option, none, some, ◌≡◌, ◌⊎◌, refl, arith}
use poll_operator.Ui.Server.{
  Phase, selecting, shutting_down, draining, returned, Run, start, Step, Reach, here, next, cancel,
  exits, closes, shut_down, wait, drain, receive,
}

abbrev is_returned : Phase → Bool
is_returned (returned x) = true
is_returned _ = false

abbrev is_selecting : Phase → Bool
is_selecting selecting = true
is_selecting _ = false

abbrev holds : Option (Option String) → Bool
holds none = false
holds (some x) = true

-- While the goroutine runs, nothing was sent; when it has ended, its error is in the channel until
-- `Start` takes it and returns. `Shutdown` is called where the select is left for it.
pub record IsSound (r : Run) : Type 0 where
  pub not_sent : r.is_listening ≡ true → (holds r.err_ch ≡ false) × (is_returned r.phase ≡ false)
  pub sent : r.is_listening ≡ false → (holds r.err_ch ≡ true) ⊎ (is_returned r.phase ≡ true)
  pub closing : (r.phase ≡ shutting_down) ⊎ (r.phase ≡ draining) → r.is_closed ≡ true

start-IsSound : IsSound start
start-IsSound = record { not_sent = λ h. (refl, refl); sent = λ h. cc; closing = λ h. ground arith }

Step-IsSound : (a b : Run) → Step a b → IsSound a → IsSound b
Step-IsSound a b (cancel h e) s = ground arith
Step-IsSound a b (exits x h e) s = ground arith
Step-IsSound a b (closes h k e) s = ground arith
Step-IsSound a b (shut_down h k e) s = ground arith
Step-IsSound a b (wait h e) s = ground arith
Step-IsSound a b (drain x h k e) s = ground arith
Step-IsSound a b (receive x h k e) s = ground arith

Reach-IsSound : {r : Run} → Reach start r → IsSound r
Reach-IsSound here = start-IsSound
Reach-IsSound (next {b} {c} reach step) = Step-IsSound b c step (Reach-IsSound reach)

pub returned_alone :
    (r : Run) (x : Option String) → Reach start r → r.phase ≡ returned x → r.is_listening ≡ false
returned_alone r x reach h = ground (arith, Reach-IsSound reach)
