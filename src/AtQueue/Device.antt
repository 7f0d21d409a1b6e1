-- ===== src/AtQueue/Device.antt =====
-- `write_all` of at_queue.c over a device whose `write` calls have given outcomes.
use datacard.Base.{
  ℕ, zero, suc, ◌+◌, ◌-◌, ◌*◌, ◌≤◌, ◌<◌, ◌≡◌, refl, ap, ◌∙◌, sym, Bool, true, false, ◌++◌, Option,
  none, some, [], arith, ◌==◌, if◌then◌else◌, take, drop, min, append-nil, append_assoc, ap₂,
  take-drop,
}
use datacard.Bytes.{Bytes}

-- One `write (fd, buf, count)`: the bytes taken, or 0 for a result of 0 or less, and whether `errno`
-- is EINTR or EAGAIN then.
pub record Outcome : Type 0 where
  pub wrote : ℕ
  pub again : Bool

-- The loop: `call` numbers the calls of `write`, which takes at most `count` bytes. `total` and the
-- bytes that went out are returned; `none` means that the fuel ran out.
unfoldable pub write_loop : ℕ → (ℕ → Outcome) → ℕ → Bytes → ℕ → ℕ → ℕ → Bytes → Option (ℕ × Bytes)
write_loop zero device call buf count errs total out = none
write_loop (suc fuel) device call buf count errs total out =
    let o = device call in
    let n = min o.wrote count in
    let retry = write_loop fuel device (suc call) buf count (errs - 1) total out in
    let further =
      write_loop fuel device (suc call) (drop n buf) (count - n) 10 (total + n)
        (out ++ take n buf) in
    if count == 0
    then some (total, out)
    else if n == 0
    then (if o.again then (if errs == 1 then some (total, out) else retry) else some (total, out))
    else further

-- Every call writes a byte or uses up one of ten retries.
abbrev pub fuel_for : ℕ → ℕ
fuel_for count = 10 * count + 11

abbrev sent : Option (ℕ × Bytes) → ℕ × Bytes
sent none = (0, [])
sent (some r) = r

unfoldable pub write_all : (ℕ → Outcome) → Bytes → ℕ → ℕ × Bytes
write_all device buf count = sent (write_loop (fuel_for count) device 0 buf count 10 0 [])

-- `r` is the result of a loop that sent `n` of the `count` bytes left.
abbrev Sends : Option (ℕ × Bytes) → Bytes → ℕ → ℕ → Bytes → Type 0
Sends r buf count total out = (n : ℕ) × (n ≤ count) × (r ≡ some (total + n, out ++ take n buf))

nothing-Sends :
    (buf : Bytes) (count total : ℕ) (out : Bytes) → Sends (some (total, out)) buf count total out
nothing-Sends buf count total out =
    (0, omega arith, ap₂ (λ a b. some (a, b)) (omega arith) (sym (append-nil out)))

-- A call that sent `n` bytes followed by a loop over the rest.
more-Sends :
    (r : Option (ℕ × Bytes)) (buf : Bytes) (count total : ℕ) (out : Bytes) (n : ℕ)
    → n ≤ count
    → Sends r (drop n buf) (count - n) (total + n) (out ++ take n buf)
    → Sends r buf count total out
more-Sends r buf count total out n p (m, q, e) = (
  n + m,
  omega arith,
  e
      ∙ ap₂ (λ a b. some (a, b)) (omega arith)
          (append_assoc out (take n buf) (take m (drop n buf))
            ∙ ap (λ b. out ++ b) (take-drop n m (n + m) buf refl)),
)

-- One round of the loop, given what its recursive calls do.
round-Sends :
    (empty zero_bytes again last : Bool) (stop retry further : Option (ℕ × Bytes)) (buf : Bytes)
    (count total : ℕ) (out : Bytes)
    → Sends stop buf count total out
    → (last ≡ false → Sends retry buf count total out)
    → (zero_bytes ≡ false → Sends further buf count total out)
    → Sends
        (if empty
          then stop
          else if zero_bytes
          then (if again then (if last then stop else retry) else stop)
          else further)
        buf
        count
        total
        out
round-Sends true z a l stop retry further buf count total out s f g = s
round-Sends false true true true stop retry further buf count total out s f g = s
round-Sends false true true false stop retry further buf count total out s f g = f refl
round-Sends false true false l stop retry further buf count total out s f g = s
round-Sends false false a l stop retry further buf count total out s f g = g refl

-- With more fuel than ten times the bytes and the retries left, the loop ends, and what it sends is
-- the start of the buffer.
write_loop_ends :
    (fuel : ℕ) (device : ℕ → Outcome) (call : ℕ) (buf : Bytes) (count errs total : ℕ) (out : Bytes)
    → 10 * count + errs < fuel
    → 0 < errs
    → errs ≤ 10
    → Sends (write_loop fuel device call buf count errs total out) buf count total out
unfolding write_loop
write_loop_ends zero device call buf count errs total out f p q = absurd (omega arith)
write_loop_ends (suc fuel) device call buf count errs total out f p q =
    round-Sends (count == 0) (min (device call).wrote count == 0) (device call).again (errs == 1)
      (some (total, out)) _ _ buf count total out (nothing-Sends buf count total out)
      (λ e.
        write_loop_ends fuel device (suc call) buf count (errs - 1) total out (ground arith)
          (ground arith) (ground arith))
      (λ e. more-Sends _ buf count total out (min (device call).wrote count) (ground arith) (
        write_loop_ends fuel device (suc call) (drop (min (device call).wrote count) buf)
          (count - min (device call).wrote count) 10 (total + min (device call).wrote count)
          (out ++ take (min (device call).wrote count) buf) (ground arith) (ground arith)
          (ground arith)))

from_start :
    (r : Option (ℕ × Bytes)) (buf : Bytes) (count : ℕ)
    → Sends r buf count 0 []
    → (n : ℕ) × (n ≤ count) × (r ≡ some (n, take n buf))
from_start r buf count (n, p, e) = (n, p, e ∙ ap (λ k. some (k, take n buf)) (omega arith))

of_loop :
    (device : ℕ → Outcome) (buf : Bytes) (count : ℕ)
    → (n : ℕ) × (n ≤ count)
      × (write_loop (fuel_for count) device 0 buf count 10 0 [] ≡ some (n, take n buf))
    → (n : ℕ) × (n ≤ count)
      × (write_loop (fuel_for count) device 0 buf count 10 0 [] ≡ some (n, take n buf))
      × (write_all device buf count ≡ (n, take n buf))
unfolding write_all
of_loop device buf count (n, p, e) = (n, p, e, ap sent e)

-- The loop of `write_all` ends within ten rounds for each byte and eleven more, whatever the device
-- does. It returns a number of at most `count`, and what it has sent is that many bytes from the
-- start of the buffer, in order.
pub write_all-take :
    (device : ℕ → Outcome) (buf : Bytes) (count : ℕ)
    → (n : ℕ) × (n ≤ count)
      × (write_loop (fuel_for count) device 0 buf count 10 0 [] ≡ some (n, take n buf))
      × (write_all device buf count ≡ (n, take n buf))
write_all-take device buf count = of_loop device buf count (
    from_start _ buf count (
      write_loop_ends (fuel_for count) device 0 buf count 10 0 [] (omega arith) (omega arith)
        (omega arith)))
