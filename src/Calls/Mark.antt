-- ===== src/Calls/Mark.antt =====
-- What one call changes of itself and what the invariant keeps: flags such as CALL_FLAG_NEED_HANGUP,
-- the index, and the channel.
use datacard.Base.{ℕ, ◌≡◌, refl, ap, ap₂, ◌∙◌, false, ◌&&◌, Option, none, some, arith, ◌==◌}
use datacard.MixBuffer.Streams.{one_if}
use datacard.Calls.{CallFlags, Cpvt, Pvt, find_call, update_call}
use datacard.Calls.Activate.{opened_of, disactivate_call-IsValid, disactivate_call-idle}
use datacard.Calls.Change.{disactivate_call, drop_channel, exchange}
use datacard.Calls.Total.{total-update_call, addresses-update_call, find_call-All}
use datacard.Calls.Update.{Counted-update, Linked-update, Pointed-addresses}
use datacard.Calls.Valid.{serves, IsValid}

-- A change that leaves the address, the state and the two flags of the audio port, and takes the
-- channel only from a call that has no stream.
pub record Mild (f : Cpvt → Cpvt) (c : Cpvt) : Type 0 where
  pub address : (d : Cpvt) → (f d).address ≡ d.address
  pub state : (f c).state ≡ c.state
  pub activated : (f c).flags.activated ≡ c.flags.activated
  pub master : (f c).flags.master ≡ c.flags.master
  pub served : (f c).channel ≡ none → (f c).flags.activated ≡ false

pub update_call-IsValid :
    (pvt : Pvt) (p : ℕ) (f : Cpvt → Cpvt) (c : Cpvt)
    → Mild f c
    → find_call p pvt.chans ≡ some c
    → IsValid pvt
    → IsValid (record pvt { chans = update_call p f pvt.chans })
update_call-IsValid pvt p f c m found v = record {
  counted = Counted-update p f c found m.state v.counted;
  linked =
      Linked-update p f c m.address found (omega (arith, v.linked.one_master, ap one_if m.master))
        m.served v.linked;
  pointed =
      Pointed-addresses (addresses-update_call p f pvt.chans m.address) (opened_of pvt p c v found)
        (λ q. omega (
          arith,
          v.pointed.streams q,
          total-update_call (serves q) p f c pvt.chans found,
          ap₂ (λ r b. one_if (r == q && b)) (m.address c) m.activated,
        ))
        v.pointed;
  queue = v.queue;
}

unserved_of :
    (pvt : Pvt) (p : ℕ) (c : Cpvt)
    → find_call p pvt.chans ≡ some c
    → IsValid pvt
    → c.channel ≡ none
    → c.flags.activated ≡ false
unserved_of pvt p c found v =
    find_call-All (λ d. d.channel ≡ none → d.flags.activated ≡ false) p c pvt.chans
      v.linked.unserved found

pub set_flags-IsValid :
    (pvt : Pvt) (p : ℕ) (c : Cpvt) (g : CallFlags → CallFlags)
    → (g c.flags).activated ≡ c.flags.activated
    → (g c.flags).master ≡ c.flags.master
    → find_call p pvt.chans ≡ some c
    → IsValid pvt
    → IsValid (record pvt { chans = update_call p (λ d. record d { flags = g d.flags }) pvt.chans })
set_flags-IsValid pvt p c g a m found v =
    update_call-IsValid pvt p (λ d. record d { flags = g d.flags }) c
      (record {
        address = λ d. refl;
        state = refl;
        activated = a;
        master = m;
        served = λ e. a ∙ unserved_of pvt p c found v e;
      })
      found v

pub set_idx-IsValid :
    (pvt : Pvt) (p : ℕ) (c : Cpvt) (call_idx : ℕ)
    → find_call p pvt.chans ≡ some c
    → IsValid pvt
    → IsValid
        (record pvt { chans = update_call p (λ d. record d { call_idx = call_idx }) pvt.chans })
set_idx-IsValid pvt p c call_idx found v =
    update_call-IsValid pvt p (λ d. record d { call_idx = call_idx }) c
      (record {
        address = λ d. refl;
        state = refl;
        activated = refl;
        master = refl;
        served = unserved_of pvt p c found v;
      })
      found v

pub set_channel-IsValid :
    (pvt : Pvt) (p : ℕ) (channel : Option ℕ) (c : Cpvt)
    → (channel ≡ none → c.flags.activated ≡ false)
    → find_call p pvt.chans ≡ some c
    → IsValid pvt
    → IsValid (record pvt { chans = update_call p (λ d. record d { channel = channel }) pvt.chans })
set_channel-IsValid pvt p channel c idle found v =
    update_call-IsValid pvt p (λ d. record d { channel = channel }) c
      (record { address = λ d. refl; state = refl; activated = refl; master = refl; served = idle })
      found v

pub exchange-IsValid :
    (pvt : Pvt) (p : ℕ) (c : Cpvt) (old new : ℕ)
    → find_call p pvt.chans ≡ some c
    → IsValid pvt
    → IsValid (record pvt { chans = update_call p (exchange old new) pvt.chans })
exchange-IsValid pvt p c old new found v =
    let idle = unserved_of pvt p c found v in
    update_call-IsValid pvt p (exchange old new) c
      (record {
        address = λ d. ground arith;
        state = ground arith;
        activated = ground arith;
        master = ground arith;
        served = λ e. ground (arith, idle);
      })
      found v

pub drop_channel-IsValid :
    (pvt : Pvt) (c : Cpvt)
    → find_call c.address pvt.chans ≡ some c
    → IsValid pvt
    → IsValid (drop_channel pvt c)
drop_channel-IsValid pvt c found v =
    let (d, here, idle) = disactivate_call-idle pvt c found v in
    set_channel-IsValid (disactivate_call pvt c) c.address none d (λ e. idle) here
      (disactivate_call-IsValid pvt c found v)
