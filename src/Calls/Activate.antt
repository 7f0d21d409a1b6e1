-- ===== src/Calls/Activate.antt =====
-- `activate_call` and `disactivate_call` keep what holds of the calls.
use datacard.Base.{
  ℕ, ◌+◌, ◌≡◌, refl, ap, ◌∙◌, inl, inr, Bool, true, false, map, Option, none, some, arith, ◌==◌,
  Bool-cases, none≢some, subst, if◌then◌else◌,
}
use datacard.MixBuffer
use datacard.MixBuffer.{MixBuffer}
use datacard.MixBuffer.Streams.{one_if, occurrences, occurrences-attach, occurrences-detach}
use datacard.Calls.{Cpvt, Pvt, find_call}
use datacard.Calls.Change.{
  set_served, disactivate_call, demote, activate_call, serve, take_over, activate_unless,
  disactivate_on,
}
use datacard.Calls.Total.{
  total-update_call, addresses-update_call, find_call-update_self, find_call-All,
}
use datacard.Calls.Valid.{serves, IsValid}
use datacard.Calls.Update.{
  total-demote, addresses-demote, find_call-demote, masters_demoted, Counted-update, Counted-demote,
  Linked-update, Linked-demote, Pointed-addresses,
}

-- A device with a call has its audio port open.
pub opened_of :
    (pvt : Pvt) (p : ℕ) (c : Cpvt)
    → IsValid pvt
    → find_call p pvt.chans ≡ some c
    → ¬ (pvt.audio_fd ≡ none)
opened_of pvt p c v found e =
    none≢some (subst (λ cs. find_call p cs ≡ some c) (v.pointed.closed e) found)

serves_when : (q : ℕ) (c : Cpvt) → c.flags.activated ≡ true → serves q c ≡ one_if (c.address == q)
serves_when q c a = ground arith

serves_unless : (q : ℕ) (c : Cpvt) → c.flags.activated ≡ false → serves q c ≡ 0
serves_unless q c a = ground arith

disactivate_on-IsValid :
    (pvt : Pvt) (c : Cpvt) (channel : Option ℕ)
    → find_call c.address pvt.chans ≡ some c
    → IsValid pvt
    → IsValid (disactivate_on pvt c channel)
unfolding disactivate_on
disactivate_on-IsValid pvt c none found v = v
disactivate_on-IsValid pvt c (some channel) found v = elim (Bool-cases c.flags.activated) [
  | inl a ↦ rw a (record {
    counted = Counted-update c.address (set_served false) c found refl v.counted;
    linked =
        Linked-update c.address (set_served false) c (λ d. refl) found
          (omega (arith, v.linked.one_master)) (λ e. refl) v.linked;
    pointed =
        Pointed-addresses (addresses-update_call c.address (set_served false) pvt.chans (λ d. refl))
          (opened_of pvt c.address c v found)
          (λ q. omega (
            arith,
            v.pointed.streams q,
            occurrences-detach q c.address pvt.a_write_mixb,
            total-update_call (serves q) c.address (set_served false) c pvt.chans found,
            serves_when q c a,
            serves_unless q (set_served false c) refl,
          ))
          v.pointed;
    queue = v.queue;
  })
  | inr a ↦ rw a v
]

pub disactivate_call-IsValid :
    (pvt : Pvt) (c : Cpvt)
    → find_call c.address pvt.chans ≡ some c
    → IsValid pvt
    → IsValid (disactivate_call pvt c)
unfolding disactivate_call
disactivate_call-IsValid pvt c found v = disactivate_on-IsValid pvt c c.channel found v

disactivate_on-idle :
    (pvt : Pvt) (c : Cpvt) (channel : Option ℕ)
    → find_call c.address pvt.chans ≡ some c
    → c.channel ≡ channel
    → IsValid pvt
    → (d : Cpvt) × (find_call c.address (disactivate_on pvt c channel).chans ≡ some d)
      × (d.flags.activated ≡ false)
unfolding disactivate_on
disactivate_on-idle pvt c none found e v = (
  c,
  found,
  find_call-All (λ d. d.channel ≡ none → d.flags.activated ≡ false) c.address c pvt.chans
      v.linked.unserved found e,
)
disactivate_on-idle pvt c (some channel) found e v = elim (Bool-cases c.flags.activated) [
  | inl a ↦ rw a (
    set_served false c,
    find_call-update_self c.address (set_served false) c pvt.chans (λ d. refl) found,
    refl,
  )
  | inr a ↦ rw a (c, found, a)
]

-- `disactivate_call` leaves a call that has no stream in the mix buffer.
pub disactivate_call-idle :
    (pvt : Pvt) (c : Cpvt)
    → find_call c.address pvt.chans ≡ some c
    → IsValid pvt
    → (d : Cpvt) × (find_call c.address (disactivate_call pvt c).chans ≡ some d)
      × (d.flags.activated ≡ false)
unfolding disactivate_call
disactivate_call-idle pvt c found v = disactivate_on-idle pvt c c.channel found refl v

-- A call is attached to the mix buffer when it was not before.
attach_streams :
    (q : ℕ) (mb : MixBuffer) (c : Cpvt)
    → occurrences q (if c.flags.activated then mb else MixBuffer.attach mb c.address).streams
        + serves q c
      ≡ occurrences q mb.streams + one_if (c.address == q)
attach_streams q mb c = elim (Bool-cases c.flags.activated) [
  | inl a ↦ rw a (ap (λ n. occurrences q mb.streams + n) (rw a at (serves_when q c a)))
  | inr a ↦ rw a (omega (arith, occurrences-attach q c.address mb, rw a at (serves_unless q c a)))
]

serve-IsValid :
    (pvt : Pvt) (c : Cpvt) (fd : Option ℕ)
    → find_call c.address pvt.chans ≡ some c
    → ¬ (c.channel ≡ none)
    → c.flags.master ≡ false
    → ¬ (fd ≡ none)
    → IsValid pvt
    → IsValid (serve (take_over pvt c) c fd)
unfolding serve take_over
serve-IsValid pvt c none found linked m opened v = absurd (opened refl)
serve-IsValid pvt c (some fd) found linked m opened v = record {
  counted =
      Counted-update c.address (set_served true) c found' refl (Counted-demote c.address v.counted);
  linked =
      Linked-update c.address (set_served true) c (λ d. refl) found'
        (omega (arith, masters_demoted c.address c pvt.chans v.linked.distinct found, ap one_if m))
        (λ n. absurd (linked n)) (Linked-demote c.address c found v.linked);
  pointed =
      Pointed-addresses
        (addresses-update_call c.address (set_served true) (map (demote c.address) pvt.chans)
            (λ d. refl)
          ∙ addresses-demote c.address pvt.chans)
        (opened_of pvt c.address c v found)
        (λ q. omega (
          arith,
          attach_streams q pvt.a_write_mixb c,
          v.pointed.streams q,
          total-update_call (serves q) c.address (set_served true) c
              (map (demote c.address) pvt.chans) found',
          total-demote (serves q) c.address pvt.chans (λ d. refl),
          serves_when q (set_served true c) refl,
        ))
        v.pointed;
  queue = v.queue;
}
  where
    found' : find_call c.address (map (demote c.address) pvt.chans) ≡ some c
    found' = find_call-demote c.address c pvt.chans found

activate_unless-IsValid :
    (master : Bool) (pvt : Pvt) (c : Cpvt)
    → find_call c.address pvt.chans ≡ some c
    → ¬ (c.channel ≡ none)
    → c.flags.master ≡ master
    → IsValid pvt
    → IsValid (activate_unless master pvt c)
unfolding activate_unless
activate_unless-IsValid true pvt c found linked m v = v
activate_unless-IsValid false pvt c found linked m v =
    serve-IsValid pvt c pvt.audio_fd found linked m (opened_of pvt c.address c v found) v

-- `activate_call` for a call of the list that has a channel.
pub activate_call-IsValid :
    (pvt : Pvt) (c : Cpvt)
    → find_call c.address pvt.chans ≡ some c
    → ¬ (c.channel ≡ none)
    → IsValid pvt
    → IsValid (activate_call pvt c)
unfolding activate_call
activate_call-IsValid pvt c found linked v =
    activate_unless-IsValid c.flags.master pvt c found linked refl v
