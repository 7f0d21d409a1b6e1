-- ===== src/MixBuffer/Run.antt =====
-- Any sequence of calls of mixbuffer.h, and what a read does to every stream.
use datacard.Base.{
  ℕ, ◌+◌, ◌-◌, ◌^◌, ◌≡◌, ◌≤◌, ◌<◌, refl, ap, ◌∙◌, sym, inl, inr, List, [], ◌∷◌, arith, length, drop,
  min, In, All-map, All-In, subst,
}
use native.Mathlib.Decide.{ℕ_discrete}
use datacard.Bytes.{Bytes}
use datacard.RingBuffer
use datacard.RingBuffer.{RingBuffer}
use datacard.RingBuffer.Valid.{contents}
use datacard.RingBuffer.Read.{read_upd-contents}
use datacard.MixBuffer.{
  MixStream, MixBuffer, update, attach, detach, write, read_upd, advance, advance_all,
}
use datacard.MixBuffer.Valid.{
  StreamIsValid, IsValid, update_self, update_ne, attach-IsValid, detach-IsValid, read_upd-IsValid,
}
use datacard.MixBuffer.Mix.{Moved}
use datacard.MixBuffer.Write.{write-Moved}

Moved-IsValid :
    {mb mb' : MixBuffer} {stream k : ℕ} → IsValid mb → Moved mb stream k mb' → IsValid mb'
Moved-IsValid {mb} {mb'} {stream} {k} v m = record {
  ring = m.ring;
  all = rw m.streams (All-map _ _ mb.streams (λ p. keeps p) v.all);
  count = m.attached ∙ v.count ∙ ap length (sym m.streams);
  count_in = rw m.streams v.count_in;
}
  where
    keeps : (p : ℕ) → StreamIsValid mb.rb (mb.store p) → StreamIsValid mb'.rb (mb'.store p)
    keeps p s = elim (ℕ_discrete p stream) [
      | yes e ↦ rw e m.self
      | no e ↦ rw (m.others p e) (record {
        within = omega (arith, s.within, m.used);
        write_in = omega (arith, s.write_in, m.size);
        place = rw (m.size, m.read) s.place;
      })
    ]

module _ (add : ℕ → ℕ → ℕ → ℕ → ℕ × ℕ) where
  -- `mixb_write` to an attached stream keeps the invariant.
  pub write-IsValid :
      {mb : MixBuffer} (stream : ℕ) (src : Bytes) (n : ℕ)
      → n ≤ length src
      → In stream mb.streams
      → IsValid mb
      → IsValid (write add mb stream src n).1
  write-IsValid {mb} stream src n given m v =
      Moved-IsValid v
        (write-Moved add mb stream src n v.ring (All-In _ stream mb.streams v.all m) given).1

  -- One call of the interface, as its callers make it.
  pub data Step (mb : MixBuffer) : MixBuffer → Type 0 where
    attached : (stream : ℕ) → length mb.streams + 1 < 2 ^ 32 → Step mb (attach mb stream)
    detached : (stream : ℕ) → In stream mb.streams → Step mb (detach mb stream)
    written :
        (stream : ℕ) (src : Bytes) (n : ℕ)
        → n ≤ length src
        → In stream mb.streams
        → Step mb (write add mb stream src n).1
    been_read : (len : ℕ) → Step mb (read_upd mb len).1

  pub data Reach (mb : MixBuffer) : MixBuffer → Type 0 where
    here : Reach mb mb
    next : {a b : MixBuffer} → Reach mb a → Step a b → Reach mb b

  Step-IsValid : {a b : MixBuffer} → Step a b → IsValid a → IsValid b
  Step-IsValid (attached stream h) v = attach-IsValid stream h v
  Step-IsValid (detached stream m) v = detach-IsValid stream m v
  Step-IsValid (written stream src n given m) v = write-IsValid stream src n given m v
  Step-IsValid (been_read len) v = read_upd-IsValid len v

  -- Whatever calls are made of a valid mix buffer, by any of its streams and in any order, it stays
  -- valid: the ring buffer's positions are consistent and each attached stream lies within it.
  pub Reach-IsValid : {a b : MixBuffer} → IsValid a → Reach a b → IsValid b
  Reach-IsValid v here = v
  Reach-IsValid v (next r s) = Step-IsValid s (Reach-IsValid v r)

-- No pointer stands twice in the list.
abbrev pub Distinct : List ℕ → Type 0
Distinct [] = Unit
Distinct (p ∷ ps) = ¬ In p ps × Distinct ps

advance_all_other :
    (rb : RingBuffer) (len : ℕ) (ps : List ℕ) (store : ℕ → MixStream) (p : ℕ)
    → ¬ In p ps
    → advance_all rb len ps store p ≡ store p
unfolding advance_all
advance_all_other rb len [] store p h = refl
advance_all_other rb len (q ∷ ps) store p h =
    advance_all_other rb len ps (update store q (advance rb len (store q))) p (λ m. h (inr m))
    ∙ update_ne store q (advance rb len (store q)) p (λ e. h (inl (sym e)))

advance_all-In :
    (rb : RingBuffer) (len : ℕ) (ps : List ℕ) (store : ℕ → MixStream) (p : ℕ)
    → Distinct ps
    → In p ps
    → advance_all rb len ps store p ≡ advance rb len (store p)
unfolding advance_all
advance_all-In rb len [] store p d m = absurd m.1
advance_all-In rb len (q ∷ ps) store p d (inl e) =
    subst (λ r. advance_all rb len (q ∷ ps) store r ≡ advance rb len (store r)) e
      (advance_all_other rb len ps (update store q (advance rb len (store q))) q d.0
        ∙ update_self store q (advance rb len (store q)))
advance_all-In rb len (q ∷ ps) store p d (inr m) =
    advance_all-In rb len ps (update store q (advance rb len (store q))) p d.1 m
    ∙ ap (advance rb len)
        (update_ne store q (advance rb len (store q)) p (λ e. d.0 (subst (λ r. In r ps) e m)))

used-advance :
    (rb : RingBuffer) (len : ℕ) (s : MixStream)
    → s.used < 2 ^ 64
    → (advance rb len s).used ≡ s.used - len
unfolding advance
used-advance rb len s h = ground arith

-- `mixb_read_upd` drops the oldest `len` bytes, or all if there are fewer, returns how many, and
-- takes as many off the bytes that each attached stream has written.
pub read_upd-streams :
    {mb : MixBuffer} (len : ℕ)
    → IsValid mb
    → Distinct mb.streams
    → let (rv, mb') = read_upd mb len in
      (rv ≡ min len mb.rb.used)
      × (contents mb'.rb ≡ drop len (contents mb.rb))
      × ((p : ℕ) → In p mb.streams → (mb'.store p).used ≡ (mb.store p).used - len)
unfolding read_upd
read_upd-streams {mb} len v d =
    let (count, left) = read_upd-contents len v.ring in
    (
      count,
      left,
      λ p m.
          let s = All-In _ p mb.streams v.all m in
          ap (λ x. x.used)
            (advance_all-In (RingBuffer.read_upd mb.rb len).1 len mb.streams mb.store p d m)
          ∙ used-advance (RingBuffer.read_upd mb.rb len).1 len (mb.store p)
              (omega (arith, s.within, v.ring.fits, v.ring.small)),
    )
