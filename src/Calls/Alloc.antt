-- ===== src/Calls/Alloc.antt =====
-- `cpvt_alloc` and `cpvt_free` keep what holds of the calls, and a freed call is pointed to by nothing.
use datacard.Base.{
  ℕ, ◌+◌, ◌^◌, ◌≡◌, ◌<◌, refl, ap, sym, ◌∙◌, inl, inr, true, false, List, [], ◌∷◌, map, Option,
  none, some, arith, ◌==◌, ==_iff, Bool-cases, none≢some, true≢false, All, map-All, length-map, In,
  subst, length, if◌then◌else◌,
}
use datacard.AtQueue
use datacard.AtQueue.{Task}
use datacard.AtQueue.View
use datacard.AtQueue.View.{TaskIsValid, count_cmds}
use datacard.MixBuffer.Streams.{occurrences, occurrences-init}
use datacard.Calls.{
  CallState, Cpvt, Direction, Pvt, sys_chan, no_chans, on_create_1st_channel,
  on_remove_last_channel, try_restate, time4restate, cpvt_alloc, cpvt_free, drop_call, unlink_call,
  relink, points_to, find_call, remove_call,
}
use datacard.Calls.Total.{
  find_call-append_last, some_injective, total_absent, total, addresses, In-find_call,
  remove_call-gone,
}
use datacard.Calls.Valid.{
  serves, Owned, Pointed, IsValid, Counted-append, Counted-remove, Linked-append, Linked-remove,
  Pointed-append, Pointed-remove, empty_of_length,
}

-- The streams matter only by how often each is attached.
pub Pointed-occurrences :
    {chans : List Cpvt} {last : Option ℕ} {tasks : List Task} {attached attached' : List ℕ}
    {fd : Option ℕ}
    → ((p : ℕ) → occurrences p attached' ≡ occurrences p attached)
    → Pointed chans last tasks attached fd
    → Pointed chans last tasks attached' fd
Pointed-occurrences e v = record {
  last_dialed = v.last_dialed;
  owners = v.owners;
  streams = λ p. e p ∙ v.streams p;
  closed = v.closed;
}

-- The first call of a device finds no stream attached, so that resetting the mix buffer loses none.
on_create_1st_channel-IsValid :
    (pvt : Pvt) → no_chans pvt ≡ true → IsValid pvt → IsValid (on_create_1st_channel pvt)
unfolding on_create_1st_channel
on_create_1st_channel-IsValid pvt e v = record {
  counted = v.counted;
  linked = v.linked;
  pointed =
      Pointed-occurrences
        (λ p.
          occurrences-init p pvt.a_write_mixb pvt.a_write_buf 1600
          ∙ sym (v.pointed.streams p ∙ ap (total (serves p)) none_left))
        v.pointed;
  queue = v.queue;
}
  where
    none_left : pvt.chans ≡ []
    none_left = empty_of_length pvt.chans (sym v.counted.exact ∙ (==_iff pvt.chansno 0).0 e)

pub cpvt_alloc-IsValid :
    (pvt : Pvt) (address call_idx : ℕ) (dir : Direction) (state : CallState)
    → ¬ (address ≡ sys_chan)
    → ¬ In address (addresses pvt.chans)
    → ¬ (pvt.audio_fd ≡ none)
    → length pvt.chans + 1 < 2 ^ 32
    → IsValid pvt
    → IsValid (cpvt_alloc pvt (some address) call_idx dir state).1
unfolding cpvt_alloc on_create_1st_channel
cpvt_alloc-IsValid pvt address call_idx dir state proper fresh opened small v =
    elim (Bool-cases (no_chans pvt)) [
      | inl e ↦
          let w = on_create_1st_channel-IsValid pvt e v in
          rw e (record {
            counted = Counted-append _ small v.counted;
            linked = Linked-append _ proper fresh refl v.linked;
            pointed = Pointed-append _ opened refl w.pointed;
            queue = v.queue;
          })
      | inr e ↦ rw e (record {
        counted = Counted-append _ small v.counted;
        linked = Linked-append _ proper fresh refl v.linked;
        pointed = Pointed-append _ opened refl v.pointed;
        queue = v.queue;
      })
    ]

-- The new call, which has no stream in the mix buffer yet.
pub cpvt_alloc-call :
    (pvt : Pvt) (address call_idx : ℕ) (dir : Direction) (state : CallState)
    → ¬ In address (addresses pvt.chans)
    → (c : Cpvt) × (find_call address (cpvt_alloc pvt (some address) call_idx dir state).1.chans
        ≡ some c)
      × (c.flags.activated ≡ false)
unfolding cpvt_alloc
cpvt_alloc-call pvt address call_idx dir state fresh =
    (_, find_call-append_last address _ pvt.chans refl fresh, refl)

pub cpvt_alloc-some :
    (pvt : Pvt) (address call_idx : ℕ) (dir : Direction) (state : CallState)
    → cpvt_alloc pvt (some address) call_idx dir state
      ≡ (some address, (cpvt_alloc pvt (some address) call_idx dir state).1)
unfolding cpvt_alloc
cpvt_alloc-some pvt address call_idx dir state = refl

try_restate-IsValid : (pvt : Pvt) → IsValid pvt → IsValid (try_restate pvt)
unfolding try_restate
try_restate-IsValid pvt v = elim (Bool-cases (time4restate pvt)) [
  | inl e ↦
      rw e (record { counted = v.counted; linked = v.linked; pointed = v.pointed; queue = v.queue })
  | inr e ↦ rw e v
]

pub on_remove_last_channel-IsValid :
    (pvt : Pvt) → IsValid pvt → IsValid (on_remove_last_channel pvt)
unfolding on_remove_last_channel
on_remove_last_channel-IsValid pvt v = record {
  counted = v.counted;
  linked = v.linked;
  pointed = v.pointed;
  queue = v.queue;
}

relink-TaskIsValid : (p : ℕ) (task : Task) → TaskIsValid task → TaskIsValid (relink p task)
relink-TaskIsValid p task v = elim (Bool-cases (task.cpvt == p)) [
  | inl e ↦ rw e (record { pending = v.pending; cmdsno = v.cmdsno; fits = v.fits })
  | inr e ↦ rw e v
]

count_cmds-relink : (p : ℕ) (q : List Task) → count_cmds (map (relink p) q) ≡ count_cmds q
count_cmds-relink p [] = refl
count_cmds-relink p (task ∷ q) = ground (arith, count_cmds-relink p q)

relink-IsValid :
    (p : ℕ) (queue : AtQueue.Pvt)
    → View.IsValid queue
    → View.IsValid (record queue { at_queue = map (relink p) queue.at_queue })
relink-IsValid p queue v = record {
  tasks = map-All _ _ (relink p) queue.at_queue (λ t. relink-TaskIsValid p t) v.tasks;
  at_tasks = v.at_tasks ∙ sym (length-map (relink p) queue.at_queue);
  at_cmds = v.at_cmds ∙ sym (count_cmds-relink p queue.at_queue);
  small = rw (count_cmds-relink p queue.at_queue) v.small;
}

unlink_call-IsValid :
    (pvt : Pvt) (p : ℕ) (c : Cpvt)
    → find_call p pvt.chans ≡ some c
    → c.flags.activated ≡ false
    → IsValid pvt
    → IsValid (unlink_call pvt p)
unfolding unlink_call drop_call
unlink_call-IsValid pvt p c found idle v = rw found (record {
  counted = Counted-remove p c found v.counted;
  linked = Linked-remove p c found v.linked;
  pointed = Pointed-remove p c found idle v.pointed;
  queue = relink-IsValid p pvt.queue v.queue;
})

-- What is freed once the last call is gone, and the schedule of a restart, concern no call.
settle-IsValid :
    (pvt : Pvt)
    → IsValid pvt
    → IsValid (if no_chans pvt then try_restate (on_remove_last_channel pvt) else pvt)
settle-IsValid pvt v = elim (Bool-cases (no_chans pvt)) [
  | inl e ↦ rw e (try_restate-IsValid _ (on_remove_last_channel-IsValid pvt v))
  | inr e ↦ rw e v
]

-- Freeing a call that no stream of the mix buffer belongs to.
pub cpvt_free-IsValid :
    (pvt : Pvt) (p : ℕ) (c : Cpvt)
    → find_call p pvt.chans ≡ some c
    → c.flags.activated ≡ false
    → IsValid pvt
    → IsValid (cpvt_free pvt p)
unfolding cpvt_free
cpvt_free-IsValid pvt p c found idle v =
    let w = settle-IsValid (unlink_call pvt p) (unlink_call-IsValid pvt p c found idle v) in
    record { counted = w.counted; linked = w.linked; pointed = w.pointed; queue = w.queue }

-- Nothing points to a call: not the list, not a task of the queue, not the last dialed call, not the
-- mix buffer.
pub record Unreferenced (p : ℕ) (pvt : Pvt) : Type 0 where
  pub unlisted : ¬ In p (addresses pvt.chans)
  pub unqueued : All (λ task. ¬ (task.cpvt ≡ p)) pvt.queue.at_queue
  pub undialed : ¬ (pvt.last_dialed ≡ some p)
  pub unmixed : occurrences p pvt.a_write_mixb.streams ≡ 0

relinked : (p : ℕ) (task : Task) → ¬ (p ≡ sys_chan) → ¬ ((relink p task).cpvt ≡ p)
relinked p task proper h = elim (Bool-cases (task.cpvt == p)) [
  | inl e ↦ proper (sym (rw e at h))
  | inr e ↦ true≢false (sym ((==_iff task.cpvt p).1 (rw e at h)) ∙ e)
]

undialed_left : (p : ℕ) (last : Option ℕ) → ¬ ((if points_to last p then none else last) ≡ some p)
undialed_left p none h = none≢some h
undialed_left p (some q) h = elim (Bool-cases (q == p)) [
  | inl e ↦ none≢some (rw e at h)
  | inr e ↦ true≢false (sym ((==_iff q p).1 (some_injective (rw e at h))) ∙ e)
]

serves_other : (p : ℕ) (d : Cpvt) → ¬ (d.address ≡ p) → serves p d ≡ 0
serves_other p d h = ground arith

unlink_call-Unreferenced :
    (pvt : Pvt) (p : ℕ) (c : Cpvt)
    → find_call p pvt.chans ≡ some c
    → c.flags.activated ≡ false
    → IsValid pvt
    → Unreferenced p (unlink_call pvt p)
unfolding unlink_call drop_call
unlink_call-Unreferenced pvt p c found idle v =
    let w_streams = (Pointed-remove p c found idle v.pointed).streams in
    let gone = remove_call-gone p pvt.chans v.linked.distinct in
    rw found (record {
      unlisted = gone;
      unqueued =
          map-All (Owned pvt.chans) (λ t. ¬ (t.cpvt ≡ p)) (relink p) pvt.queue.at_queue
            (λ t u. relinked p t (λ e.
              v.linked.proper
                (subst (λ q. In q (addresses pvt.chans)) e (In-find_call p c pvt.chans found))))
            v.pointed.owners;
      undialed = undialed_left p pvt.last_dialed;
      unmixed =
          w_streams p ∙ total_absent (serves p) p (remove_call p pvt.chans) (serves_other p) gone;
    })

settle_keeps :
    (pvt : Pvt) (p : ℕ)
    → Unreferenced p pvt
    → Unreferenced p (if no_chans pvt then try_restate (on_remove_last_channel pvt) else pvt)
unfolding try_restate on_remove_last_channel
settle_keeps pvt p u = elim (Bool-cases (no_chans pvt)) [
  | inl e ↦ elim (Bool-cases (time4restate (on_remove_last_channel pvt))) [
    | inl r ↦ rw e (
        rw r (record {
          unlisted = u.unlisted;
          unqueued = u.unqueued;
          undialed = u.undialed;
          unmixed = u.unmixed;
        }))
    | inr r ↦ rw e (
        rw r (record {
          unlisted = u.unlisted;
          unqueued = u.unqueued;
          undialed = u.undialed;
          unmixed = u.unmixed;
        }))
  ]
  | inr e ↦ rw e u
]

-- When `cpvt_free` frees a call of the list that has no stream in the mix buffer, nothing points to
-- its memory any more: it is not in the list of calls, no task of the queue and not
-- `last_dialed_cpvt` is its, and the mix buffer has no stream of it.
pub cpvt_free-Unreferenced :
    (pvt : Pvt) (p : ℕ) (c : Cpvt)
    → find_call p pvt.chans ≡ some c
    → c.flags.activated ≡ false
    → IsValid pvt
    → Unreferenced p (cpvt_free pvt p)
unfolding cpvt_free
cpvt_free-Unreferenced pvt p c found idle v =
    let u = settle_keeps (unlink_call pvt p) p (unlink_call-Unreferenced pvt p c found idle v) in
    record {
      unlisted = u.unlisted;
      unqueued = u.unqueued;
      undialed = u.undialed;
      unmixed = u.unmixed;
    }
