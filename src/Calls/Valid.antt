-- ===== src/Calls/Valid.antt =====
-- What holds of the calls of a device: the counters count them, the queue's tasks, the last dialed
-- call and the mix buffer's streams are calls of the list, and one call at most has the audio port.
-- `cpvt_alloc` and `cpvt_free` keep it.
use datacard.Base.{
  ℕ, ◌+◌, ◌%◌, ◌^◌, ◌≡◌, ◌≤◌, ◌<◌, refl, ap, sym, ◌∙◌, inl, inr, ◌⊎◌, false, ◌&&◌, List, [], ◌∷◌,
  ◌++◌, map, Option, none, some, arith, ◌==◌, ==_iff, Bool-cases, none≢some, All, All-map, map-All,
  All-append, true≢false, In, length, length-append, if◌then◌else◌, add_uint, sub_uint,
}
use datacard.AtQueue.{Task}
use datacard.AtQueue.View
use datacard.AtQueue.View.{TaskIsValid, count_cmds}
use datacard.MixBuffer.Streams.{one_if, occurrences}
use datacard.Calls.{
  CallState, Cpvt, Pvt, sys_chan, same_state, count_up, count_down, relink, points_to, find_call,
  remove_call, no_flags,
}
use datacard.Calls.Total.{
  some_injective, total, addresses, Distinct, total-append, total-remove_call, remove_call-All,
  remove_call-Distinct, remove_call-In, In-remove_call, In-append_left, length-remove_call,
  In-append_last, append-Distinct,
}

abbrev pub in_state : CallState → Cpvt → ℕ
in_state s c = one_if (same_state s c.state)

abbrev pub is_master : Cpvt → ℕ
is_master c = one_if c.flags.master

abbrev pub serves : ℕ → Cpvt → ℕ
serves p c = one_if (c.address == p && c.flags.activated)

-- The counters, of which those by state have eight bits.
pub record Counted (chans : List Cpvt) (chansno : ℕ) (counts : CallState → ℕ) : Type 0 where
  pub small : length chans < 2 ^ 32
  pub exact : chansno ≡ length chans
  pub by_state : (s : CallState) → counts s ≡ total (in_state s) chans % 256

-- The addresses differ, one call at most is the master, and only a call with a channel is activated.
pub record Linked (chans : List Cpvt) : Type 0 where
  pub distinct : Distinct (addresses chans)
  pub proper : ¬ In sys_chan (addresses chans)
  pub one_master : total is_master chans ≤ 1
  pub unserved : All (λ c. c.channel ≡ none → c.flags.activated ≡ false) chans

abbrev pub Owned : List Cpvt → Task → Type 0
Owned chans task = (task.cpvt ≡ sys_chan) ⊎ In task.cpvt (addresses chans)

-- Every pointer to a call points into the list, and a stream is attached just once for each
-- activated call.
pub record Pointed (chans : List Cpvt) (last : Option ℕ) (tasks : List Task) (attached : List ℕ)
    (fd : Option ℕ) : Type 0 where
  pub last_dialed : (p : ℕ) → last ≡ some p → In p (addresses chans)
  pub owners : All (Owned chans) tasks
  pub streams : (p : ℕ) → occurrences p attached ≡ total (serves p) chans
  pub closed : fd ≡ none → chans ≡ []

pub record IsValid (pvt : Pvt) : Type 0 where
  pub counted : Counted pvt.chans pvt.chansno pvt.chan_count
  pub linked : Linked pvt.chans
  pub pointed :
      Pointed pvt.chans pvt.last_dialed pvt.queue.at_queue pvt.a_write_mixb.streams pvt.audio_fd
  pub queue : View.IsValid pvt.queue

pub empty_of_length : {A : Type 0} (xs : List A) → length xs ≡ 0 → xs ≡ []
empty_of_length [] h = refl
empty_of_length (x ∷ xs) h = absurd (omega arith)

pub Counted-append :
    {chans : List Cpvt} {chansno : ℕ} {counts : CallState → ℕ} (c : Cpvt)
    → length chans + 1 < 2 ^ 32
    → Counted chans chansno counts
    → Counted (chans ++ (c ∷ [])) (add_uint chansno 1) (count_up counts c.state)
Counted-append {chans} {chansno} {counts} c small v = record {
  small = omega (arith, length-append chans (c ∷ []));
  exact = omega (arith, length-append chans (c ∷ []), v.exact);
  by_state = λ s. ground (arith, total-append (in_state s) chans c, v.by_state s);
}

pub Counted-remove :
    {chans : List Cpvt} {chansno : ℕ} {counts : CallState → ℕ} (p : ℕ) (c : Cpvt)
    → find_call p chans ≡ some c
    → Counted chans chansno counts
    → Counted (remove_call p chans) (sub_uint chansno 1) (count_down counts c.state)
Counted-remove {chans} {chansno} {counts} p c found v = record {
  small = omega (arith, v.small, length-remove_call p c chans found);
  exact = omega (arith, v.small, v.exact, length-remove_call p c chans found);
  by_state = λ s. ground (arith, total-remove_call (in_state s) p c chans found, v.by_state s);
}

pub Linked-append :
    {chans : List Cpvt} (c : Cpvt)
    → ¬ (c.address ≡ sys_chan)
    → ¬ In c.address (addresses chans)
    → c.flags ≡ no_flags
    → Linked chans
    → Linked (chans ++ (c ∷ []))
Linked-append {chans} c proper fresh flags v = record {
  distinct = append-Distinct chans c v.distinct fresh;
  proper = λ m. elim (In-append_last sys_chan chans c m) [ inl i ↦ v.proper i | inr e ↦ proper e ];
  one_master =
      omega (arith, v.one_master, total-append is_master chans c, ap (λ f. one_if f.master) flags);
  unserved = All-append _ chans (c ∷ []) v.unserved (λ e. ap (λ f. f.activated) flags, tt);
}

pub Linked-remove :
    {chans : List Cpvt} (p : ℕ) (c : Cpvt)
    → find_call p chans ≡ some c
    → Linked chans
    → Linked (remove_call p chans)
Linked-remove {chans} p c found v = record {
  distinct = remove_call-Distinct p chans v.distinct;
  proper = λ m. v.proper (remove_call-In p sys_chan chans m);
  one_master = omega (arith, v.one_master, total-remove_call is_master p c chans found);
  unserved = remove_call-All _ p chans v.unserved;
}

serves_not : (p : ℕ) (c : Cpvt) → c.flags.activated ≡ false → serves p c ≡ 0
serves_not p c h = ground arith

pub Pointed-append :
    {chans : List Cpvt} {last : Option ℕ} {tasks : List Task} {attached : List ℕ} {fd : Option ℕ}
    (c : Cpvt)
    → ¬ (fd ≡ none)
    → c.flags ≡ no_flags
    → Pointed chans last tasks attached fd
    → Pointed (chans ++ (c ∷ [])) last tasks attached fd
Pointed-append {chans} {last} {tasks} {attached} {fd} c opened flags v = record {
  last_dialed = λ p e. In-append_left p chans (c ∷ []) (v.last_dialed p e);
  owners =
      All-map _ _ tasks
        (λ t o. elim o [ inl e ↦ inl e | inr m ↦ inr (In-append_left t.cpvt chans (c ∷ []) m) ])
        v.owners;
  streams = λ p. omega (
    arith,
    v.streams p,
    total-append (serves p) chans c,
    serves_not p c (ap (λ f. f.activated) flags),
  );
  closed = λ e. absurd (opened e);
}

relink-Owned :
    (p : ℕ) (chans : List Cpvt) (task : Task)
    → Owned chans task
    → Owned (remove_call p chans) (relink p task)
relink-Owned p chans task o = elim (Bool-cases (task.cpvt == p)) [
  | inl e ↦ rw e (inl refl)
  | inr e ↦ rw e (elim o [
    | inl z ↦ inl z
    | inr m ↦
        inr (
          In-remove_call p task.cpvt chans (λ i. true≢false (sym ((==_iff task.cpvt p).1 i) ∙ e)) m)
  ])
]

remaining_last :
    (p : ℕ) (chans : List Cpvt) (last : Option ℕ)
    → ((q : ℕ) → last ≡ some q → In q (addresses chans))
    → (q : ℕ) → (if points_to last p then none else last) ≡ some q
    → In q (addresses (remove_call p chans))
remaining_last p chans none h q e = absurd (none≢some e)
remaining_last p chans (some r) h q e = elim (Bool-cases (r == p)) [
  | inl t ↦ absurd (none≢some (rw t at e))
  | inr t ↦
      In-remove_call p q chans
        (λ i. true≢false (sym ((==_iff r p).1 (some_injective (rw t at e) ∙ i)) ∙ t))
        (h q (rw t at e))
]

pub Pointed-remove :
    {chans : List Cpvt} {last : Option ℕ} {tasks : List Task} {attached : List ℕ} {fd : Option ℕ}
    (p : ℕ) (c : Cpvt)
    → find_call p chans ≡ some c
    → c.flags.activated ≡ false
    → Pointed chans last tasks attached fd
    → Pointed
        (remove_call p chans)
        (if points_to last p then none else last)
        (map (relink p) tasks)
        attached
        fd
Pointed-remove {chans} {last} {tasks} {attached} {fd} p c found idle v = record {
  last_dialed = remaining_last p chans last v.last_dialed;
  owners = map-All _ _ (relink p) tasks (relink-Owned p chans) v.owners;
  streams = λ q.
      omega (arith, v.streams q, total-remove_call (serves q) p c chans found, serves_not q c idle);
  closed = λ e. ap (remove_call p) (v.closed e);
}
