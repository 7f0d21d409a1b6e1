-- ===== src/Calls/Update.antt =====
-- What a change of one call, or of the master flag of the others, does to each part of the
-- invariant.
use datacard.Base.{
  ℕ, ◌+◌, ◌%◌, ◌≡◌, ◌≤◌, refl, ap, sym, ◌∙◌, inl, inr, Bool, false, List, [], ◌∷◌, map, Option,
  none, some, arith, ◌==◌, ==_iff, Bool-cases, none≢some, All-map, map-All, In, subst, length-map,
}
use datacard.AtQueue.{Task}
use datacard.MixBuffer.Streams.{one_if, occurrences}
use datacard.Calls.{CallState, Cpvt, same_state, find_call, update_call}
use datacard.Calls.Change.{set_master, demote}
use datacard.Calls.Total.{
  some_injective, total, addresses, Distinct, total-update_call, update_call-All,
  addresses-update_call, length-update_call,
}
use datacard.Calls.Valid.{in_state, is_master, serves, Counted, Linked, Pointed}

pub total-demote :
    (m : Cpvt → ℕ) (p : ℕ) (cs : List Cpvt)
    → ((d : Cpvt) → m (set_master false d) ≡ m d)
    → total m (map (demote p) cs) ≡ total m cs
total-demote m p [] k = refl
total-demote m p (d ∷ cs) k = ground (arith, k d, total-demote m p cs k)

pub addresses-demote : (p : ℕ) (cs : List Cpvt) → addresses (map (demote p) cs) ≡ addresses cs
addresses-demote p [] = refl
addresses-demote p (d ∷ cs) = elim (Bool-cases (d.address == p)) [
  | inl e ↦ rw e (ap (λ qs. d.address ∷ qs) (addresses-demote p cs))
  | inr e ↦ rw e (ap (λ qs. d.address ∷ qs) (addresses-demote p cs))
]

pub find_call-demote :
    (p : ℕ) (c : Cpvt) (cs : List Cpvt)
    → find_call p cs ≡ some c
    → find_call p (map (demote p) cs) ≡ some c
find_call-demote p c [] h = h
find_call-demote p c (d ∷ cs) h = elim (Bool-cases (d.address == p)) [
  | inl e ↦ rw e (rw e (rw e at h))
  | inr e ↦ rw e (rw e (find_call-demote p c cs (rw e at h)))
]

demoted : (p : ℕ) (d : Cpvt) → ¬ (d.address ≡ p) → is_master (demote p d) ≡ 0
demoted p d n = elim (Bool-cases (d.address == p)) [
  | inl e ↦ absurd (n ((==_iff d.address p).0 e))
  | inr e ↦ rw e refl
]

masters_absent :
    (p : ℕ) (cs : List Cpvt) → ¬ In p (addresses cs) → total is_master (map (demote p) cs) ≡ 0
masters_absent p [] n = refl
masters_absent p (d ∷ cs) n =
    omega (arith, demoted p d (λ e. n (inl e)), masters_absent p cs (λ i. n (inr i)))

-- After the other calls gave the audio port up, only the call itself can have it.
pub masters_demoted :
    (p : ℕ) (c : Cpvt) (cs : List Cpvt)
    → Distinct (addresses cs)
    → find_call p cs ≡ some c
    → total is_master (map (demote p) cs) ≡ is_master c
masters_demoted p c [] h f = absurd (none≢some f)
masters_demoted p c (d ∷ cs) h f = elim (Bool-cases (d.address == p)) [
  | inl e ↦
      let i = (==_iff d.address p).0 e in
      rw e (
        omega (
          arith,
          masters_absent p cs (λ m. h.0 (subst (λ q. In q (addresses cs)) (sym i) m)),
          ap is_master (some_injective (rw e at f)),
        ))
  | inr e ↦ rw e (omega (arith, masters_demoted p c cs h.1 (rw e at f)))
]

-- A change of one call that leaves its address and state.
pub Counted-update :
    {chans : List Cpvt} {chansno : ℕ} {counts : CallState → ℕ} (p : ℕ) (f : Cpvt → Cpvt) (c : Cpvt)
    → find_call p chans ≡ some c
    → (f c).state ≡ c.state
    → Counted chans chansno counts
    → Counted (update_call p f chans) chansno counts
Counted-update {chans} p f c found same v = record {
  small = rw (length-update_call p f chans) v.small;
  exact = v.exact ∙ sym (length-update_call p f chans);
  by_state = λ s. omega (
    arith,
    v.by_state s,
    total-update_call (in_state s) p f c chans found,
    ap (λ x. one_if (same_state s x)) same,
  );
}

pub Counted-demote :
    {chans : List Cpvt} {chansno : ℕ} {counts : CallState → ℕ} (p : ℕ)
    → Counted chans chansno counts
    → Counted (map (demote p) chans) chansno counts
Counted-demote {chans} p v = record {
  small = rw (length-map (demote p) chans) v.small;
  exact = v.exact ∙ sym (length-map (demote p) chans);
  by_state =
      λ s. v.by_state s ∙ ap (λ n. n % 256) (sym (total-demote (in_state s) p chans (λ d. refl)));
}

pub Linked-update :
    {chans : List Cpvt} (p : ℕ) (f : Cpvt → Cpvt) (c : Cpvt)
    → ((d : Cpvt) → (f d).address ≡ d.address)
    → find_call p chans ≡ some c
    → total is_master chans + is_master (f c) ≤ 1 + is_master c
    → ((f c).channel ≡ none → (f c).flags.activated ≡ false)
    → Linked chans
    → Linked (update_call p f chans)
Linked-update {chans} p f c k found masters idle v = record {
  distinct = rw (addresses-update_call p f chans k) v.distinct;
  proper = rw (addresses-update_call p f chans k) v.proper;
  one_master = omega (arith, total-update_call is_master p f c chans found, masters);
  unserved = update_call-All _ p f c chans found idle v.unserved;
}

-- The same pointers into a list of the same addresses, with other streams.
pub Pointed-addresses :
    {chans chans' : List Cpvt} {last : Option ℕ} {tasks : List Task} {attached attached' : List ℕ}
    {fd : Option ℕ}
    → addresses chans' ≡ addresses chans
    → ¬ (fd ≡ none)
    → ((p : ℕ) → occurrences p attached' ≡ total (serves p) chans')
    → Pointed chans last tasks attached fd
    → Pointed chans' last tasks attached' fd
Pointed-addresses {chans} {chans'} {last} {tasks} e opened s v = record {
  last_dialed = λ p l. rw e (v.last_dialed p l);
  owners = All-map _ _ tasks (λ t o. elim o [ inl z ↦ inl z | inr m ↦ inr (rw e m) ]) v.owners;
  streams = s;
  closed = λ n. absurd (opened n);
}

one_if-bound : (b : Bool) → one_if b ≤ 1
one_if-bound b = ground arith

demote_unserved :
    (p : ℕ) (d : Cpvt)
    → (d.channel ≡ none → d.flags.activated ≡ false)
    → (demote p d).channel ≡ none
    → (demote p d).flags.activated ≡ false
demote_unserved p d h = elim (Bool-cases (d.address == p)) [ inl e ↦ rw e h | inr e ↦ rw e h ]

pub Linked-demote :
    {chans : List Cpvt} (p : ℕ) (c : Cpvt)
    → find_call p chans ≡ some c
    → Linked chans
    → Linked (map (demote p) chans)
Linked-demote {chans} p c found v = record {
  distinct = rw (addresses-demote p chans) v.distinct;
  proper = rw (addresses-demote p chans) v.proper;
  one_master = rw (masters_demoted p c chans v.distinct found) (one_if-bound c.flags.master);
  unserved = map-All _ _ (demote p) chans (demote_unserved p) v.unserved;
}
