-- ===== src/Commands/Customized.antt =====
-- The texts that `at_enque_initialization` makes.
use datacard.Base.{
  ℕ, ◌≡◌, refl, ap, false, List, [], ◌∷◌, ◌++◌, append-nil, Option, none, some, arith, All,
  All-append, subst, sym, Bool-cases, inl, inr,
}
use datacard.AtQueue.{Cmd, free_pointer, free_data, free_cmds, is_static}
use datacard.AtQueue.Owned.{occurrences, occurrences-append}
use datacard.Commands.{AtCmd, Env, World, clear_static, fill_generic, free_text}
use datacard.Commands.Initialize.{
  Options, st_cmds, is_cmd, since, one_filled, is_left_out, u2diag_text, cmgf_text, customize,
  free_texts, then_customize, customize_all, insert_customized, enque_initialization,
}
use datacard.Commands.Balance.{
  Balanced, Settled, Filled, of_option, fill_generic-Filled, free_text-Balanced,
  insert_cmds-Balanced,
}
use datacard.Commands.Operations.{free_cmds-append, unchanged}

-- A command of the table: it has no text of its own yet, and can get one.
abbrev IsPlain : Cmd → Type 0
IsPlain c = (c.pointer ≡ none) × (is_static (record c { flags = clear_static c.flags }) ≡ false)

abbrev OwnsText : Cmd → Type 0
OwnsText c = (free_data c).1 ≡ of_option c.pointer

plain-OwnsText : (c : Cmd) → c.pointer ≡ none → OwnsText c
unfolding free_data free_pointer
plain-OwnsText c e = rw e refl

-- The commands that a round has put out own the texts that it was given.
Customized : List ℕ → Option (List Cmd) × World → Type 0
Customized loose (none, w) = Balanced w loose
Customized loose (some cs, w) = All OwnsText cs × Balanced w (free_cmds cs ++ loose)

one_filled-Customized :
    (loose : List ℕ) (r : Option Cmd × World) → Filled loose r → Customized loose (one_filled r)
unfolding Customized one_filled free_cmds
one_filled-Customized loose (none, w) f = f
one_filled-Customized loose (some c, w) f = (
  (f.0, tt),
  record {
    exact = λ p. omega (
      arith,
      f.1.exact p,
      ap (occurrences p) f.0,
      occurrences-append p ((free_data c).1 ++ []) loose,
      occurrences-append p (free_data c).1 [],
      occurrences-append p (of_option c.pointer) loose,
    );
  },
)

kept-Customized :
    (w : World) (c : Cmd) (loose : List ℕ)
    → c.pointer ≡ none
    → Balanced w loose
    → Customized loose (some (c ∷ []), w)
unfolding Customized free_cmds free_data free_pointer
kept-Customized w c loose e b = rw e ((refl, tt), b)

customize-Customized :
    (env : Env) (options : Options) (w : World) (c : Cmd) (loose : List ℕ)
    → IsPlain c
    → Balanced w loose
    → Customized loose (customize env options w c)
unfolding customize Customized free_cmds
customize-Customized env options w c loose plain b = elim (Bool-cases (is_left_out options c)) [
  | inl e ↦ rw e (tt, b)
  | inr e ↦ elim (Bool-cases (is_cmd AtCmd.u2diag c)) [
    | inl f ↦ rw e (
        rw f (
          one_filled-Customized loose (fill_generic env w c (u2diag_text options.u2diag))
            (fill_generic-Filled env w c (u2diag_text options.u2diag) loose plain.1 b)))
    | inr f ↦ elim (Bool-cases (is_cmd AtCmd.cmgf c)) [
      | inl g ↦ rw e (
          rw f (
            rw g (
              one_filled-Customized loose (fill_generic env w c (cmgf_text options.smsaspdu))
                (fill_generic-Filled env w c (cmgf_text options.smsaspdu) loose plain.1 b))))
      | inr g ↦ rw e (rw f (rw g (kept-Customized w c loose plain.0 b)))
    ]
  ]
]

free_texts-Balanced :
    (cs : List Cmd) (w : World)
    → All OwnsText cs
    → Balanced w (free_cmds cs)
    → Balanced (free_texts cs w) []
unfolding free_cmds
free_texts-Balanced [] w o b = b
free_texts-Balanced (c ∷ cs) w o b = free_texts-Balanced cs (free_text c.pointer w) o.1 (
    free_text-Balanced w c.pointer (free_cmds cs)
      (subst (λ l. Balanced w (l ++ free_cmds cs)) o.0 b))

st_cmds-IsPlain : All IsPlain st_cmds
st_cmds-IsPlain = (
  (refl, refl),
  (
    (refl, refl),
    (
      (refl, refl),
      (
        (refl, refl),
        (
          (refl, refl),
          (
            (refl, refl),
            (
              (refl, refl),
              (
                (refl, refl),
                (
                  (refl, refl),
                  (
                    (refl, refl),
                    (
                      (refl, refl),
                      (
                        (refl, refl),
                        (
                          (refl, refl),
                          (
                            (refl, refl),
                            (
                              (refl, refl),
                              (
                                (refl, refl),
                                (
                                  (refl, refl),
                                  (
                                    (refl, refl),
                                    (
                                      (refl, refl),
                                      (
                                        (refl, refl),
                                        ((refl, refl), ((refl, refl), ((refl, refl), tt))),
                                      ),
                                    ),
                                  ),
                                ),
                              ),
                            ),
                          ),
                        ),
                      ),
                    ),
                  ),
                ),
              ),
            ),
          ),
        ),
      ),
    ),
  ),
)

-- The whole list: what is put out owns the texts given, or all of them are freed.
then_customize-Settles :
    (out : List Cmd) (r : Option (List Cmd) × World)
    (next : List Cmd → World → Option (List Cmd) × World)
    → All OwnsText out
    → Customized (free_cmds out) r
    → ((out : List Cmd) (w : World)
        → All OwnsText out
        → Balanced w (free_cmds out)
        → Customized [] (next out w))
    → Customized [] (then_customize out r next)
unfolding Customized
then_customize-Settles out (none, w) next o c n = free_texts-Balanced out w o c
then_customize-Settles out (some cs, w) next o c n =
    n (out ++ cs) w (All-append OwnsText out cs o c.0) (record {
      exact = λ p. omega (
        arith,
        c.1.exact p,
        free_cmds-append p out cs,
        occurrences-append p (free_cmds cs) (free_cmds out),
      );
    })

customize_all-Customized :
    (env : Env) (options : Options) (cs out : List Cmd) (w : World)
    → All IsPlain cs
    → All OwnsText out
    → Balanced w (free_cmds out)
    → Customized [] (customize_all env options cs out w)
unfolding customize_all Customized
customize_all-Customized env options [] out w plain o b =
    (o, subst (λ l. Balanced w l) (sym (append-nil (free_cmds out))) b)
customize_all-Customized env options (c ∷ cs) out w plain o b =
    then_customize-Settles out (customize env options w c) _ o
      (customize-Customized env options w c (free_cmds out) plain.0 b)
      (λ out' w' o' b'. customize_all-Customized env options cs out' w' plain.1 o' b')

insert_customized-Settled :
    (env : Env) (cpvt : ℕ) (r : Option (List Cmd) × World)
    → Customized [] r
    → Settled (insert_customized env cpvt r)
unfolding insert_customized Customized free_cmds
insert_customized-Settled env cpvt (none, w) c = unchanged c
insert_customized-Settled env cpvt (some [], w) c = unchanged c.1
insert_customized-Settled env cpvt (some (d ∷ cs), w) c =
    insert_cmds-Balanced env w cpvt (d ∷ cs) false _
      (λ p. omega (arith, occurrences-append p (free_cmds (d ∷ cs)) [])) c.1

since-All : (from : AtCmd) (cs : List Cmd) → All IsPlain cs → All IsPlain (since from cs)
since-All from [] h = h
since-All from (c ∷ cs) h = elim (Bool-cases (is_cmd from c)) [
  | inl e ↦ rw e h
  | inr e ↦ rw e (since-All from cs h.1)
]

pub enque_initialization-Settled :
    (env : Env) (options : Options) (w : World) (cpvt : ℕ) (from : AtCmd)
    → Balanced w []
    → Settled (enque_initialization env options w cpvt from)
unfolding enque_initialization free_cmds
enque_initialization-Settled env options w cpvt from b = insert_customized-Settled env cpvt _ (
    customize_all-Customized env options (since from st_cmds) [] w
      (since-All from st_cmds st_cmds-IsPlain) tt b)
