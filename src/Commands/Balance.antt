-- ===== src/Commands/Balance.antt =====
-- The texts that `ast_strdup` gives to the functions of at_command.c: each is owned by a command of
-- the queue or freed, on every path.
use datacard.Base.{
  ℕ, ◌+◌, ◌≡◌, refl, Bool, true, false, List, [], ◌∷◌, ◌++◌, Option, none, some, arith,
  if◌then◌else◌, length,
}
use datacard.AtQueue.{Cmd, free_pointer, free_data, free_cmds, is_static}
use datacard.AtQueue.Added.{insert-total, insert_const-total}
use datacard.AtQueue.Owned.{occurrences, total, occurrences-append}
use datacard.Bytes.{Bytes}
use datacard.Commands.{
  Env, World, fill_with, fill_generic, filled_or, free_text, insert_cmds, insert_const_cmds,
  clear_static,
}

-- Every pointer was given as often as it is freed, owned by the queue or in `loose`.
pub record Balanced (w : World) (loose : List ℕ) : Type 0 where
  pub exact : (p : ℕ) → occurrences p w.given ≡ total p w.pvt.queue + occurrences p loose

-- What an operation leaves behind: no text is loose.
pub record Settled (result : ℕ × World) : Type 0 where
  pub balance : Balanced result.1 []

abbrev pub of_option : Option ℕ → List ℕ
of_option none = []
of_option (some p) = p ∷ []

-- A filled command owns the text that was given for it, of which `loose` does not know yet.
abbrev pub Filled : List ℕ → Option Cmd × World → Type 0
Filled loose (none, w) = Balanced w loose
Filled loose (some c, w) =
    ((free_data c).1 ≡ of_option c.pointer) × Balanced w (of_option c.pointer ++ loose)

free_pointer-dynamic : (c : Cmd) (o : Option ℕ) → (free_pointer false c o).1 ≡ of_option o
unfolding free_pointer
free_pointer-dynamic c none = refl
free_pointer-dynamic c (some p) = refl

pub free_data-dynamic : (c : Cmd) → is_static c ≡ false → (free_data c).1 ≡ of_option c.pointer
unfolding free_data
free_data-dynamic c d = rw d (free_pointer-dynamic c c.pointer)

fill_with-Filled :
    (w : World) (c : Cmd) (text : Bytes) (loose : List ℕ) (o : Option ℕ)
    → is_static (record c { flags = clear_static c.flags }) ≡ false
    → Balanced w loose
    → Filled loose (fill_with w c text o)
unfolding fill_with
fill_with-Filled w c text loose none d b = record { exact = b.exact }
fill_with-Filled w c text loose (some p) d b = (
  free_data-dynamic _ d,
  record { exact = λ q. omega (arith, b.exact q, occurrences-append q w.given (p ∷ [])) },
)

pub fill_generic-Filled :
    (env : Env) (w : World) (c : Cmd) (text : Bytes) (loose : List ℕ)
    → is_static (record c { flags = clear_static c.flags }) ≡ false
    → Balanced w loose
    → Filled loose (fill_generic env w c text)
unfolding fill_generic
fill_generic-Filled env w c text loose d b = fill_with-Filled w c text loose (env.dup w.dups) d b

pub free_text-Balanced :
    (w : World) (o : Option ℕ) (loose : List ℕ)
    → Balanced w (of_option o ++ loose)
    → Balanced (free_text o w) loose
free_text-Balanced w none loose b = b
free_text-Balanced w (some p) loose b = record {
  exact = λ q. omega (arith, b.exact q, occurrences-append q w.pvt.queue.freed (p ∷ []));
}

filled_or-Balanced :
    (undo : World → World) (r : Option Cmd × World) (next : Cmd → World → ℕ × World)
    (loose : List ℕ)
    → Filled loose r
    → ((w : World) → Balanced w loose → Balanced (undo w) [])
    → ((c : Cmd) (w : World)
        → (free_data c).1 ≡ of_option c.pointer
        → Balanced w (of_option c.pointer ++ loose)
        → Settled (next c w))
    → Settled (filled_or undo r next)
unfolding filled_or
filled_or-Balanced undo (none, w) next loose f u n = record { balance = u w f }
filled_or-Balanced undo (some c, w) next loose f u n = n c w f.0 f.1

-- A command is filled and more done, or `undo` after a failure.
pub fill_or-Balanced :
    {undo : World → World} {next : Cmd → World → ℕ × World} (env : Env) (w : World) (c : Cmd)
    (text : Bytes) (loose : List ℕ)
    → is_static (record c { flags = clear_static c.flags }) ≡ false
    → Balanced w loose
    → ((w : World) → Balanced w loose → Balanced (undo w) [])
    → ((c : Cmd) (w : World)
        → (free_data c).1 ≡ of_option c.pointer
        → Balanced w (of_option c.pointer ++ loose)
        → Settled (next c w))
    → Settled (filled_or undo (fill_generic env w c text) next)
fill_or-Balanced {undo} {next} env w c text loose d b u n =
    filled_or-Balanced undo (fill_generic env w c text) next loose
      (fill_generic-Filled env w c text loose d b) u n

pub if-Balanced :
    (b : Bool) {x y : ℕ × World} → Settled x → Settled y → Settled (if b then x else y)
if-Balanced true u v = u
if-Balanced false u v = v

pub insert_cmds-Balanced :
    (env : Env) (w : World) (cpvt : ℕ) (cmds : List Cmd) (athead : Bool) (loose : List ℕ)
    → ((p : ℕ) → occurrences p (free_cmds cmds) ≡ occurrences p loose)
    → Balanced w loose
    → Settled (insert_cmds env w cpvt cmds athead)
unfolding insert_cmds
insert_cmds-Balanced env w cpvt cmds athead loose e b = record {
  balance = record {
    exact = λ p. omega (
      arith,
      b.exact p,
      e p,
      insert-total env.tvadd env.device env.now p w.pvt.queue cpvt cmds (length cmds) athead
          env.allocated,
    );
  };
}

pub insert_const_cmds-Balanced :
    (env : Env) (w : World) (cpvt : ℕ) (cmds : List Cmd) (athead : Bool)
    → free_cmds cmds ≡ []
    → Balanced w []
    → Settled (insert_const_cmds env w cpvt cmds athead)
unfolding insert_const_cmds
insert_const_cmds-Balanced env w cpvt cmds athead e b = record {
  balance = record {
    exact = λ p. omega (
      arith,
      b.exact p,
      insert_const-total env.tvadd env.device env.now p w.pvt.queue cpvt cmds (length cmds) athead
          env.allocated e,
    );
  };
}
