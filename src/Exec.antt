-- ===== src/Exec.antt =====
-- Go functions that call out, mutate what they point to, and return an error. The state comes back
-- beside the error too: what was written before a return stays written.
pub mod Same
use ansible_supervisor_servi.Prelude.{List, [], ◌∷◌, Text}
use ansible_supervisor_servi.Errors.{Error, Result, ok, err, wrap}

abbrev pub Exec : Type 0 → Type 0 → Type 0
Exec S A = S → Result A × S

module _ {S A : Type 0} where
  abbrev pub pure : A → Exec S A
  pure a s = (ok a, s)

  -- return err
  abbrev pub raise : Error → Exec S A
  raise e s = (err e, s)

  abbrev pub lift : Result A → Exec S A
  lift r s = (r, s)

  abbrev pub gets : (S → A) → Exec S A
  gets f s = (ok (f s), s)

  abbrev pub succeed : Result A × S → Result (Result A) × S
  succeed p = (ok (p.0), p.1)

  -- x, err := m(): the error becomes a value.
  abbrev pub attempt : Exec S A → Exec S (Result A)
  attempt m s = succeed (m s)

abbrev pub modify : {S : Type 0} → (S → S) → Exec S (Unit {0})
modify f s = (ok tt, f s)

module _ {S A B : Type 0} where
  abbrev pub continue : Result A × S → (A → Exec S B) → Result B × S
  continue (ok a, s) f = f a s
  continue (err e, s) f = (err e, s)

  infixl 5 ◌>>=◌ ◌>>◌
  abbrev pub ◌>>=◌ : Exec S A → (A → Exec S B) → Exec S B
  ◌>>=◌ m f s = continue (m s) f

  abbrev pub ◌>>◌ : Exec S A → Exec S B → Exec S B
  m >> n = m >>= λ _. n

-- if err != nil { return fmt.Errorf("<text>: %w", err) }
abbrev pub relabel : {A : Type 0} → Text → Result A → Result A
relabel t (ok a) = ok a
relabel t (err e) = err (wrap t e)

abbrev pub labelled : {S A : Type 0} → Text → Exec S A → Exec S A
labelled t m = attempt m >>= λ r. lift (relabel t r)

-- A world that the program calls out to, and the calls made so far, the latest first.
pub record Logged (W C : Type 0) : Type 0 where
  pub world : W
  pub calls : List C

abbrev pub start : {W C : Type 0} → W → Logged W C
start w = record { world = w; calls = [] }

abbrev pub logged :
    {W C A : Type 0} → List C → (Result A → C) → Result A × W → Result A × Logged W C
logged cs c (r, w) = (r, record { world = w; calls = c r ∷ cs })

-- One call that is recorded, with its answer.
abbrev pub call : {W C A : Type 0} → (Result A → C) → (W → Result A × W) → Exec (Logged W C) A
call c f s = logged s.calls c (f s.world)

abbrev pub unlogged : {W C A : Type 0} → List C → Result A × W → Result A × Logged W C
unlogged cs (r, w) = (r, record { world = w; calls = cs })

-- One call that is not recorded.
abbrev pub quiet : {W C A : Type 0} → (W → Result A × W) → Exec (Logged W C) A
quiet f s = unlogged s.calls (f s.world)
